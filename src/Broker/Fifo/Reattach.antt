-- ===== src/Broker/Fifo/Reattach.antt =====
-- A session that registers has its mailbox on its chain before anything that is pushed later.
use mathlib.Core.List.{append-nil}
use inter_agent_bus.Base.{
  ℕ, Bool, none, List, [], ◌∷◌, ◌++◌, map, ◌≡◌, refl, ap, sym, ◌∙◌, Text, arith, keep,
}
use inter_agent_bus.Base.Maps
use inter_agent_bus.Base.Maps.{Map, get-delete_self}
use inter_agent_bus.Broker.Types.{
  State, Config, MailEntry, Participant, Job, flush, append_log, register,
}
use inter_agent_bus.Broker.Mail.{session_hash, queue_of, is_fresh, rewrite_mailbox_file}
use inter_agent_bus.Broker.Delivery.{
  enqueue_delivery, enqueue_entries, flush_queue, enqueue_mailbox_flush_on_register,
}
use inter_agent_bus.Broker.Leases.{mark_recent, persist_registry}
use inter_agent_bus.Broker.Register.{
  Registration, new_participant, admit, delete_recent_aliases_for_session,
}
use inter_agent_bus.Broker.Fifo.{pending}
use inter_agent_bus.Broker.Fifo.Chains.{pending-entries, pending_of_same}

queue_of-delete : (hash : Text) (m : Map (List MailEntry)) → queue_of hash (Maps.delete hash m) ≡ []
unfolding queue_of
queue_of-delete hash m = ground (arith, get-delete_self hash m)

entries-mailbox :
    (p : Participant) (hash : Text) (es : List MailEntry) (s : State)
    → (enqueue_entries p hash es s).mailbox ≡ s.mailbox
unfolding enqueue_entries
entries-mailbox p hash [] s = refl
entries-mailbox p hash (e ∷ es) s = entries-mailbox p hash es _ ∙ unfold enqueue_delivery in refl

flush_queue_lem :
    (c : Config) (now : ℕ) (p : Participant) (hash : Text) (q : List MailEntry) (s : State)
    → queue_of hash s.mailbox ≡ q
    → (pending p.lease_token (flush_queue c now p hash q s)
        ≡ pending p.lease_token s ++ map (flush hash) (keep (is_fresh now) q))
      × (queue_of hash (flush_queue c now p hash q s).mailbox ≡ [])
unfolding flush_queue rewrite_mailbox_file
flush_queue_lem c now p hash [] s h = (unfold keep in sym (append-nil (pending p.lease_token s)), h)
flush_queue_lem c now p hash (e ∷ es) s h =
    let s' = rewrite_mailbox_file c hash (record s { mailbox = Maps.delete hash s.mailbox }) in
    (
      pending-entries p hash (keep (is_fresh now) (e ∷ es)) s'
          ∙ ap (λ (l : List Job). l ++ map (flush hash) (keep (is_fresh now) (e ∷ es)))
              (pending_of_same p.lease_token s s' refl),
      ap (queue_of hash) (entries-mailbox p hash (keep (is_fresh now) (e ∷ es)) s')
          ∙ queue_of-delete hash s.mailbox,
    )

pending-none : (t : Text) (s : State) → Maps.get t s.chains ≡ none → pending t s ≡ []
unfolding pending
pending-none t s h = rw (h, pending)

-- The state of an admission before the mailbox is put on the chain.
abbrev entered : ℕ → Text → Registration → Text → Bool → State → State
entered now token r id reclaimed s =
    let p = new_participant now token id r in
    let s' = record s {
      participants = Maps.set token p s.participants;
      participants_by_id = Maps.set id token s.participants_by_id;
      recent_participants = delete_recent_aliases_for_session r.session_id id s.recent_participants;
    } in
    persist_registry
      (append_log (register reclaimed id r.kind r.adapter r.display_name) (mark_recent now p s'))

-- With a fresh lease token, the chain of a participant that is admitted holds the mail of its
-- session that is not too old, in the order in which it was queued, and its mailbox is empty.
pub pending-admit :
    (c : Config) (now : ℕ) (token : Text) (r : Registration) (id : Text) (reclaimed : Bool)
    (s : State)
    → Maps.get token s.chains ≡ none
    → let hash = session_hash c r.session_id in
      (pending token (admit c now token r id reclaimed s).0
        ≡ map (flush hash) (keep (is_fresh now) (queue_of hash s.mailbox)))
      × (queue_of hash (admit c now token r id reclaimed s).0.mailbox ≡ [])
unfolding admit enqueue_mailbox_flush_on_register mark_recent persist_registry new_participant
pending-admit c now token r id reclaimed s fresh =
    let p = new_participant now token id r in
    let s' = entered now token r id reclaimed s in
    let hash = session_hash c r.session_id in
    (
      (flush_queue_lem c now p hash (queue_of hash s.mailbox) s' refl).0
          ∙ ap
              (λ (l : List Job).
                l ++ map (flush hash) (keep (is_fresh now) (queue_of hash s.mailbox)))
              (pending_of_same token s s' refl ∙ pending-none token s fresh),
      (flush_queue_lem c now p hash (queue_of hash s.mailbox) s' refl).1,
    )
