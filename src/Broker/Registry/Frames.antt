-- ===== src/Broker/Registry/Frames.antt =====
-- The operations of the broker that leave both indexes of the participants alone.
use inter_agent_bus.Base.{
  List, Option-cases, Text, [], arith, inl, inr, keep, refl, ℕ, ◌∙◌, ◌∷◌, ◌≡◌,
}
use inter_agent_bus.Broker.Types.{
  Chain, Config, Envelope, Job, MailEntry, Participant, State, flush, push,
}
use inter_agent_bus.Broker.Mail.{
  enqueue_mailbox, load_file, load_files, load_mailbox_from_disk, rewrite_mailbox_file, is_fresh,
}
use inter_agent_bus.Broker.Registry.{IsRegistry}
use inter_agent_bus.Base.Maps
use inter_agent_bus.Base.Maps.{Map}
use inter_agent_bus.Value.{Value}
use inter_agent_bus.Broker.Delivery.{
  Outcome, enqueue_delivery, enqueue_entries, flush_queue, enqueue_mailbox_flush_on_register,
  settle, step_chain, finish_delivery,
}
use inter_agent_bus.Broker.Gc.{gc_queue, gc_mailbox}
use inter_agent_bus.Broker.Push.{push_offline, push_envelope, handle_push}

pub record IsSame (s u : State) : Type 0 where
  pub participants : u.participants ≡ s.participants
  pub by_id : u.participants_by_id ≡ s.participants_by_id

IsSame-refl : (s : State) → IsSame s s
IsSame-refl s = record { participants = refl; by_id = refl }

enqueue_entries-IsSame :
    (p : Participant) (hash : Text) (es : List MailEntry) (s : State)
    → IsSame s (enqueue_entries p hash es s)
unfolding enqueue_entries enqueue_delivery
enqueue_entries-IsSame p hash [] s = IsSame-refl s
enqueue_entries-IsSame p hash (e ∷ es) s =
    let h = enqueue_entries-IsSame p hash es (enqueue_delivery p (flush hash e) s) in
    record { participants = h.participants; by_id = h.by_id }

flush_queue-IsSame :
    (c : Config) (now : ℕ) (p : Participant) (hash : Text) (es : List MailEntry) (s : State)
    → IsSame s (flush_queue c now p hash es s)
unfolding flush_queue rewrite_mailbox_file
flush_queue-IsSame c now p hash [] s = IsSame-refl s
flush_queue-IsSame c now p hash (e ∷ es) s =
    let h =
      enqueue_entries-IsSame p hash (keep (is_fresh now) (e ∷ es))
        (rewrite_mailbox_file c hash (record s { mailbox = Maps.delete hash s.mailbox })) in
    record { participants = h.participants; by_id = h.by_id }

pub flush-IsSame :
    (c : Config) (now : ℕ) (p : Participant) (s : State)
    → IsSame s (enqueue_mailbox_flush_on_register c now p s)
flush-IsSame c now p s =
    unfold enqueue_mailbox_flush_on_register in flush_queue-IsSame c now p _ _ s

settle-IsSame :
    (c : Config) (now : ℕ) (p : Participant) (j : Job) (v : Value) (s : State)
    → IsSame s (settle c now p j v s).0
unfolding settle enqueue_mailbox rewrite_mailbox_file
settle-IsSame c now p (push e) v s = ground arith
settle-IsSame c now p (flush hash e) v s = ground arith

step_chain-IsSame :
    (c : Config) (now : ℕ) (o : Outcome) (t : Text) (chain : Chain) (jobs : List Job) (s : State)
    → IsSame s (step_chain c now o t chain jobs s).0
unfolding step_chain
step_chain-IsSame c now o t chain [] s = IsSame-refl s
step_chain-IsSame c now o t chain (j ∷ js) s =
    let h = settle-IsSame c now chain.participant j _ _ in
    record { participants = h.participants; by_id = h.by_id }

pub finish_delivery-IsSame :
    (c : Config) (now : ℕ) (o : Outcome) (t : Text) (s : State)
    → IsSame s (finish_delivery c now o t s).0
unfolding finish_delivery
finish_delivery-IsSame c now o t s = elim (Option-cases (Maps.get t s.chains)) [
  | inl e ↦ rw (e, finish_delivery) (IsSame-refl s)
  | inr (chain, e) ↦ rw (e, finish_delivery) (step_chain-IsSame c now o t chain chain.jobs s)
]

push_offline-IsSame :
    (c : Config) (now : ℕ) (e : Envelope) (s : State) → IsSame s (push_offline c now e s).0
unfolding push_offline enqueue_mailbox rewrite_mailbox_file
push_offline-IsSame c now e s = ground arith

push_envelope-IsSame :
    (c : Config) (now : ℕ) (e : Envelope) (s : State) → IsSame s (push_envelope c now e s).0
unfolding push_envelope enqueue_delivery
push_envelope-IsSame c now e s = ground (arith, push_offline-IsSame c now e s)

pub handle_push-IsSame :
    (c : Config) (now : ℕ) (req : Value) (s : State) → IsSame s (handle_push c now req s).0
unfolding handle_push
handle_push-IsSame c now req s = grind (arith, push_envelope-IsSame)

gc_queue-IsSame :
    (c : Config) (now : ℕ) (hash : Text) (q : List MailEntry) (s : State)
    → IsSame s (gc_queue c now hash q s)
unfolding gc_queue rewrite_mailbox_file
gc_queue-IsSame c now hash q s = ground arith

pub gc_mailbox-IsSame :
    (c : Config) (now : ℕ) (qs : Map (List MailEntry)) (s : State)
    → IsSame s (gc_mailbox c now qs s)
unfolding gc_mailbox
gc_mailbox-IsSame c now [] s = IsSame-refl s
gc_mailbox-IsSame c now ((hash, q) ∷ qs) s =
    let first = gc_queue-IsSame c now hash q s in
    let rest = gc_mailbox-IsSame c now qs (gc_queue c now hash q s) in
    record {
      participants = rest.participants ∙ first.participants;
      by_id = rest.by_id ∙ first.by_id;
    }

load_file-IsSame :
    (c : Config) (now : ℕ) (f : Text × Text) (s : State) → IsSame s (load_file c now f s)
unfolding load_file rewrite_mailbox_file
load_file-IsSame c now (f, content) s = ground arith

load_files-IsSame :
    (c : Config) (now : ℕ) (fs : List (Text × Text)) (s : State) → IsSame s (load_files c now fs s)
unfolding load_files
load_files-IsSame c now [] s = IsSame-refl s
load_files-IsSame c now (f ∷ fs) s =
    let first = load_file-IsSame c now f s in
    let rest = load_files-IsSame c now fs (load_file c now f s) in
    record {
      participants = rest.participants ∙ first.participants;
      by_id = rest.by_id ∙ first.by_id;
    }

pub load_mailbox_from_disk-IsSame :
    (c : Config) (now : ℕ) (s : State) → IsSame s (load_mailbox_from_disk c now s)
unfolding load_mailbox_from_disk
load_mailbox_from_disk-IsSame c now s = load_files-IsSame c now s.mailbox_files s

abbrev pub IsConsistent : State → Type 0
IsConsistent s = IsRegistry s.participants s.participants_by_id

pub same-IsConsistent : {s u : State} → IsSame s u → IsConsistent s → IsConsistent u
same-IsConsistent h r = rw (h.participants, h.by_id) r
