-- ===== src/Broker/Mirror/Requests.antt =====
-- The requests keep the mailbox files in step with the mailbox.
use inter_agent_bus.Base.{
  ℕ, Bool, false, Option, none, some, List, [], ◌∷◌, ◌≡◌, refl, sym, Text, ◌==◌, arith, Bool-cases,
  Option-cases, inl, inr, keep, subst,
}
use inter_agent_bus.Base.Maps
use inter_agent_bus.Base.Maps.{Map, get-set_ne, get-delete_ne}
use inter_agent_bus.Value.{Value}
use inter_agent_bus.Broker.Types.{
  State, Config, MailEntry, Participant, flush, Envelope, Reply, ok, err, Result, is_lease_valid,
}
use inter_agent_bus.Broker.Mail.{queue_of, rewrite_mailbox_file, enqueue_mailbox, is_fresh}
use inter_agent_bus.Broker.Delivery.{
  enqueue_entries, flush_queue, enqueue_mailbox_flush_on_register, enqueue_delivery,
}
use inter_agent_bus.Broker.Leases.{
  renew, renew_with, leave, leave_with, mark_recent, persist_registry,
}
use inter_agent_bus.Broker.Gc.{gc_store}
use inter_agent_bus.Broker.Register.{
  Registration, new_participant, admit, admit_if_free, drop_lease, register_again, register_new,
  register_checked, register_result, find_participant_by_session_id, first_id,
}
use inter_agent_bus.Broker.Push.{push_offline, push_envelope, handle_push, live_recipient}
use inter_agent_bus.Broker.Stamp.{handle_push-IsStamped}
use inter_agent_bus.Broker.Mirror.{Mirrors, rewrite-Mirrors}

-- A state with the same mailbox and the same files.
abbrev pub AlikeMail : State → State → Type 0
AlikeMail s u = (u.mailbox ≡ s.mailbox) × (u.mailbox_files ≡ s.mailbox_files)

pub alike-Mirrors : (c : Config) (s u : State) → AlikeMail s u → Mirrors c s → Mirrors c u
alike-Mirrors c s u (m, f) k = (λ h. rw (m, f) (k.0 h), rw f k.1)

pub queue_of-set_ne :
    (hash h : Text) (q : List MailEntry) (m : Map (List MailEntry))
    → (hash == h) ≡ false
    → queue_of h (Maps.set hash q m) ≡ queue_of h m
unfolding queue_of
queue_of-set_ne hash h q m e = ground (arith, get-set_ne hash h q m e)

queue_of-delete_ne :
    (hash h : Text) (m : Map (List MailEntry))
    → (hash == h) ≡ false
    → queue_of h (Maps.delete hash m) ≡ queue_of h m
unfolding queue_of
queue_of-delete_ne hash h m e = ground (arith, get-delete_ne hash h m e)

entries-alike :
    (p : Participant) (hash : Text) (es : List MailEntry) (s : State)
    → AlikeMail s (enqueue_entries p hash es s)
unfolding enqueue_entries enqueue_delivery
entries-alike p hash [] s = (refl, refl)
entries-alike p hash (e ∷ es) s = entries-alike p hash es (enqueue_delivery p (flush hash e) s)

pub renew_with-alike : (now : ℕ) (o : Option Text) (s : State) → AlikeMail s (renew_with now o s).0
unfolding renew_with renew mark_recent
renew_with-alike now none s = (refl, refl)
renew_with-alike now (some t) s = (ground arith, ground arith)

pub leave_with-alike : (now : ℕ) (o : Option Text) (s : State) → AlikeMail s (leave_with now o s).0
unfolding leave_with leave mark_recent persist_registry
leave_with-alike now none s = (refl, refl)
leave_with-alike now (some t) s = (ground arith, ground arith)

module _ (c : Config) where
  pub enqueue_mailbox-Mirrors :
      (now : ℕ) (hash to : Text) (e : Envelope) (s : State)
      → Mirrors c s
      → Mirrors c (enqueue_mailbox c now hash to e s)
  unfolding enqueue_mailbox
  enqueue_mailbox-Mirrors now hash to e s k =
      rewrite-Mirrors c hash _ s (λ h ne. queue_of-set_ne hash h _ s.mailbox ne) k

  pub gc_store-Mirrors :
      (hash : Text) (q : List MailEntry) (s : State) → Mirrors c s → Mirrors c (gc_store c hash q s)
  unfolding gc_store
  gc_store-Mirrors hash [] s k =
      rewrite-Mirrors c hash _ s (λ h ne. queue_of-delete_ne hash h s.mailbox ne) k
  gc_store-Mirrors hash (e ∷ es) s k =
      rewrite-Mirrors c hash _ s (λ h ne. queue_of-set_ne hash h (e ∷ es) s.mailbox ne) k

  flush_queue-Mirrors :
      (now : ℕ) (p : Participant) (hash : Text) (q : List MailEntry) (s : State)
      → Mirrors c s
      → Mirrors c (flush_queue c now p hash q s)
  unfolding flush_queue
  flush_queue-Mirrors now p hash [] s k = k
  flush_queue-Mirrors now p hash (e ∷ es) s k =
      let s' = rewrite_mailbox_file c hash (record s { mailbox = Maps.delete hash s.mailbox }) in
      alike-Mirrors c s' (enqueue_entries p hash (keep (is_fresh now) (e ∷ es)) s')
        (entries-alike p hash (keep (is_fresh now) (e ∷ es)) s')
        (rewrite-Mirrors c hash (Maps.delete hash s.mailbox) s
          (λ h ne. queue_of-delete_ne hash h s.mailbox ne) k)

  admit_if_free-Mirrors :
      (now : ℕ) (t : Text) (r : Registration) (id : Text) (b : Bool) (s : State)
      → Mirrors c s
      → Mirrors c (admit_if_free c now t r id b s).0
  unfolding admit_if_free admit mark_recent persist_registry enqueue_mailbox_flush_on_register
  admit_if_free-Mirrors now t r id b s k = elim (Bool-cases (Maps.has id s.participants_by_id)) [
    | inl e ↦ simp e k
    | inr e ↦ simp e (flush_queue-Mirrors now (new_participant now t id r) _ _ _ k)
  ]

  register_again-Mirrors :
      (now : ℕ) (t : Text) (r : Registration) (p : Participant) (s : State)
      → Mirrors c s
      → Mirrors c (register_again c now t r p s).0
  unfolding register_again drop_lease
  register_again-Mirrors now t r p s k = elim (Bool-cases (p.kind == r.kind)) [
    | inr e ↦ simp e k
    | inl e ↦ elim (Bool-cases (is_lease_valid now p)) [
      | inl live ↦ simp (e, live) k
      | inr gone ↦ simp (e, gone) (admit_if_free-Mirrors now t r _ _ (drop_lease p s) k)
    ]
  ]

  register_new-Mirrors :
      (now : ℕ) (t : Text) (r : Registration) (o : Option Text) (s : State)
      → Mirrors c s
      → Mirrors c (register_new c now t r o s).0
  unfolding register_new
  register_new-Mirrors now t r none s k = k
  register_new-Mirrors now t r (some id) s k = admit_if_free-Mirrors now t r id false s k

  register_checked-Mirrors :
      (now : ℕ) (t : Text) (r : Registration) (s : State)
      → Mirrors c s
      → Mirrors c (register_checked c now t r s).0
  unfolding register_checked
  register_checked-Mirrors now t r s k =
      elim (Option-cases (find_participant_by_session_id r.session_id s.participants)) [
        | inl e ↦
            rw (e, register_checked)
              (register_new-Mirrors now t r (first_id c r s.participants_by_id) s k)
        | inr (p, e) ↦ rw (e, register_checked) (register_again-Mirrors now t r p s k)
      ]

  pub register_result-Mirrors :
      (now : ℕ) (t : Text) (r : Result Registration) (s : State)
      → Mirrors c s
      → Mirrors c (register_result c now t r s).0
  unfolding register_result
  register_result-Mirrors now t (err e) s k = k
  register_result-Mirrors now t (ok r) s k = register_checked-Mirrors now t r s k

  push_offline-Mirrors :
      (now : ℕ) (e : Envelope) (s : State) → Mirrors c s → Mirrors c (push_offline c now e s).0
  unfolding push_offline
  push_offline-Mirrors now e s k = elim (Option-cases (Maps.get e.to s.recent_participants)) [
    | inl h ↦ rw (h, push_offline) k
    | inr (recent, h) ↦ rw (h, push_offline) (enqueue_mailbox-Mirrors now _ e.to e s k)
  ]

  push_envelope-Mirrors :
      (now : ℕ) (e : Envelope) (s : State) → Mirrors c s → Mirrors c (push_envelope c now e s).0
  unfolding push_envelope enqueue_delivery
  push_envelope-Mirrors now e s k = elim (Option-cases (live_recipient now e.to s)) [
    | inl h ↦ rw (h, push_envelope) (push_offline-Mirrors now e s k)
    | inr (p, h) ↦ rw (h, push_envelope) k
  ]

  pub handle_push-Mirrors :
      (now : ℕ) (req : Value) (s : State) → Mirrors c s → Mirrors c (handle_push c now req s).0
  handle_push-Mirrors now req s k = elim (handle_push-IsStamped c now req s) [
    | inl (e, h) ↦ subst (λ (r : State × Reply). Mirrors c r.0) (sym h) k
    | inr (p, e, _, _, h) ↦
        subst (λ (r : State × Reply). Mirrors c r.0) (sym h) (push_envelope-Mirrors now e s k)
  ]
