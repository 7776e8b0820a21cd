-- ===== src/Broker/Fifo/Steps.antt =====
-- Over any history, the jobs of a chain end in the order in which they were put on it.
use inter_agent_bus.Value.{is_nullish, Value, get_prop}
use inter_agent_bus.Broker.Types.{
  append_log, reclaim_refused, is_lease_valid, Result, State, Config, MailEntry, Participant, push,
  Envelope, ok, err,
}
use inter_agent_bus.Broker.{
  RequestType, register_participant, heartbeat, list_participants, push_message,
  unregister_participant, unknown, request_type, dispatch, handle_request,
}
use inter_agent_bus.Broker.Register.{
  register_result, find_participant_by_session_id, first_id, Registration, new_participant, admit,
  admit_if_free, drop_lease, register_again, register_new, register_checked, handle_register,
}
use inter_agent_bus.Broker.Push.{live_recipient, push_offline, push_envelope, handle_push}
use inter_agent_bus.Broker.Stamp.{handle_push-IsStamped}
use inter_agent_bus.Base.{
  ℕ, Bool, false, Option, none, some, List, [], ◌∷◌, ◌≡◌, refl, ◌∙◌, Text, ◌==◌, arith, Bool-cases,
  Option-cases, inl, inr, keep,
}
use inter_agent_bus.Base.Maps
use inter_agent_bus.Base.Maps.{Map}
use inter_agent_bus.Broker.Mail.{enqueue_mailbox, rewrite_mailbox_file, is_fresh}
use inter_agent_bus.Broker.Delivery.{
  enqueue_entries, flush_queue, enqueue_mailbox_flush_on_register,
}
use inter_agent_bus.Broker.Leases.{
  handle_heartbeat, renew, renew_with, handle_unregister, leave, leave_with, mark_recent,
  persist_registry,
}
use inter_agent_bus.Broker.Gc.{
  drop_stale, gc_participants, gc_tick, gc_mailbox, gc_queue, gc_recent,
}
use inter_agent_bus.Broker.Fifo.Chains.{
  Extends, Extends-same, Extends-trans, enqueue-Extends, entries-Extends,
}

flush_queue-Extends :
    (c : Config) (now : ℕ) (p : Participant) (hash : Text) (es : List MailEntry) (s : State)
    (t : Text)
    → Extends t s (flush_queue c now p hash es s)
unfolding flush_queue rewrite_mailbox_file
flush_queue-Extends c now p hash [] s t = Extends-same t s s refl
flush_queue-Extends c now p hash (e ∷ es) s t =
    let s' = rewrite_mailbox_file c hash (record s { mailbox = Maps.delete hash s.mailbox }) in
    Extends-trans t s s' (enqueue_entries p hash (keep (is_fresh now) (e ∷ es)) s')
      (Extends-same t s s' refl) (entries-Extends p hash (keep (is_fresh now) (e ∷ es)) s' t)

flush-Extends :
    (c : Config) (now : ℕ) (p : Participant) (s : State) (t : Text)
    → Extends t s (enqueue_mailbox_flush_on_register c now p s)
unfolding enqueue_mailbox_flush_on_register
flush-Extends c now p s t = flush_queue-Extends c now p _ _ s t

offline-chains :
    (c : Config) (now : ℕ) (e : Envelope) (s : State) → (push_offline c now e s).0.chains ≡ s.chains
unfolding push_offline enqueue_mailbox rewrite_mailbox_file
offline-chains c now e s = ground arith

-- A chain's growth, seen from a state with the same chains.
from_same : (t : Text) (s s' u : State) → s'.chains ≡ s.chains → Extends t s' u → Extends t s u
from_same t s s' u e h = Extends-trans t s s' u (Extends-same t s s' e) h

admit_if_free-Extends :
    (c : Config) (now : ℕ) (k : Text) (r : Registration) (id : Text) (b : Bool) (s : State)
    (t : Text)
    → Extends t s (admit_if_free c now k r id b s).0
unfolding admit_if_free admit mark_recent persist_registry
admit_if_free-Extends c now k r id b s t = elim (Bool-cases (Maps.has id s.participants_by_id)) [
  | inl e ↦ rw e (Extends-same t s s refl)
  | inr e ↦ rw e (from_same t s _ _ refl (flush-Extends c now (new_participant now k id r) _ t))
]

register_again-Extends :
    (c : Config) (now : ℕ) (k : Text) (r : Registration) (p : Participant) (s : State) (t : Text)
    → Extends t s (register_again c now k r p s).0
unfolding register_again
register_again-Extends c now k r p s t = elim (Bool-cases (p.kind == r.kind)) [
  | inr e ↦ rw e (Extends-same t s s refl)
  | inl e ↦ elim (Bool-cases (is_lease_valid now p)) [
    | inl live ↦
        rw (e, live) (Extends-same t s (append_log (reclaim_refused p.participant_id) s) refl)
    | inr gone ↦
        rw (e, gone)
          (from_same t s (drop_lease p s) _ (unfold drop_lease in refl)
            (admit_if_free-Extends c now k r _ _ (drop_lease p s) t))
  ]
]

register_new-Extends :
    (c : Config) (now : ℕ) (k : Text) (r : Registration) (o : Option Text) (s : State) (t : Text)
    → Extends t s (register_new c now k r o s).0
unfolding register_new
register_new-Extends c now k r none s t = Extends-same t s s refl
register_new-Extends c now k r (some id) s t = admit_if_free-Extends c now k r id false s t

register_checked-Extends :
    (c : Config) (now : ℕ) (k : Text) (r : Registration) (s : State) (t : Text)
    → Extends t s (register_checked c now k r s).0
unfolding register_checked
register_checked-Extends c now k r s t =
    elim (Option-cases (find_participant_by_session_id r.session_id s.participants)) [
      | inl e ↦
          rw (e, register_checked)
            (register_new-Extends c now k r (first_id c r s.participants_by_id) s t)
      | inr (p, e) ↦ rw (e, register_checked) (register_again-Extends c now k r p s t)
    ]

register_result-Extends :
    (c : Config) (now : ℕ) (k : Text) (r : Result Registration) (s : State) (t : Text)
    → Extends t s (register_result c now k r s).0
unfolding register_result
register_result-Extends c now k (err e) s t = Extends-same t s s refl
register_result-Extends c now k (ok r) s t = register_checked-Extends c now k r s t

renew_with-chains :
    (now : ℕ) (o : Option Text) (s : State) → (renew_with now o s).0.chains ≡ s.chains
unfolding renew_with renew mark_recent
renew_with-chains now none s = refl
renew_with-chains now (some t) s = ground arith

leave_with-chains :
    (now : ℕ) (o : Option Text) (s : State) → (leave_with now o s).0.chains ≡ s.chains
unfolding leave_with leave mark_recent persist_registry
leave_with-chains now none s = refl
leave_with-chains now (some t) s = ground arith

gc_participants-chains :
    (now : ℕ) (ps : List (Text × Participant)) (s : State)
    → (gc_participants now ps s).0.chains ≡ s.chains
unfolding gc_participants drop_stale
gc_participants-chains now [] s = refl
gc_participants-chains now ((t, p) ∷ ps) s = gc_participants-chains now ps _ ∙ ground arith

gc_queue-chains :
    (c : Config) (now : ℕ) (hash : Text) (q : List MailEntry) (s : State)
    → (gc_queue c now hash q s).chains ≡ s.chains
unfolding gc_queue rewrite_mailbox_file
gc_queue-chains c now hash q s = ground arith

gc_mailbox-chains :
    (c : Config) (now : ℕ) (qs : Map (List MailEntry)) (s : State)
    → (gc_mailbox c now qs s).chains ≡ s.chains
unfolding gc_mailbox
gc_mailbox-chains c now [] s = refl
gc_mailbox-chains c now ((hash, q) ∷ qs) s =
    gc_mailbox-chains c now qs (gc_queue c now hash q s) ∙ gc_queue-chains c now hash q s

pub gc_tick-chains : (c : Config) (now : ℕ) (s : State) → (gc_tick c now s).chains ≡ s.chains
unfolding gc_tick persist_registry
gc_tick-chains c now s =
    let s' = (gc_participants now s.participants s).0 in
    let s'' = record s' { recent_participants = gc_recent now s'.recent_participants } in
    ground
      (arith, gc_mailbox-chains c now s''.mailbox s'', gc_participants-chains now s.participants s)

push_envelope-Extends :
    (c : Config) (now : ℕ) (e : Envelope) (s : State) (t : Text)
    → Extends t s (push_envelope c now e s).0
unfolding push_envelope
push_envelope-Extends c now e s t = elim (Option-cases (live_recipient now e.to s)) [
  | inl h ↦ rw (h, push_envelope) (Extends-same t s _ (offline-chains c now e s))
  | inr (p, h) ↦ rw (h, push_envelope) (enqueue-Extends p (push e) s t)
]

handle_push-Extends :
    (c : Config) (now : ℕ) (req : Value) (s : State) (t : Text)
    → Extends t s (handle_push c now req s).0
handle_push-Extends c now req s t = elim (handle_push-IsStamped c now req s) [
  | inl (e, h) ↦ rw h (Extends-same t s s refl)
  | inr (p, e, _, _, h) ↦ rw h (push_envelope-Extends c now e s t)
]

dispatch-Extends :
    (c : Config) (now : ℕ) (k : Text) (type : RequestType) (req : Value) (s : State) (t : Text)
    → Extends t s (dispatch c now k type req s).0
unfolding dispatch handle_heartbeat handle_unregister handle_register
dispatch-Extends c now k register_participant req s t = register_result-Extends c now k _ s t
dispatch-Extends c now k heartbeat req s t = Extends-same t s _ (renew_with-chains now _ s)
dispatch-Extends c now k list_participants req s t = Extends-same t s s refl
dispatch-Extends c now k push_message req s t = handle_push-Extends c now req s t
dispatch-Extends c now k unregister_participant req s t =
    Extends-same t s _ (leave_with-chains now _ s)
dispatch-Extends c now k unknown req s t = Extends-same t s s refl

pub handle_request-Extends :
    (c : Config) (now : ℕ) (k : Text) (req : Value) (s : State) (t : Text)
    → Extends t s (handle_request c now k req s).0
unfolding handle_request
handle_request-Extends c now k req s t = elim (Bool-cases (is_nullish req)) [
  | inl e ↦ rw e (Extends-same t s s refl)
  | inr e ↦ rw e (dispatch-Extends c now k (request_type (get_prop "type" req)) req s t)
]
