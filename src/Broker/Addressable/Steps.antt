-- ===== src/Broker/Addressable/Steps.antt =====
-- Every event keeps the participants addressable.
use inter_agent_bus.Base.{
  ℕ, Bool, Bool-cases, Option-cases, true, false, some, List, [], ◌∷◌, ◌≡◌, refl, sym, Text, subst,
  ◌==◌, inl, inr, All, arith,
}
use inter_agent_bus.Base.Maps
use inter_agent_bus.Base.Maps.{Map}
use inter_agent_bus.Value.{Value, get_prop, or_else, obj, end, is_nullish}
use inter_agent_bus.Ids.{is_participant_id}
use inter_agent_bus.Broker.{
  RequestType, register_participant, heartbeat, list_participants, push_message,
  unregister_participant, unknown, request_type, dispatch, Event, request, finished, tick, restart,
  step, run, start, handle_request,
}
use inter_agent_bus.Broker.Types.{Config, State, Participant, Result, ok, err, is_lease_valid}
use inter_agent_bus.Broker.Leases.{
  mark_recent, persist_registry, handle_heartbeat, handle_unregister,
}
use inter_agent_bus.Broker.Gc.{gc_participants, gc_tick, gc_recent}
use inter_agent_bus.Broker.Register.{
  Registration, check_registration, find_participant_by_session_id, new_participant, admit,
  admit_if_free, drop_lease, preferred_or, register_again, register_new, first_id, register_checked,
  register_result, handle_register,
}
use inter_agent_bus.Broker.Registry.Frames.{
  IsSame, flush-IsSame, finish_delivery-IsSame, handle_push-IsSame, gc_mailbox-IsSame,
  load_mailbox_from_disk-IsSame,
}
use inter_agent_bus.Broker.Addressable.{
  IsAddressable, OfEntry, AreAddressable, All-set, All-delete, renew_with-AreAddressable,
  leave_with-AreAddressable, gc_participants-AreAddressable,
}
use inter_agent_bus.Broker.Addressable.Claims.{
  IsHashing, IsClaim, check_registration-IsClaim, first_id-valid,
}

same-AreAddressable : {s u : State} → IsSame s u → AreAddressable s → AreAddressable u
same-AreAddressable h k = subst (λ (m : Map Participant). All OfEntry m) (sym h.participants) k

found-IsAddressable :
    (sid : Text) (m : Map Participant) (p : Participant)
    → All OfEntry m
    → find_participant_by_session_id sid m ≡ some p
    → IsAddressable p
unfolding find_participant_by_session_id
found-IsAddressable sid [] p k h = absurd (cc)
found-IsAddressable sid ((t, q) ∷ m) p (k, ks) h = elim (Bool-cases (q.session_id == sid)) [
  | inl e ↦ let same : q ≡ p = ground arith in rw (← same) k
  | inr e ↦ found-IsAddressable sid m p ks (ground arith)
]

admit_if_free-AreAddressable :
    (c : Config) (now : ℕ) (t : Text) (r : Registration) (id : Text) (b : Bool) (s : State)
    → IsClaim r
    → is_participant_id id ≡ true
    → AreAddressable s
    → AreAddressable (admit_if_free c now t r id b s).0
admit_if_free-AreAddressable c now t r id b s claim valid k =
    let p = new_participant now t id r in
    elim (Bool-cases (Maps.has id s.participants_by_id)) [
      | inl e ↦ unfold admit_if_free in rw e k
      | inr e ↦
          unfold admit_if_free admit in
          rw e (
            same-AreAddressable (flush-IsSame c now p _) (
              unfold mark_recent persist_registry in
              All-set t p s.participants
                (unfold new_participant in record { id = valid; kind = claim.kind }) k))
    ]

preferred_or-valid :
    (r : Registration) (old : Text)
    → IsClaim r
    → is_participant_id old ≡ true
    → is_participant_id (preferred_or r.preferred old) ≡ true
unfolding preferred_or
preferred_or-valid r old claim h = elim (Option-cases r.preferred) [
  | inl e ↦ rw e h
  | inr (id, e) ↦ rw e (claim.preferred id e)
]

register_again-AreAddressable :
    (c : Config) (now : ℕ) (t : Text) (r : Registration) (existing : Participant) (s : State)
    → IsClaim r
    → IsAddressable existing
    → AreAddressable s
    → AreAddressable (register_again c now t r existing s).0
register_again-AreAddressable c now t r existing s claim a k =
    let id = preferred_or r.preferred existing.participant_id in
    let admitted =
      admit_if_free-AreAddressable c now t r id (id == existing.participant_id)
        (drop_lease existing s) claim (preferred_or-valid r existing.participant_id claim a.id)
        (unfold drop_lease in All-delete existing.lease_token s.participants k) in
    elim (Bool-cases (existing.kind == r.kind)) [
      | inr e ↦ unfold register_again in rw e k
      | inl e ↦ elim (Bool-cases (is_lease_valid now existing)) [
        | inl live ↦ unfold register_again in rw (e, live) k
        | inr gone ↦ unfold register_again in rw (e, gone) admitted
      ]
    ]

register_new-AreAddressable :
    (c : Config) (now : ℕ) (t : Text) (r : Registration) (s : State)
    → IsHashing c
    → IsClaim r
    → AreAddressable s
    → AreAddressable (register_new c now t r (first_id c r s.participants_by_id) s).0
unfolding register_new
register_new-AreAddressable c now t r s hash claim k =
    elim (Option-cases (first_id c r s.participants_by_id)) [
      | inl e ↦ rw e k
      | inr (id, e) ↦ rw e (
          admit_if_free-AreAddressable c now t r id false s claim
            (first_id-valid c r s.participants_by_id id hash claim e) k)
    ]

register_checked-AreAddressable :
    (c : Config) (now : ℕ) (t : Text) (r : Registration) (s : State)
    → IsHashing c
    → IsClaim r
    → AreAddressable s
    → AreAddressable (register_checked c now t r s).0
unfolding register_checked
register_checked-AreAddressable c now t r s hash claim k =
    elim (Option-cases (find_participant_by_session_id r.session_id s.participants)) [
      | inl e ↦ rw (e, register_checked) (register_new-AreAddressable c now t r s hash claim k)
      | inr (p, e) ↦
          rw (e, register_checked)
            (register_again-AreAddressable c now t r p s claim
              (found-IsAddressable r.session_id s.participants p k e) k)
    ]

register_result-AreAddressable :
    (c : Config) (now : ℕ) (t : Text) (o : Result Registration) (s : State)
    → IsHashing c
    → ((r : Registration) → o ≡ ok r → IsClaim r)
    → AreAddressable s
    → AreAddressable (register_result c now t o s).0
unfolding register_result
register_result-AreAddressable c now t (err e) s hash claim k = k
register_result-AreAddressable c now t (ok r) s hash claim k =
    register_checked-AreAddressable c now t r s hash (claim r refl) k

dispatch-AreAddressable :
    (c : Config) (now : ℕ) (t : Text) (type : RequestType) (req : Value) (s : State)
    → IsHashing c
    → AreAddressable s
    → AreAddressable (dispatch c now t type req s).0
unfolding dispatch handle_heartbeat handle_unregister handle_register
dispatch-AreAddressable c now t register_participant req s hash k =
    let v = or_else (get_prop "participant" req) (obj end) in
    register_result-AreAddressable c now t (check_registration c v) s hash
      (check_registration-IsClaim c v) k
dispatch-AreAddressable c now t heartbeat req s hash k = renew_with-AreAddressable now _ s k
dispatch-AreAddressable c now t list_participants req s hash k = k
dispatch-AreAddressable c now t push_message req s hash k =
    same-AreAddressable (handle_push-IsSame c now req s) k
dispatch-AreAddressable c now t unregister_participant req s hash k =
    leave_with-AreAddressable now _ s k
dispatch-AreAddressable c now t unknown req s hash k = k

gc_tick-AreAddressable :
    (c : Config) (now : ℕ) (s : State) → AreAddressable s → AreAddressable (gc_tick c now s)
unfolding gc_tick persist_registry
gc_tick-AreAddressable c now s k =
    let kept = gc_participants-AreAddressable now s.participants s k in
    let (s', changed) = gc_participants now s.participants s in
    let s'' = record s' { recent_participants = gc_recent now s'.recent_participants } in
    let swept = same-AreAddressable (gc_mailbox-IsSame c now s''.mailbox s'') kept in
    elim (Bool-cases changed) [ inl e ↦ rw e swept | inr e ↦ rw e swept ]

handle_request-AreAddressable :
    (c : Config) (now : ℕ) (t : Text) (req : Value) (s : State)
    → IsHashing c
    → AreAddressable s
    → AreAddressable (handle_request c now t req s).0
unfolding handle_request
handle_request-AreAddressable c now t req s hash k = elim (Bool-cases (is_nullish req)) [
  | inl e ↦ rw e k
  | inr e ↦ rw e (dispatch-AreAddressable c now t (request_type (get_prop "type" req)) req s hash k)
]

step-AreAddressable :
    (c : Config) (e : Event) (s : State)
    → IsHashing c
    → AreAddressable s
    → AreAddressable (step c e s)
unfolding step start
step-AreAddressable c (request now t req) s hash k =
    handle_request-AreAddressable c now t req s hash k
step-AreAddressable c (finished now o t) s hash k =
    same-AreAddressable (finish_delivery-IsSame c now o t s) k
step-AreAddressable c (tick now) s hash k = gc_tick-AreAddressable c now s k
step-AreAddressable c (restart now) s hash k =
    same-AreAddressable (load_mailbox_from_disk-IsSame c now _) tt

-- If SHA-256 is written in at least twelve hexadecimal digits, then from a broker in which every
-- participant has an id that a push accepts and a valid kind, every history of requests,
-- deliveries, collections and restarts leads to such a broker, whatever display names are asked for
-- and whatever ids are taken.
pub run-AreAddressable :
    (c : Config) (es : List Event) (s : State)
    → IsHashing c
    → AreAddressable s
    → AreAddressable (run c es s)
unfolding run
run-AreAddressable c [] s hash k = k
run-AreAddressable c (e ∷ es) s hash k =
    run-AreAddressable c es (step c e s) hash (step-AreAddressable c e s hash k)
