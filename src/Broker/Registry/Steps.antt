-- ===== src/Broker/Registry/Steps.antt =====
-- Every event keeps the indexes of the participants consistent.
use inter_agent_bus.Value.{is_nullish, Value, get_prop}
use inter_agent_bus.Broker.{
  RequestType, register_participant, heartbeat, list_participants, push_message,
  unregister_participant, unknown, request_type, dispatch, Event, request, finished, tick, restart,
  step, run, start, handle_request,
}
use inter_agent_bus.Broker.Registry.Frames.{
  IsConsistent, same-IsConsistent, finish_delivery-IsSame, handle_push-IsSame, gc_mailbox-IsSame,
  load_mailbox_from_disk-IsSame,
}
use inter_agent_bus.Base.Maps.{
  get-delete, Map, Distinct, get-has, get-head, get-tail, get-delete_ne, get-delete-some,
  get-delete_self,
}
use inter_agent_bus.Base.{ℕ, none, List, [], ◌∷◌, ◌≡◌, Text, Bool-cases, inl, inr}
use inter_agent_bus.Base.Maps
use inter_agent_bus.Broker.Types.{State, Config}
use inter_agent_bus.Broker.Leases.{handle_heartbeat, handle_unregister, persist_registry}
use inter_agent_bus.Broker.Gc.{gc_participants, gc_tick, gc_recent}
use inter_agent_bus.Broker.Registry.{IsRegistry-empty}
use inter_agent_bus.Broker.Registry.Admission.{handle_register-IsConsistent}
use inter_agent_bus.Broker.Registry.Leaving.{
  renew_with-IsConsistent, leave_with-IsConsistent, gc_participants-IsConsistent,
}

gc_tick-IsConsistent :
    (c : Config) (now : ℕ) (s : State) → IsConsistent s → IsConsistent (gc_tick c now s)
unfolding gc_tick persist_registry
gc_tick-IsConsistent c now s k =
    let kept = gc_participants-IsConsistent now s.participants s k.keys (λ t p h. h) k in
    let (s', changed) = gc_participants now s.participants s in
    let s'' = record s' { recent_participants = gc_recent now s'.recent_participants } in
    let swept = same-IsConsistent (gc_mailbox-IsSame c now s''.mailbox s'') kept in
    elim (Bool-cases changed) [ inl e ↦ rw e swept | inr e ↦ rw e swept ]

start-IsConsistent : (c : Config) (now : ℕ) (s : State) → IsConsistent (start c now s)
unfolding start
start-IsConsistent c now s =
    same-IsConsistent (load_mailbox_from_disk-IsSame c now _) IsRegistry-empty

-- The token that a registration would be given is in no lease.
abbrev pub IsFresh : Event → State → Type 0
IsFresh (request now token req) s = Maps.get token s.participants ≡ none
IsFresh _ s = Unit {0}

dispatch-IsConsistent :
    (c : Config) (now : ℕ) (t : Text) (type : RequestType) (req : Value) (s : State)
    → IsConsistent s
    → Maps.get t s.participants ≡ none
    → IsConsistent (dispatch c now t type req s).0
unfolding dispatch handle_heartbeat handle_unregister
dispatch-IsConsistent c now t register_participant req s k fresh =
    handle_register-IsConsistent c now t req s k fresh
dispatch-IsConsistent c now t heartbeat req s k fresh = renew_with-IsConsistent now _ s k
dispatch-IsConsistent c now t list_participants req s k fresh = k
dispatch-IsConsistent c now t push_message req s k fresh =
    same-IsConsistent (handle_push-IsSame c now req s) k
dispatch-IsConsistent c now t unregister_participant req s k fresh =
    leave_with-IsConsistent now _ s k
dispatch-IsConsistent c now t unknown req s k fresh = k

handle_request-IsConsistent :
    (c : Config) (now : ℕ) (t : Text) (req : Value) (s : State)
    → IsConsistent s
    → Maps.get t s.participants ≡ none
    → IsConsistent (handle_request c now t req s).0
unfolding handle_request
handle_request-IsConsistent c now t req s k fresh = elim (Bool-cases (is_nullish req)) [
  | inl e ↦ rw e k
  | inr e ↦ rw e (dispatch-IsConsistent c now t (request_type (get_prop "type" req)) req s k fresh)
]

-- Every event keeps the two indexes consistent, if the token that it would give out is fresh.
pub step-IsConsistent :
    (c : Config) (e : Event) (s : State) → IsFresh e s → IsConsistent s → IsConsistent (step c e s)
unfolding step
step-IsConsistent c (request now t req) s fresh k =
    handle_request-IsConsistent c now t req s k fresh
step-IsConsistent c (finished now o t) s fresh k =
    same-IsConsistent (finish_delivery-IsSame c now o t s) k
step-IsConsistent c (tick now) s fresh k = gc_tick-IsConsistent c now s k
step-IsConsistent c (restart now) s fresh k = start-IsConsistent c now s

-- Every registration on the way would be given a fresh token.
abbrev pub AreFresh : Config → List Event → State → Type 0
AreFresh c [] s = Unit {0}
AreFresh c (e ∷ es) s = IsFresh e s × AreFresh c es (step c e s)

-- From a consistent broker every history of requests, deliveries, collections and restarts leads to
-- a consistent one, if each lease token that a request would be given is in no lease by then.
pub run-IsConsistent :
    (c : Config) (es : List Event) (s : State)
    → AreFresh c es s
    → IsConsistent s
    → IsConsistent (run c es s)
unfolding run
run-IsConsistent c [] s fresh k = k
run-IsConsistent c (e ∷ es) s fresh k =
    run-IsConsistent c es (step c e s) fresh.1 (step-IsConsistent c e s fresh.0 k)
