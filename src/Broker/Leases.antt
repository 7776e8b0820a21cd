-- ===== src/Broker/Leases.antt =====
-- Leases in broker/broker.js: renewal, the window of recent participants, the registry file, and
-- the requests that need nothing but a lease.
use inter_agent_bus.Base.{ℕ, ◌+◌, Option, none, some, map, Text, ◌==◌, keep, if◌then◌else◌}
use inter_agent_bus.Base.Maps
use inter_agent_bus.Base.Maps.{Map}
use inter_agent_bus.Value.{Value, null, get_prop, truthy, as_text}
use inter_agent_bus.Broker.Types.{
  Participant, Listed, Snapshot, State, unregister, append_log, lease_ttl_ms, is_lease_valid,
  Response, error, renewed, listed, unregistered, invalid_lease, lease_expired,
}

unfoldable pub mark_recent : ℕ → Participant → State → State
mark_recent now p s = record s {
  recent_participants =
      Maps.set p.participant_id
        (record { session_id = p.session_id; kind = p.kind; last_seen_at = now })
        s.recent_participants;
}

-- `p.delivery ? p.delivery.adapter : null`
unfoldable pub adapter_of : Value → Value
adapter_of delivery = if truthy delivery then get_prop "adapter" delivery else null

unfoldable pub show_participant : Participant → Listed
show_participant p = record {
  participant_id = p.participant_id;
  kind = p.kind;
  display_name = p.display_name;
  description = p.description;
  project = p.project;
  cwd = p.cwd;
  capabilities = p.capabilities;
  last_heartbeat = p.last_heartbeat;
  adapter = adapter_of p.delivery;
}

unfoldable pub snapshot : Participant → Snapshot
snapshot p = record {
  shown = show_participant p;
  registered_at = p.registered_at;
  lease_expires_at = p.lease_expires_at;
}

unfoldable pub persist_registry : State → State
persist_registry s = record s { registry = map snapshot (Maps.values s.participants) }

unfoldable pub renew_lease : ℕ → Participant → Participant
renew_lease now p = record p { lease_expires_at = now + lease_ttl_ms; last_heartbeat = now }

unfoldable pub renew : ℕ → Text → Participant → State → State × Response
renew now token p s =
    if is_lease_valid now p
    then (let p' = renew_lease now p in
        (
          mark_recent now p' (record s { participants = Maps.set token p' s.participants }),
          renewed p'.lease_expires_at,
        ))
    else (s, error lease_expired)

unfoldable pub renew_with : ℕ → Option Text → State → State × Response
renew_with now none s = (s, error invalid_lease)
renew_with now (some token) s = elim (Maps.get token s.participants) [
  | none ↦ (s, error invalid_lease)
  | some p ↦ renew now token p s
]

-- `participants.get(req.leaseToken)`: only a text can be a key.
unfoldable pub handle_heartbeat : ℕ → Value → State → State × Response
unfolding renew renew_with
handle_heartbeat now req s = renew_with now (as_text (get_prop "leaseToken" req)) s

unfoldable pub handle_list : ℕ → State → Response
handle_list now s =
    listed (map show_participant (keep (is_lease_valid now) (Maps.values s.participants)))

-- `if (participantsByID.get(id) === token) participantsByID.delete(id)`
unfoldable pub release_id : Text → Text → Map Text → Map Text
release_id id token by_id = elim (Maps.get id by_id) [
  | none ↦ by_id
  | some owner ↦ if owner == token then Maps.delete id by_id else by_id
]

unfoldable pub leave : ℕ → Text → Participant → State → State × Response
leave now token p s =
    let s' = record s {
      participants = Maps.delete token s.participants;
      participants_by_id = release_id p.participant_id token s.participants_by_id;
    } in
    (
      persist_registry (append_log (unregister p.participant_id) (mark_recent now p s')),
      unregistered,
    )

unfoldable pub leave_with : ℕ → Option Text → State → State × Response
leave_with now none s = (s, error invalid_lease)
leave_with now (some token) s = elim (Maps.get token s.participants) [
  | none ↦ (s, error invalid_lease)
  | some p ↦ leave now token p s
]

unfoldable pub handle_unregister : ℕ → Value → State → State × Response
unfolding leave leave_with
handle_unregister now req s = leave_with now (as_text (get_prop "leaseToken" req)) s
