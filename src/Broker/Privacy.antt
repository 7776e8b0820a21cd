-- ===== src/Broker/Privacy.antt =====
-- What discovery and the registry file say of a participant does not depend on its secrets.
use inter_agent_bus.Base.{Bool-cases, [], ap, codes, inl, inr, keep, map, refl, ℕ, ◌==◌, ◌∷◌, ◌≡◌}
use mathlib.Core.Path.{ap₂}
use inter_agent_bus.Base.Maps
use inter_agent_bus.Base.Maps.{Map}
use inter_agent_bus.Value.{obj, field, end, get_prop, lookup, truthy}
use inter_agent_bus.Broker.Types.{State, Participant, is_lease_valid, listed}
use inter_agent_bus.Broker.Leases.{
  adapter_of, show_participant, snapshot, persist_registry, handle_list,
}

-- The participant without its session id and lease token, and with nothing of its delivery but the
-- adapter's name: no socket path, no thread id, no adapter token.
pub redact : Participant → Participant
redact p = record p {
  session_id = [];
  lease_token = [];
  delivery = obj (field (codes "adapter") (adapter_of p.delivery) end);
}

pub redact_all : Map Participant → Map Participant
redact_all [] = []
redact_all ((t, p) ∷ m) = ([], redact p) ∷ redact_all m

show-redact : (p : Participant) → show_participant (redact p) ≡ show_participant p
unfolding show_participant redact adapter_of truthy get_prop lookup ◌==◌
show-redact p = refl

snapshot-redact : (p : Participant) → snapshot (redact p) ≡ snapshot p
unfolding snapshot redact show_participant adapter_of truthy get_prop lookup ◌==◌
snapshot-redact p = refl

is_lease_valid-redact :
    (now : ℕ) (p : Participant) → is_lease_valid now (redact p) ≡ is_lease_valid now p
unfolding is_lease_valid redact
is_lease_valid-redact now p = refl

listed-redact :
    (now : ℕ) (m : Map Participant)
    → map show_participant (keep (is_lease_valid now) (Maps.values (redact_all m)))
      ≡ map show_participant (keep (is_lease_valid now) (Maps.values m))
unfolding redact_all Maps.values keep
listed-redact now [] = refl
listed-redact now ((t, p) ∷ m) =
    rw (is_lease_valid-redact now p) (elim (Bool-cases (is_lease_valid now p)) [
      | inl e ↦ rw e (ap₂ (λ x xs. x ∷ xs) (show-redact p) (listed-redact now m))
      | inr e ↦ rw e (listed-redact now m)
    ])

snapshots-redact :
    (m : Map Participant) → map snapshot (Maps.values (redact_all m)) ≡ map snapshot (Maps.values m)
unfolding redact_all Maps.values
snapshots-redact [] = refl
snapshots-redact ((t, p) ∷ m) = ap₂ (λ x xs. x ∷ xs) (snapshot-redact p) (snapshots-redact m)

-- The list of participants and the registry file are the same for participants whose session ids,
-- lease tokens, socket paths, thread ids and adapter tokens are blanked out.
pub handle_list-redact :
    (now : ℕ) (s : State)
    → let blank = record s { participants = redact_all s.participants } in
      (handle_list now blank ≡ handle_list now s)
      × ((persist_registry blank).registry ≡ (persist_registry s).registry)
unfolding handle_list persist_registry
handle_list-redact now s =
    (ap listed (listed-redact now s.participants), snapshots-redact s.participants)
