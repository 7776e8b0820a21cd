-- ===== src/Broker/Reclaim.antt =====
-- A session whose lease is live cannot be taken over by a second registration.
use inter_agent_bus.Base.{
  ℕ, true, some, ◌≡◌, refl, sym, ◌∙◌, Text, ◌==◌, arith, Option-cases, inl, inr, if◌then◌else◌,
}
use inter_agent_bus.Base.Maps
use inter_agent_bus.Value.{Value, get_prop, or_else, obj, end}
use inter_agent_bus.Broker.Types.{
  State, Config, Participant, error, is_lease_valid, ok, kind_mismatch_for_session_id,
  session_lease_active, reclaim_refused, append_log,
}
use inter_agent_bus.Broker.Register.{
  Registration, check_registration, find_participant_by_session_id, register_again,
  register_checked, handle_register,
}
use inter_agent_bus.Broker.Registry.Frames.{IsConsistent}
use inter_agent_bus.Broker.Registry.Admission.{find_none, find_some}

-- With one participant to a session, the search finds the one that is there.
find-holder :
    (s : State) (t : Text) (p : Participant)
    → IsConsistent s
    → Maps.get t s.participants ≡ some p
    → find_participant_by_session_id p.session_id s.participants ≡ some p
find-holder s t p k here =
    elim (Option-cases (find_participant_by_session_id p.session_id s.participants)) [
      | inl e ↦ absurd (find_none p.session_id s.participants t p e here refl)
      | inr (q, e) ↦
          let (u, there, same) = find_some p.session_id s.participants q k.keys e in
          e ∙ ground (arith, k.session t u p q here there (sym same))
    ]

-- A registration for a session that a participant with a live lease has is refused. Nothing of the
-- state changes but the log, and that only if the kind is the participant's.
pub handle_register-refused :
    (c : Config) (now : ℕ) (token : Text) (req : Value) (s : State) (r : Registration) (t : Text)
    (p : Participant)
    → IsConsistent s
    → Maps.get t s.participants ≡ some p
    → is_lease_valid now p ≡ true
    → check_registration c (or_else (get_prop "participant" req) (obj end)) ≡ ok r
    → r.session_id ≡ p.session_id
    → handle_register c now token req s ≡ (
        if p.kind == r.kind
        then (append_log (reclaim_refused p.participant_id) s, error session_lease_active)
        else (s, error kind_mismatch_for_session_id))
unfolding handle_register register_checked register_again
handle_register-refused c now token req s r t p k here live checked same =
    let found : find_participant_by_session_id r.session_id s.participants ≡ some p =
      rw same (find-holder s t p k here) in
    rw (checked, handle_register, found, register_checked) (ground arith)
