-- ===== src/Broker/Registry/Admission.antt =====
-- Registrations keep the indexes of the participants consistent.
use inter_agent_bus.Broker.Registry.{==_iff, IsRegistry-come, IsRegistry-leave}
use inter_agent_bus.Base.{
  Bool, Bool-cases, Option, Option-cases, Text, [], ap, arith, false, inl, inr, none, refl, some,
  sym, ℕ, ◌==◌, ◌∙◌, ◌∷◌, ◌≡◌, ◌≢◌,
}
use inter_agent_bus.Broker.Types.{Config, Participant, State, err, is_lease_valid, ok, Result}
use inter_agent_bus.Broker.Leases.{mark_recent, persist_registry}
use inter_agent_bus.Broker.Registry.Frames.{flush-IsSame, IsConsistent, same-IsConsistent}
use inter_agent_bus.Broker.Register.{
  register_result, Registration, check_registration, find_participant_by_session_id,
  new_participant, admit, admit_if_free, drop_lease, preferred_or, register_again, register_new,
  first_id, register_checked, handle_register,
}
use inter_agent_bus.Base.Maps.{
  get-delete, Map, Distinct, get-has, get-head, get-tail, get-delete_ne, get-delete-some,
  get-delete_self,
}
use inter_agent_bus.Base.Maps
use inter_agent_bus.Value.{Value, get_prop, or_else, obj, end}

pub find_none :
    (sid : Text) (m : Map Participant) (u : Text) (q : Participant)
    → find_participant_by_session_id sid m ≡ none
    → Maps.get u m ≡ some q
    → q.session_id ≢ sid
unfolding find_participant_by_session_id Maps.get
find_none sid [] u q h e = cc
find_none sid ((t, p) ∷ m) u q h e =
    ground (arith, find_none sid m u q, ==_iff t u, ==_iff p.session_id sid)

pub find_some :
    (sid : Text) (m : Map Participant) (p : Participant)
    → Distinct m
    → find_participant_by_session_id sid m ≡ some p
    → (t : Text) × (Maps.get t m ≡ some p) × (p.session_id ≡ sid)
unfolding find_participant_by_session_id
find_some sid [] p d h = absurd (cc)
find_some sid ((t, q) ∷ m) p d h = elim (Bool-cases (q.session_id == sid)) [
  | inl e ↦ (t, ground (arith, get-head t q m), ground (arith, ==_iff q.session_id sid))
  | inr e ↦
      let (u, there, f) = find_some sid m p d.1 (ground arith) in
      (u, get-tail t u q p m d.0 there, f)
]

admit-IsConsistent :
    (c : Config) (now : ℕ) (t : Text) (r : Registration) (id : Text) (b : Bool) (s : State)
    → IsConsistent s
    → Maps.get t s.participants ≡ none
    → Maps.get id s.participants_by_id ≡ none
    → ((u : Text) (q : Participant)
        → Maps.get u s.participants ≡ some q
        → q.session_id ≢ r.session_id)
    → IsConsistent (admit c now t r id b s).0
unfolding admit new_participant
admit-IsConsistent c now t r id b s k fresh free own =
    same-IsConsistent (flush-IsSame c now (new_participant now t id r) _) (
      unfold mark_recent persist_registry in
      IsRegistry-come k t (new_participant now t id r) refl fresh free own)

admit_if_free-IsConsistent :
    (c : Config) (now : ℕ) (t : Text) (r : Registration) (id : Text) (b : Bool) (s : State)
    → IsConsistent s
    → Maps.get t s.participants ≡ none
    → ((u : Text) (q : Participant)
        → Maps.get u s.participants ≡ some q
        → q.session_id ≢ r.session_id)
    → IsConsistent (admit_if_free c now t r id b s).0
admit_if_free-IsConsistent c now t r id b s k fresh own =
    elim (Bool-cases (Maps.has id s.participants_by_id)) [
      | inl e ↦ unfold admit_if_free in rw e k
      | inr e ↦
          unfold admit_if_free in
          rw e (admit-IsConsistent c now t r id b s k fresh (get-has id s.participants_by_id e) own)
    ]

-- The old lease of the session that registers.
module _ (s : State) (k : IsConsistent s) (existing : Participant)
    (here : Maps.get existing.lease_token s.participants ≡ some existing) where
  drop_lease-IsConsistent : IsConsistent (drop_lease existing s)
  unfolding drop_lease
  drop_lease-IsConsistent = IsRegistry-leave k existing.lease_token existing here

  drop_lease-fresh :
      (t : Text)
      → Maps.get t s.participants ≡ none
      → Maps.get t (drop_lease existing s).participants ≡ none
  unfolding drop_lease
  drop_lease-fresh t h = ground (arith, get-delete existing.lease_token t s.participants)

  drop_lease-own :
      (u : Text) (q : Participant)
      → Maps.get u (drop_lease existing s).participants ≡ some q
      → q.session_id ≢ existing.session_id
  unfolding drop_lease
  drop_lease-own u q h e =
      let (differ, there) = get-delete-some existing.lease_token u s.participants q h in
      ground (
        arith,
        ==_iff existing.lease_token u,
        k.session existing.lease_token u existing q here there (sym e),
      )

  register_again-IsConsistent :
      (c : Config) (now : ℕ) (t : Text) (r : Registration)
      → Maps.get t s.participants ≡ none
      → existing.session_id ≡ r.session_id
      → IsConsistent (register_again c now t r existing s).0
  register_again-IsConsistent c now t r fresh sid =
      let id = preferred_or r.preferred existing.participant_id in
      let admitted =
        admit_if_free-IsConsistent c now t r id (id == existing.participant_id)
          (drop_lease existing s) drop_lease-IsConsistent (drop_lease-fresh t fresh)
          (λ u q h. rw (← sid) (drop_lease-own u q h)) in
      elim (Bool-cases (existing.kind == r.kind)) [
        | inr e ↦ unfold register_again in rw e k
        | inl e ↦ elim (Bool-cases (is_lease_valid now existing)) [
          | inl live ↦ unfold register_again in rw (e, live) k
          | inr gone ↦ unfold register_again in rw (e, gone) admitted
        ]
      ]

register_new-IsConsistent :
    (c : Config) (now : ℕ) (t : Text) (r : Registration) (o : Option Text) (s : State)
    → IsConsistent s
    → Maps.get t s.participants ≡ none
    → ((u : Text) (q : Participant)
        → Maps.get u s.participants ≡ some q
        → q.session_id ≢ r.session_id)
    → IsConsistent (register_new c now t r o s).0
unfolding register_new
register_new-IsConsistent c now t r none s k fresh own = k
register_new-IsConsistent c now t r (some id) s k fresh own =
    admit_if_free-IsConsistent c now t r id false s k fresh own

register_checked-IsConsistent :
    (c : Config) (now : ℕ) (t : Text) (r : Registration) (s : State)
    → IsConsistent s
    → Maps.get t s.participants ≡ none
    → IsConsistent (register_checked c now t r s).0
unfolding register_checked
register_checked-IsConsistent c now t r s k fresh =
    elim (Option-cases (find_participant_by_session_id r.session_id s.participants)) [
      | inl e ↦
          rw (e, register_checked)
            (register_new-IsConsistent c now t r (first_id c r s.participants_by_id) s k fresh
              (λ u q h. find_none r.session_id s.participants u q e h))
      | inr (p, e) ↦
          let (u, there, sid) = find_some r.session_id s.participants p k.keys e in
          rw (e, register_checked)
            (register_again-IsConsistent s k p
              (ap (λ (x : Text). Maps.get x s.participants) (k.token u p there) ∙ there) c now t r
              fresh sid)
    ]

register_result-IsConsistent :
    (c : Config) (now : ℕ) (t : Text) (r : Result Registration) (s : State)
    → IsConsistent s
    → Maps.get t s.participants ≡ none
    → IsConsistent (register_result c now t r s).0
unfolding register_result
register_result-IsConsistent c now t (err e) s k fresh = k
register_result-IsConsistent c now t (ok r) s k fresh =
    register_checked-IsConsistent c now t r s k fresh

pub handle_register-IsConsistent :
    (c : Config) (now : ℕ) (t : Text) (req : Value) (s : State)
    → IsConsistent s
    → Maps.get t s.participants ≡ none
    → IsConsistent (handle_register c now t req s).0
unfolding handle_register
handle_register-IsConsistent c now t req s k fresh =
    register_result-IsConsistent c now t
      (check_registration c (or_else (get_prop "participant" req) (obj end))) s k fresh
