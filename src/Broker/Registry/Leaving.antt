-- ===== src/Broker/Registry/Leaving.antt =====
-- Renewals, departures and the collector keep the indexes of the participants consistent.
use inter_agent_bus.Broker.Registry.Frames.{IsConsistent}
use inter_agent_bus.Base.Maps.{
  get-delete, Map, Distinct, get-has, get-head, get-tail, get-delete_ne, get-delete-some,
  get-delete_self,
}
use inter_agent_bus.Base.{
  ℕ, false, Option, none, some, [], ◌∷◌, ◌≡◌, refl, ◌∙◌, Text, ==_iff, arith, Bool-cases,
  Option-cases, inl, inr,
}
use inter_agent_bus.Base.Maps
use inter_agent_bus.Broker.Types.{State, Participant, is_lease_valid}
use inter_agent_bus.Broker.Leases.{
  renew, renew_lease, renew_with, leave, leave_with, mark_recent, persist_registry,
}
use inter_agent_bus.Broker.Gc.{is_stale, drop_stale, gc_participants}
use inter_agent_bus.Broker.Registry.{IsRegistry-leave, IsRegistry-renew, release_id-owner}

renew-IsConsistent :
    (now : ℕ) (t : Text) (p : Participant) (s : State)
    → IsConsistent s
    → Maps.get t s.participants ≡ some p
    → IsConsistent (renew now t p s).0
renew-IsConsistent now t p s k here = elim (Bool-cases (is_lease_valid now p)) [
  | inl e ↦
      unfold renew renew_lease mark_recent in
      rw e (IsRegistry-renew k t p here (renew_lease now p) refl refl refl)
  | inr e ↦ unfold renew in rw e k
]

pub renew_with-IsConsistent :
    (now : ℕ) (o : Option Text) (s : State) → IsConsistent s → IsConsistent (renew_with now o s).0
unfolding renew_with
renew_with-IsConsistent now none s k = k
renew_with-IsConsistent now (some t) s k = elim (Option-cases (Maps.get t s.participants)) [
  | inl e ↦ rw (e, renew_with) k
  | inr (p, e) ↦ rw (e, renew_with) (renew-IsConsistent now t p s k e)
]

leave-IsConsistent :
    (now : ℕ) (t : Text) (p : Participant) (s : State)
    → IsConsistent s
    → Maps.get t s.participants ≡ some p
    → IsConsistent (leave now t p s).0
unfolding leave mark_recent persist_registry
leave-IsConsistent now t p s k here =
    rw (release_id-owner p.participant_id t s.participants_by_id (k.owned t p here))
      (IsRegistry-leave k t p here)

pub leave_with-IsConsistent :
    (now : ℕ) (o : Option Text) (s : State) → IsConsistent s → IsConsistent (leave_with now o s).0
unfolding leave_with
leave_with-IsConsistent now none s k = k
leave_with-IsConsistent now (some t) s k = elim (Option-cases (Maps.get t s.participants)) [
  | inl e ↦ rw (e, leave_with) k
  | inr (p, e) ↦ rw (e, leave_with) (leave-IsConsistent now t p s k e)
]

-- The participants that the collector has yet to look at are still there.
abbrev pub Remain : Map Participant → State → Type 0
Remain ps s =
    (t : Text) (p : Participant) → Maps.get t ps ≡ some p → Maps.get t s.participants ≡ some p

drop_stale-IsConsistent :
    (t : Text) (p : Participant) (s : State)
    → IsConsistent s
    → Maps.get t s.participants ≡ some p
    → IsConsistent (drop_stale t p s)
unfolding drop_stale
drop_stale-IsConsistent t p s k here =
    rw (release_id-owner p.participant_id t s.participants_by_id (k.owned t p here))
      (IsRegistry-leave k t p here)

pub drop_stale-Remain :
    (t : Text) (p : Participant) (ps : Map Participant) (s : State)
    → Maps.has t ps ≡ false
    → Remain ((t, p) ∷ ps) s
    → Remain ps (drop_stale t p s)
unfolding drop_stale
drop_stale-Remain t p ps s h rest u q e =
    get-delete_ne t u s.participants (ground (arith, ==_iff t u, get-has t ps h))
    ∙ rest u q (get-tail t u p q ps h e)

pub gc_participants-IsConsistent :
    (now : ℕ) (ps : Map Participant) (s : State)
    → Distinct ps
    → Remain ps s
    → IsConsistent s
    → IsConsistent (gc_participants now ps s).0
unfolding gc_participants
gc_participants-IsConsistent now [] s d rest k = k
gc_participants-IsConsistent now ((t, p) ∷ ps) s d rest k = elim (Bool-cases (is_stale now p)) [
  | inl e ↦ rw e (
      gc_participants-IsConsistent now ps (drop_stale t p s) d.1
        (drop_stale-Remain t p ps s d.0 rest)
        (drop_stale-IsConsistent t p s k (rest t p (get-head t p ps))))
  | inr e ↦
      rw e (
        gc_participants-IsConsistent now ps s d.1 (λ u q h. rest u q (get-tail t u p q ps d.0 h)) k)
]
