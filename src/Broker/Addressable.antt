-- ===== src/Broker/Addressable.antt =====
-- Every participant that the broker has can be addressed: its id is one that a push accepts.
pub mod Claims
pub mod Steps
use inter_agent_bus.Base.{
  ℕ, Bool, Bool-cases, Option, Option-cases, true, false, none, some, List, [], ◌∷◌, ◌≡◌, refl, ◌∙◌,
  Text, ◌==◌, ==-sound, inl, inr, All, arith, if◌then◌else◌,
}
use inter_agent_bus.Base.Maps
use inter_agent_bus.Base.Maps.{Map}
use inter_agent_bus.Ids.{is_participant_id, is_handle}
use inter_agent_bus.Broker.Types.{State, Participant, is_lease_valid}
use inter_agent_bus.Broker.Leases.{
  renew, renew_lease, renew_with, leave, leave_with, mark_recent, persist_registry,
}
use inter_agent_bus.Broker.Gc.{is_stale, drop_stale, gc_participants}

-- The id and the kind have the form of the broker's checks.
pub record IsAddressable (p : Participant) : Type 0 where
  pub id : is_participant_id p.participant_id ≡ true
  pub kind : is_handle 31 p.kind ≡ true

abbrev pub OfEntry : Text × Participant → Type 0
OfEntry e = IsAddressable e.1

-- So are all participants.
abbrev pub AreAddressable : State → Type 0
AreAddressable s = All OfEntry s.participants

pub All-set :
    (t : Text) (p : Participant) (m : Map Participant)
    → IsAddressable p
    → All OfEntry m
    → All OfEntry (Maps.set t p m)
unfolding Maps.set
All-set t p [] h k = (h, tt)
All-set t p ((u, q) ∷ m) h (k, ks) = elim (Bool-cases (u == t)) [
  | inl e ↦ rw e (h, ks)
  | inr e ↦ rw e (k, All-set t p m h ks)
]

pub All-delete : (t : Text) (m : Map Participant) → All OfEntry m → All OfEntry (Maps.delete t m)
unfolding Maps.delete
All-delete t [] k = tt
All-delete t ((u, q) ∷ m) (k, ks) = elim (Bool-cases (u == t)) [
  | inl e ↦ rw e (All-delete t m ks)
  | inr e ↦ rw e (k, All-delete t m ks)
]

pub All-get :
    (t : Text) (p : Participant) (m : Map Participant)
    → All OfEntry m
    → Maps.get t m ≡ some p
    → IsAddressable p
unfolding Maps.get
All-get t p [] k h = absurd (cc)
All-get t p ((u, q) ∷ m) (k, ks) h = elim (Bool-cases (u == t)) [
  | inl e ↦ let same : q ≡ p = ground arith in rw (← same) k
  | inr e ↦ All-get t p m ks (ground arith)
]

renew-AreAddressable :
    (now : ℕ) (t : Text) (p : Participant) (s : State)
    → AreAddressable s
    → Maps.get t s.participants ≡ some p
    → AreAddressable (renew now t p s).0
renew-AreAddressable now t p s k here =
    let a = All-get t p s.participants k here in
    elim (Bool-cases (is_lease_valid now p)) [
      | inl e ↦
          unfold renew renew_lease mark_recent in
          rw e
            (All-set t (renew_lease now p) s.participants (record { id = a.id; kind = a.kind }) k)
      | inr e ↦ unfold renew in rw e k
    ]

pub renew_with-AreAddressable :
    (now : ℕ) (o : Option Text) (s : State)
    → AreAddressable s
    → AreAddressable (renew_with now o s).0
unfolding renew_with
renew_with-AreAddressable now none s k = k
renew_with-AreAddressable now (some t) s k = elim (Option-cases (Maps.get t s.participants)) [
  | inl e ↦ rw (e, renew_with) k
  | inr (p, e) ↦ rw (e, renew_with) (renew-AreAddressable now t p s k e)
]

pub leave_with-AreAddressable :
    (now : ℕ) (o : Option Text) (s : State)
    → AreAddressable s
    → AreAddressable (leave_with now o s).0
unfolding leave_with leave mark_recent persist_registry
leave_with-AreAddressable now none s k = k
leave_with-AreAddressable now (some t) s k = elim (Option-cases (Maps.get t s.participants)) [
  | inl e ↦ rw (e, leave_with) k
  | inr (p, e) ↦ rw (e, leave_with) (All-delete t s.participants k)
]

pub gc_participants-AreAddressable :
    (now : ℕ) (ps : Map Participant) (s : State)
    → AreAddressable s
    → AreAddressable (gc_participants now ps s).0
unfolding gc_participants drop_stale
gc_participants-AreAddressable now [] s k = k
gc_participants-AreAddressable now ((t, p) ∷ ps) s k = elim (Bool-cases (is_stale now p)) [
  | inl e ↦
      rw e
        (gc_participants-AreAddressable now ps (drop_stale t p s) (All-delete t s.participants k))
  | inr e ↦ rw e (gc_participants-AreAddressable now ps s k)
]
