-- ===== src/Broker/Registry.antt =====
-- The consistency of the broker's two indexes: by lease token and by participant id.
pub mod Frames
pub mod Admission
pub mod Leaving
pub mod Steps
use inter_agent_bus.Base.Maps.{
  Distinct, Distinct-set, Distinct-delete, Map, get-set, get-delete, get-has, get-delete-some,
  get-delete_ne, get-set-some, get-set_ne, get-set_self,
}
use inter_agent_bus.Base.{
  ℕ, Bool, true, false, Option, none, some, List, [], ◌∷◌, ◌≡◌, ◌≢◌, refl, sym, ap, ◌∙◌, Text, ◌==◌,
  ==_iff, ==_refl, ==-sound, arith, Bool-cases, Option-cases, inl, inr, if◌then◌else◌,
}
use inter_agent_bus.Base.Maps
use inter_agent_bus.Broker.Types.{Participant}
use inter_agent_bus.Broker.Leases.{release_id}

-- Every participant is indexed under its own token and holds its own id, every id is held by a
-- participant that has it, and no two participants have the same session.
pub record IsRegistry (m : Map Participant) (ids : Map Text) : Type 0 where
  pub keys : Distinct m
  pub token : (t : Text) (p : Participant) → Maps.get t m ≡ some p → p.lease_token ≡ t
  pub owned :
      (t : Text) (p : Participant) → Maps.get t m ≡ some p → Maps.get p.participant_id ids ≡ some t
  pub held :
      (id t : Text)
      → Maps.get id ids ≡ some t
      → (p : Participant) × (Maps.get t m ≡ some p) × (p.participant_id ≡ id)
  pub session :
      (t u : Text) (p q : Participant)
      → Maps.get t m ≡ some p
      → Maps.get u m ≡ some q
      → p.session_id ≡ q.session_id
      → t ≡ u

pub IsRegistry-empty : IsRegistry [] []
unfolding Maps.get
IsRegistry-empty = record {
  keys = tt;
  token = λ t p h. cc;
  owned = λ t p h. cc;
  held = λ id t h. absurd (cc);
  session = λ t u p q h k e. cc;
}

pub release_id-owner :
    (id t : Text) (ids : Map Text)
    → Maps.get id ids ≡ some t
    → release_id id t ids ≡ Maps.delete id ids
unfolding release_id
release_id-owner id t ids h = ground (arith, ==_refl t)

module _ {m : Map Participant} {ids : Map Text} (r : IsRegistry m ids) where
  -- Only the holder of an id has it.
  apart :
      (t u : Text) (p q : Participant)
      → Maps.get t m ≡ some p
      → Maps.get u m ≡ some q
      → p.participant_id ≡ q.participant_id
      → t ≡ u
  apart t u p q h k e = ground (arith, r.owned t p h, r.owned u q k)

  -- A participant leaves.
  module _ (t : Text) (p : Participant) (here : Maps.get t m ≡ some p) where
    leave-held :
        (id u : Text)
        → Maps.get id (Maps.delete p.participant_id ids) ≡ some u
        → (q : Participant) × (Maps.get u (Maps.delete t m) ≡ some q) × (q.participant_id ≡ id)
    leave-held id u k =
        let (differ, old) = get-delete-some p.participant_id id ids u k in
        let (q, there, e) = r.held id u old in
        (q, get-delete_ne t u m (ground (arith, ==_iff t u, ==_iff p.participant_id id)) ∙ there, e)

    pub IsRegistry-leave : IsRegistry (Maps.delete t m) (Maps.delete p.participant_id ids)
    IsRegistry-leave = record {
      keys = Distinct-delete t m r.keys;
      token = λ u q k. ground (arith, get-delete t u m, r.token u q);
      owned = λ u q k. ground (
        arith,
        get-delete t u m,
        get-delete p.participant_id q.participant_id ids,
        ==_iff t u,
        ==_iff p.participant_id q.participant_id,
        r.owned t p here,
        r.owned u q,
      );
      held = leave-held;
      session =
          λ u v q q' k l e. ground (arith, get-delete t u m, get-delete t v m, r.session u v q q');
    }

    -- A participant's lease is renewed.
    module _ (p' : Participant) (id : p'.participant_id ≡ p.participant_id)
        (sid : p'.session_id ≡ p.session_id) (tok : p'.lease_token ≡ p.lease_token) where
      -- Every participant after the renewal stands for one before.
      before :
          (u : Text) (q : Participant)
          → Maps.get u (Maps.set t p' m) ≡ some q
          → (q' : Participant) × (Maps.get u m ≡ some q')
            × (q.participant_id ≡ q'.participant_id)
            × (q.session_id ≡ q'.session_id)
            × (q.lease_token ≡ q'.lease_token)
      before u q k = elim (get-set-some t u p' q m k) [
        | inl (e, f) ↦ (p, rw (← e) here, ground arith, ground arith, ground arith)
        | inr (e, f) ↦ (q, f, refl, refl, refl)
      ]

      renew-held :
          (i u : Text)
          → Maps.get i ids ≡ some u
          → (q : Participant) × (Maps.get u (Maps.set t p' m) ≡ some q) × (q.participant_id ≡ i)
      renew-held i u k = elim (Bool-cases (t == u)) [
        | inl e ↦
            let same = ==-sound t u e in
            let (q, there, f) = r.held i u k in
            (p', rw (← same) (get-set_self t p' m), ground arith)
        | inr e ↦ let (q, there, f) = r.held i u k in (q, get-set_ne t u p' m e ∙ there, f)
      ]

      pub IsRegistry-renew : IsRegistry (Maps.set t p' m) ids
      IsRegistry-renew = record {
        keys = Distinct-set t p' m r.keys;
        token = λ u q k. let (q', there, _, _, e) = before u q k in e ∙ r.token u q' there;
        owned = λ u q k. let (q', there, e, _, _) = before u q k in rw e (r.owned u q' there);
        held = renew-held;
        session = λ u v q w k l e.
            let (q', there, _, f, _) = before u q k in
            let (w', there', _, g, _) = before v w l in
            r.session u v q' w' there there' (sym f ∙ (e ∙ g));
      }

  -- A participant with a fresh token, a free id and a session of its own comes in.
  module _ (t : Text) (p : Participant) (tok : p.lease_token ≡ t) (fresh : Maps.get t m ≡ none)
      (free : Maps.get p.participant_id ids ≡ none)
      (own : (u : Text) (q : Participant)
        → Maps.get u m ≡ some q
        → q.session_id ≢ p.session_id) where
    come-owned :
        (u : Text) (q : Participant)
        → Maps.get u (Maps.set t p m) ≡ some q
        → Maps.get q.participant_id (Maps.set p.participant_id t ids) ≡ some u
    come-owned u q k = elim (get-set-some t u p q m k) [
      | inl (e, f) ↦ ground (arith, get-set_self p.participant_id t ids)
      | inr (e, f) ↦ ground (
        arith,
        get-set p.participant_id q.participant_id t ids,
        r.owned u q f,
        ==_iff p.participant_id q.participant_id,
      )
    ]

    come-held :
        (i u : Text)
        → Maps.get i (Maps.set p.participant_id t ids) ≡ some u
        → (q : Participant) × (Maps.get u (Maps.set t p m) ≡ some q) × (q.participant_id ≡ i)
    come-held i u k = elim (get-set-some p.participant_id i t u ids k) [
      | inl (e, f) ↦ (p, rw (← f) (get-set_self t p m), e)
      | inr (e, f) ↦
          let (q, there, g) = r.held i u f in
          (q, get-set_ne t u p m (ground (arith, ==_iff t u)) ∙ there, g)
    ]

    come-session :
        (u v : Text) (q w : Participant)
        → Maps.get u (Maps.set t p m) ≡ some q
        → Maps.get v (Maps.set t p m) ≡ some w
        → q.session_id ≡ w.session_id
        → u ≡ v
    come-session u v q w k l e = ground (
      arith,
      get-set t u p m,
      get-set t v p m,
      ==_iff t u,
      ==_iff t v,
      own u q,
      own v w,
      r.session u v q w,
    )

    pub IsRegistry-come : IsRegistry (Maps.set t p m) (Maps.set p.participant_id t ids)
    IsRegistry-come = record {
      keys = Distinct-set t p m r.keys;
      token = λ u q k. ground (arith, get-set t u p m, ==_iff t u, r.token u q);
      owned = come-owned;
      held = come-held;
      session = come-session;
    }
