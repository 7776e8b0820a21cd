-- ===== src/Codex/Thread/Ends.antt =====
-- The wait for a thread ends, and what it ends with.
use inter_agent_bus.Base.{
  ℕ, zero, suc, ◌+◌, ◌*◌, ◌≤◌, ◌<◌, true, false, Bool-cases, Option, Option-cases, none, some, Text,
  ◌≡◌, ◌⊎◌, inl, inr, refl, subst, ltb→lt, arith,
}
use native.Mathlib.Decide.{dec_lt}
use inter_agent_bus.Codex.Thread.{
  Poll, load_thread_id, deadline, is_before, is_child_gone, wait_from, wait_for_thread_id,
}

-- The rounds come after the start, a second or more apart, as `setTimeout` has it.
abbrev pub IsPaced : ℕ → (ℕ → Poll) → Type 0
IsPaced start polls =
    (start ≤ (polls 0).now) × ((n : ℕ) → (polls n).now + 1000 ≤ (polls (suc n)).now)

-- The rounds that are enough.
abbrev pub rounds : Option ℕ → ℕ
rounds none = 1
rounds (some zero) = 2
rounds (some (suc n)) = suc (suc n)

before_lt : (now t : ℕ) → is_before now (some t) ≡ true → now < t
unfolding is_before
before_lt now t h = ltb→lt now t h

not_before : (now : ℕ) → is_before now none ≡ true → ⊥
unfolding is_before
not_before now h = cc

module _ (child_pid : ℕ) (d : Option ℕ) (polls : ℕ → Poll) where
  -- In this round the wait goes on.
  abbrev pub IsQuiet : ℕ → Type 0
  IsQuiet n =
      (is_before (polls n).now d ≡ true)
      × (load_thread_id (polls n).file ≡ none)
      × (is_child_gone child_pid (polls n) ≡ false)

  -- In this round the wait ends: the time is over, the thread is there, or the child is gone.
  abbrev pub EndsWith : ℕ → Option Text → Type 0
  EndsWith n r =
      ((is_before (polls n).now d ≡ false) × (r ≡ none))
      ⊎ (((is_before (polls n).now d ≡ true)
            × (id : Text) × (load_thread_id (polls n).file ≡ some id)
            × (r ≡ some id))
          ⊎ ((is_before (polls n).now d ≡ true)
              × (load_thread_id (polls n).file ≡ none)
              × (is_child_gone child_pid (polls n) ≡ true)
              × (r ≡ none)))

  -- The wait that began at the `n`th round ends in a later one, with this answer.
  abbrev Ended : ℕ → ℕ → Option Text → Type 0
  Ended n bound r =
      (m : ℕ) × (n ≤ m) × (m < bound) × ((k : ℕ) → n ≤ k → k < m → IsQuiet k) × EndsWith m r

  Ended-here : (n bound : ℕ) (r : Option Text) → n < bound → EndsWith n r → Ended n bound r
  Ended-here n bound r h e = (n, omega arith, h, λ k p q. absurd (omega arith), e)

  Ended-later :
      (n bound : ℕ) (r : Option Text) → IsQuiet n → Ended (suc n) bound r → Ended n bound r
  Ended-later n bound r q (m, lo, hi, quiet, e) = (
    m,
    omega arith,
    hi,
    λ k p l. elim (dec_lt n k) [
      | yes above ↦ quiet k above l
      | no same ↦ let e' : n ≡ k = omega arith in subst IsQuiet e' q
    ],
    e,
  )

  -- A round, whatever comes behind it.
  wait_from-round :
      (fuel n bound : ℕ)
      → n < bound
      → (is_before (polls n).now d ≡ true
          → (r : Option Text) × (wait_from fuel child_pid d polls (suc n) ≡ some r)
            × Ended (suc n) bound r)
      → (r : Option Text) × (wait_from (suc fuel) child_pid d polls n ≡ some r) × Ended n bound r
  unfolding wait_from
  wait_from-round fuel n bound h later = elim (Bool-cases (is_before (polls n).now d)) [
    | inr over ↦ (none, rw over refl, Ended-here n bound none h (inl (over, refl)))
    | inl before ↦ elim (Option-cases (load_thread_id (polls n).file)) [
      | inr (id, e) ↦ (
        some id,
        rw (before, e) refl,
        Ended-here n bound (some id) h (inr (inl (before, id, e, refl))),
      )
      | inl e ↦ elim (Bool-cases (is_child_gone child_pid (polls n))) [
        | inl gone ↦ (
          none,
          rw (before, e, gone) refl,
          Ended-here n bound none h (inr (inr (before, e, gone, refl))),
        )
        | inr there ↦
            let (r, same, ended) = later before in
            (r, rw (before, e, there) same, Ended-later n bound r (before, e, there) ended)
      ]
    ]
  ]

time-le :
    (start : ℕ) (polls : ℕ → Poll)
    → IsPaced start polls
    → (n : ℕ) → start + n * 1000 ≤ (polls n).now
time-le start polls (first, apart) zero = omega arith
time-le start polls (first, apart) (suc n) =
    omega (arith, apart n, time-le start polls (first, apart) n)

module _ (child_pid start t : ℕ) (polls : ℕ → Poll) (paced : IsPaced start polls) where
  wait_from-ends :
      (left fuel n bound : ℕ)
      → left ≤ fuel
      → start + n * 1000 < t + 1000
      → t + 1000 ≤ start + (n + left) * 1000
      → n + left ≤ bound
      → (r : Option Text) × (wait_from fuel child_pid (some t) polls n ≡ some r)
        × Ended child_pid (some t) polls n bound r
  wait_from-ends zero fuel n bound more lo hi fits = absurd (omega arith)
  wait_from-ends (suc left) zero n bound more lo hi fits = absurd (omega arith)
  wait_from-ends (suc left) (suc fuel) n bound more lo hi fits =
      wait_from-round child_pid (some t) polls fuel n bound (omega arith) (λ before.
        wait_from-ends left fuel (suc n) bound (omega arith)
          (omega (arith, time-le start polls paced n, before_lt (polls n).now t before))
          (omega arith) (omega arith))

wait_from-rounds :
    (fuel child_pid start : ℕ) (wait_sec : Option ℕ) (polls : ℕ → Poll)
    → rounds wait_sec ≤ fuel
    → IsPaced start polls
    → (r : Option Text) × (wait_from fuel child_pid (deadline start wait_sec) polls 0 ≡ some r)
      × Ended child_pid (deadline start wait_sec) polls 0 (rounds wait_sec) r
unfolding deadline
wait_from-rounds zero child_pid start none polls h paced = absurd (omega arith)
wait_from-rounds (suc fuel) child_pid start none polls h paced =
    wait_from-round child_pid none polls fuel 0 1 (omega arith)
      (λ before. absurd (not_before (polls 0).now before))
wait_from-rounds fuel child_pid start (some zero) polls h paced =
    wait_from-ends child_pid start (start + 1000) polls paced 2 fuel 0 2 h (omega arith)
      (omega arith) (omega arith)
wait_from-rounds fuel child_pid start (some (suc n)) polls h paced =
    wait_from-ends child_pid start (start + suc n * 1000) polls paced (suc (suc n)) fuel 0
      (suc (suc n)) h (omega arith) (omega arith) (omega arith)

-- With rounds a second apart the wait ends, after at most one round more than the seconds that are
-- set (one at least), whatever the rounds find: with the thread's id, if a round before the
-- deadline finds it and all rounds before find none and a child that is there; and with nothing,
-- if the deadline is over or the child is gone first.
pub wait_for_thread_id-ends :
    (fuel child_pid start : ℕ) (wait_sec : Option ℕ) (polls : ℕ → Poll)
    → rounds wait_sec ≤ fuel
    → IsPaced start polls
    → (r : Option Text) × (n : ℕ) × (wait_for_thread_id fuel wait_sec child_pid start polls
        ≡ some r)
      × (n < rounds wait_sec)
      × ((k : ℕ) → k < n → IsQuiet child_pid (deadline start wait_sec) polls k)
      × EndsWith child_pid (deadline start wait_sec) polls n r
unfolding wait_for_thread_id
wait_for_thread_id-ends fuel child_pid start wait_sec polls h paced =
    let (r, same, (m, _, hi, quiet, e)) =
      wait_from-rounds fuel child_pid start wait_sec polls h paced in
    (r, m, same, hi, λ k l. quiet k (omega arith) l, e)
