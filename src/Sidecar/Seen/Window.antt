-- ===== src/Sidecar/Seen/Window.antt =====
-- The bounded memory of ids answers like an unbounded one that looks back far enough.
use inter_agent_bus.Base.{
  ℕ, zero, suc, ◌+◌, ◌-◌, ◌≤◌, Bool, true, false, List, [], ◌∷◌, ◌++◌, ◌≡◌, refl, ap, sym, Text,
  ltb, leb, length, length-append, drop, arith, if◌then◌else◌, Bool-cases, inl, inr, subst,
}
use inter_agent_bus.Paths.{includes}
use inter_agent_bus.Sidecar.Seen.{dedupe_lru_size, evict, seen_before}

drop-append : (k : ℕ) (xs ys : List Text) → k ≤ length xs → drop k (xs ++ ys) ≡ drop k xs ++ ys
drop-append zero xs ys h = refl
drop-append (suc k) [] ys h = absurd (omega arith)
drop-append (suc k) (x ∷ xs) ys h = drop-append k xs ys (omega arith)

drop-drop : (k : ℕ) (xs : List Text) → drop 1 (drop k xs) ≡ drop (suc k) xs
drop-drop zero xs = refl
drop-drop (suc k) [] = refl
drop-drop (suc k) (x ∷ xs) = drop-drop k xs

length-drop : (k : ℕ) (xs : List Text) → length (drop k xs) ≡ length xs - k
length-drop zero xs = omega arith
length-drop (suc k) [] = omega arith
length-drop (suc k) (x ∷ xs) = omega (arith, length-drop k xs)

-- The last ids of a history.
unfoldable pub latest : List Text → List Text
latest ids = drop (length ids - dedupe_lru_size) ids

latest-full :
    (ids : List Text) (id : Text)
    → 256 ≤ length ids
    → drop (length (ids ++ id ∷ []) - 256) (ids ++ id ∷ [])
      ≡ drop 1 (drop (length ids - 256) ids ++ id ∷ [])
latest-full ids id h =
    let k = length ids - 256 in
    let count : length (ids ++ id ∷ []) - 256 ≡ suc k =
      omega (arith, length-append ids (id ∷ [])) in
    rw (count, sym (drop-drop k (ids ++ id ∷ [])))
      (ap (drop 1) (drop-append k ids (id ∷ []) (omega arith)))

length-kept :
    (ids : List Text) (id : Text)
    → length (latest ids ++ id ∷ []) ≡ length ids - (length ids - 256) + 1
unfolding latest
length-kept ids id = omega (
  arith,
  length-append (drop (length ids - 256) ids) (id ∷ []),
  length-drop (length ids - 256) ids,
)

evict-latest :
    (ids : List Text) (id : Text) → evict (latest ids ++ id ∷ []) ≡ latest (ids ++ id ∷ [])
unfolding evict
evict-latest ids id = elim (Bool-cases (leb 256 (length ids))) [
  | inl e ↦
      let full : ltb 256 (length (latest ids ++ id ∷ [])) ≡ true =
        ground (arith, length-kept ids id) in
      rw full (unfold latest in sym (latest-full ids id (ground arith)))
  | inr e ↦
      let room : ltb 256 (length (latest ids ++ id ∷ [])) ≡ false =
        ground (arith, length-kept ids id) in
      let none_yet : length ids - 256 ≡ 0 = ground arith in
      let none_then : length (ids ++ id ∷ []) - 256 ≡ 0 =
        ground (arith, length-append ids (id ∷ [])) in
      rw room (unfold latest in rw (none_yet, none_then) refl)
]

length-latest : (ids : List Text) → length (latest ids) ≤ dedupe_lru_size
unfolding latest
length-latest ids = omega (arith, length-drop (length ids - 256) ids)

-- The ids of the deliveries that come in, one by one: whether each was seen before, and what is
-- remembered at the end.
unfoldable pub answers : List Text → List Text → List Bool × List Text
answers [] ids = ([], ids)
answers (id ∷ rest) ids =
    let (seen, ids') = seen_before id ids in
    let (more, last) = answers rest ids' in (seen ∷ more, last)

-- The same with every accepted id in the history: an id was seen if it is one of the last 256.
unfoldable pub window_answers : List Text → List Text → List Bool × List Text
window_answers [] history = ([], history)
window_answers (id ∷ rest) history =
    let seen = includes id (latest history) in
    let (more, last) = window_answers rest (if seen then history else history ++ id ∷ []) in
    (seen ∷ more, last)

answers_lem :
    (ids history : List Text)
    → (answers ids (latest history)).0 ≡ (window_answers ids history).0
      × ((answers ids (latest history)).1 ≡ latest (window_answers ids history).1)
unfolding answers window_answers seen_before
answers_lem [] history = (refl, refl)
answers_lem (id ∷ rest) history = elim (Bool-cases (includes id (latest history))) [
  | inl e ↦
      let (same, last) = answers_lem rest history in
      rw e (ap (λ (bs : List Bool). true ∷ bs) same, last)
  | inr e ↦
      let (same, last) = answers_lem rest (history ++ id ∷ []) in
      rw (e, evict-latest history id) (ap (λ (bs : List Bool). false ∷ bs) same, last)
]

-- The 256 ids that are remembered answer every sequence of deliveries the way the whole history
-- would: an id counts as seen if it is one of the last 256 that were accepted. What is remembered
-- are these, at most 256.
pub answers-window :
    (ids : List Text)
    → ((answers ids []).0 ≡ (window_answers ids []).0)
      × ((answers ids []).1 ≡ latest (window_answers ids []).1)
      × (length (answers ids []).1 ≤ dedupe_lru_size)
answers-window ids =
    let none_yet : latest [] ≡ [] = unfold latest in refl in
    let (same, last) =
      subst
        (λ (l : List Text).
          ((answers ids l).0 ≡ (window_answers ids []).0)
          × ((answers ids l).1 ≡ latest (window_answers ids []).1))
        none_yet (answers_lem ids []) in
    (same, last, rw last (length-latest (window_answers ids []).1))
