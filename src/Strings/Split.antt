-- ===== src/Strings/Split.antt =====
-- `s.split(c)` for a single code unit.
use inter_agent_bus.Base.{
  All, List, Text, [], arith, eqb, false, has_code, if◌then◌else◌, refl, ℕ, ◌++◌, ◌∷◌, ◌≡◌,
}

abbrev pub NoCode : ℕ → Text → Type 0
NoCode x p = has_code x p ≡ false

module _ (x : ℕ) where
  -- The first part, and the parts behind the first separator.
  unfoldable pub split_first : Text → Text × List Text
  split_first [] = ([], [])
  split_first (c ∷ s) =
      let (part, rest) = split_first s in if eqb c x then ([], part ∷ rest) else (c ∷ part, rest)

  unfoldable pub split_on : Text → List Text
  unfolding split_first
  split_on s = let (part, rest) = split_first s in part ∷ rest

  split_first-NoCode : (s : Text) → NoCode x (split_first s).0 × All (NoCode x) (split_first s).1
  unfolding split_first has_code
  split_first-NoCode [] = (refl, tt)
  split_first-NoCode (c ∷ s) = ground (arith, split_first-NoCode s)

  pub split_on-NoCode : (s : Text) → All (NoCode x) (split_on s)
  unfolding split_on
  split_on-NoCode s = split_first-NoCode s

  -- A part with no separator in it, up to the end or up to the next separator.
  split_first-last : (p : Text) → NoCode x p → split_first p ≡ (p, [])
  unfolding split_first has_code
  split_first-last [] h = refl
  split_first-last (c ∷ p) h = ground (arith, split_first-last p)

  split_first-next : (p s : Text) → NoCode x p → split_first (p ++ x ∷ s) ≡ (p, split_on s)
  unfolding split_first has_code split_on
  split_first-next [] s h = ground arith
  split_first-next (c ∷ p) s h = ground (arith, split_first-next p s)

  pub split_on-last : (p : Text) → NoCode x p → split_on p ≡ p ∷ []
  unfolding split_on
  split_on-last p h = rw (split_first-last p h)

  pub split_on-next : (p s : Text) → NoCode x p → split_on (p ++ x ∷ s) ≡ p ∷ split_on s
  unfolding split_on
  split_on-next p s h = rw (split_first-next p s h)
