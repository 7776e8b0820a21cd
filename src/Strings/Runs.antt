-- ===== src/Strings/Runs.antt =====
-- Runs of characters of a class: `replace(/[class]+/g, r)` and the removal of a class at both ends.
pub mod Laws
use inter_agent_bus.Base.{
  ℕ, Bool, true, false, not, ◌&&◌, List, [], ◌∷◌, ◌≡◌, refl, Text, eqb, eqb_iff, all, arith,
  if◌then◌else◌,
}

module _ (p : ℕ → Bool) where
  module _ (r : ℕ) where
    -- `in_run` says that the character before was in the class.
    unfoldable pub squeeze_from : Bool → Text → Text
    squeeze_from in_run [] = []
    squeeze_from in_run (c ∷ s) =
        let rest = squeeze_from (p c) s in
        if p c then (if in_run then rest else r ∷ rest) else c ∷ rest

    unfoldable pub squeeze : Text → Text
    unfolding squeeze_from
    squeeze s = squeeze_from false s

    -- Every run is a single `r`.
    unfoldable pub is_single : Bool → Text → Bool
    is_single in_run [] = true
    is_single in_run (c ∷ s) =
        let rest = is_single (p c) s in if p c then not in_run && eqb c r && rest else rest

  unfoldable pub strip_start : Text → Text
  strip_start [] = []
  strip_start (c ∷ s) = let rest = strip_start s in if p c then rest else c ∷ s

  unfoldable pub cons_end : ℕ → Text → Text
  cons_end c [] = if p c then [] else c ∷ []
  cons_end c (d ∷ s) = c ∷ d ∷ s

  unfoldable pub strip_end : Text → Text
  unfolding cons_end
  strip_end [] = []
  strip_end (c ∷ s) = cons_end c (strip_end s)

  unfoldable pub strip : Text → Text
  unfolding strip_start strip_end
  strip s = strip_end (strip_start s)

  -- No character of the class stands at an end.
  unfoldable pub is_open_start : Text → Bool
  is_open_start [] = true
  is_open_start (c ∷ s) = not (p c)

  unfoldable pub is_open_end : Text → Bool
  is_open_end [] = true
  is_open_end (c ∷ []) = not (p c)
  is_open_end (c ∷ d ∷ s) = is_open_end (d ∷ s)
