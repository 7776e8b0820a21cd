-- ===== src/Strings/Runs/Laws.antt =====
-- Squeezing and stripping reach a normal form, and leave a text in normal form alone.
use inter_agent_bus.Base.{Bool, Text, [], all, arith, false, refl, true, ℕ, ◌∷◌, ◌≡◌}
use inter_agent_bus.Strings.Runs.{
  squeeze_from, squeeze, is_single, strip_start, cons_end, strip_end, strip, is_open_start,
  is_open_end,
}

module _ (p : ℕ → Bool) where
  module _ (r : ℕ) where
    squeeze_from-is_single :
        p r ≡ true → (b : Bool) (s : Text) → is_single p r b (squeeze_from p r b s) ≡ true
    unfolding squeeze_from is_single
    squeeze_from-is_single h b [] = refl
    squeeze_from-is_single h b (c ∷ s) = ground (arith, squeeze_from-is_single h (p c) s)

    pub squeeze-is_single : p r ≡ true → (s : Text) → is_single p r false (squeeze p r s) ≡ true
    unfolding squeeze
    squeeze-is_single h s = squeeze_from-is_single h false s

    squeeze_from-fixed : (b : Bool) (s : Text) → is_single p r b s ≡ true → squeeze_from p r b s ≡ s
    unfolding squeeze_from is_single
    squeeze_from-fixed b [] h = refl
    squeeze_from-fixed b (c ∷ s) h = ground (arith, squeeze_from-fixed (p c) s)

    pub squeeze-fixed : (s : Text) → is_single p r false s ≡ true → squeeze p r s ≡ s
    unfolding squeeze
    squeeze-fixed s h = squeeze_from-fixed false s h

    is_single-strip_start :
        (b d : Bool) (s : Text)
        → is_single p r b s ≡ true
        → is_single p r d (strip_start p s) ≡ true
    unfolding is_single strip_start
    is_single-strip_start b d [] h = refl
    is_single-strip_start b d (c ∷ s) h = ground (arith, is_single-strip_start (p c) d s)

    is_single-cons_end :
        (b : Bool) (c : ℕ) (s : Text)
        → is_single p r b (c ∷ s) ≡ true
        → is_single p r b (cons_end p c s) ≡ true
    unfolding is_single cons_end
    is_single-cons_end b c [] h = ground arith
    is_single-cons_end b c (d ∷ s) h = h

    is_single-strip_end :
        (b : Bool) (s : Text) → is_single p r b s ≡ true → is_single p r b (strip_end p s) ≡ true
    unfolding is_single strip_end
    is_single-strip_end b [] h = refl
    is_single-strip_end b (c ∷ s) h =
        is_single-cons_end b c (strip_end p s) (ground (arith, is_single-strip_end (p c) s))

    pub strip-is_single :
        (s : Text) → is_single p r false s ≡ true → is_single p r false (strip p s) ≡ true
    unfolding strip
    strip-is_single s h = is_single-strip_end false _ (is_single-strip_start false false s h)

  strip_start-is_open_start : (s : Text) → is_open_start p (strip_start p s) ≡ true
  unfolding strip_start is_open_start
  strip_start-is_open_start [] = refl
  strip_start-is_open_start (c ∷ s) = ground (arith, strip_start-is_open_start s)

  cons_end-is_open_start :
      (c : ℕ) (s : Text) → is_open_start p (c ∷ s) ≡ true → is_open_start p (cons_end p c s) ≡ true
  unfolding cons_end is_open_start
  cons_end-is_open_start c [] h = ground arith
  cons_end-is_open_start c (d ∷ s) h = h

  strip_end-is_open_start :
      (s : Text) → is_open_start p s ≡ true → is_open_start p (strip_end p s) ≡ true
  unfolding strip_end
  strip_end-is_open_start [] h = h
  strip_end-is_open_start (c ∷ s) h =
      cons_end-is_open_start c (strip_end p s) (unfold is_open_start in h)

  cons_end-is_open_end :
      (c : ℕ) (s : Text) → is_open_end p s ≡ true → is_open_end p (cons_end p c s) ≡ true
  unfolding cons_end is_open_end
  cons_end-is_open_end c [] h = ground arith
  cons_end-is_open_end c (d ∷ s) h = h

  strip_end-is_open_end : (s : Text) → is_open_end p (strip_end p s) ≡ true
  unfolding strip_end
  strip_end-is_open_end [] = unfold is_open_end in refl
  strip_end-is_open_end (c ∷ s) = cons_end-is_open_end c _ (strip_end-is_open_end s)

  pub strip-is_open :
      (s : Text) → (is_open_start p (strip p s) ≡ true) × (is_open_end p (strip p s) ≡ true)
  unfolding strip
  strip-is_open s = (
    strip_end-is_open_start _ (strip_start-is_open_start s),
    strip_end-is_open_end (strip_start p s),
  )

  strip_start-fixed : (s : Text) → is_open_start p s ≡ true → strip_start p s ≡ s
  unfolding strip_start is_open_start
  strip_start-fixed [] h = refl
  strip_start-fixed (c ∷ s) h = ground arith

  strip_end-fixed : (s : Text) → is_open_end p s ≡ true → strip_end p s ≡ s
  unfolding strip_end is_open_end
  strip_end-fixed [] h = refl
  strip_end-fixed (c ∷ []) h = ground arith
  strip_end-fixed (c ∷ d ∷ s) h = rw (strip_end-fixed (d ∷ s) h)

  pub strip-fixed : (s : Text) → is_open_start p s ≡ true → is_open_end p s ≡ true → strip p s ≡ s
  unfolding strip
  strip-fixed s h k = rw (strip_start-fixed s h, strip_end-fixed s k)

  module _ (q : ℕ → Bool) where
    all-strip_start : (s : Text) → all q s ≡ true → all q (strip_start p s) ≡ true
    unfolding strip_start
    all-strip_start [] h = refl
    all-strip_start (c ∷ s) h = ground (arith, all-strip_start s)

    all-cons_end : (c : ℕ) (s : Text) → all q (c ∷ s) ≡ true → all q (cons_end p c s) ≡ true
    unfolding cons_end
    all-cons_end c [] h = ground arith
    all-cons_end c (d ∷ s) h = h

    all-strip_end : (s : Text) → all q s ≡ true → all q (strip_end p s) ≡ true
    unfolding strip_end
    all-strip_end [] h = refl
    all-strip_end (c ∷ s) h = all-cons_end c (strip_end p s) (ground (arith, all-strip_end s))

    pub all-strip : (s : Text) → all q s ≡ true → all q (strip p s) ≡ true
    unfolding strip
    all-strip s h = all-strip_end _ (all-strip_start s h)
