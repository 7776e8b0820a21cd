-- ===== src/Wrapper/Field.antt =====
-- What the broker reads of a field that the wrapper has normalised.
use inter_agent_bus.Strings.Runs.{is_single, cons_end, is_open_start, strip, strip_end, strip_start}
use inter_agent_bus.Base.{
  Bool, Text, [], arith, false, length, length-take-le, le→ltb, ltb, refl, some, suc, take, true,
  zero, ℕ, ◌∷◌, ◌≡◌, ◌≤◌, Option, none,
}
use inter_agent_bus.Value.{Value, str, null, or_else, of_option, truthy}
use inter_agent_bus.Strings.{is_space, collapse, parse_optional_text, ok}
use inter_agent_bus.Strings.Runs.Laws.{squeeze-fixed}
use inter_agent_bus.Strings.Normal.{IsNormal, collapse-IsNormal}
use inter_agent_bus.Wrapper.{normalize_registration_field, cut_field}

module _ (p : ℕ → Bool) where
  cons_end-length : (c : ℕ) (s : Text) → length (cons_end p c s) ≤ suc (length s)
  unfolding cons_end
  cons_end-length c [] = ground arith
  cons_end-length c (d ∷ s) = omega arith

  strip_end-length : (s : Text) → length (strip_end p s) ≤ length s
  unfolding strip_end
  strip_end-length [] = omega arith
  strip_end-length (c ∷ s) = omega (arith, cons_end-length c (strip_end p s), strip_end-length s)

  cons_end-open : (c : ℕ) (s : Text) → p c ≡ false → cons_end p c s ≡ c ∷ s
  unfolding cons_end
  cons_end-open c [] h = rw h refl
  cons_end-open c (d ∷ s) h = refl

  strip-first : (c : ℕ) (s : Text) → p c ≡ false → strip p (c ∷ s) ≡ c ∷ strip_end p s
  unfolding strip strip_start strip_end
  strip-first c s h = rw h (cons_end-open c (strip_end p s) h)

  is_single-take :
      (r n : ℕ) (b : Bool) (s : Text) → is_single p r b s ≡ true → is_single p r b (take n s) ≡ true
  unfolding is_single
  is_single-take r zero b s h = refl
  is_single-take r (suc n) b [] h = refl
  is_single-take r (suc n) b (c ∷ s) h = ground (arith, is_single-take r n (p c) s)

-- The start of a text in normal form passes the broker's check.
parse-prefix :
    (m c : ℕ) (s : Text)
    → IsNormal (c ∷ s)
    → parse_optional_text (str (c ∷ take m s)) (suc m) ≡ ok (some (collapse (c ∷ take m s)))
unfolding parse_optional_text
parse-prefix m c s h =
    let open_first : is_space c ≡ false = unfold is_open_start in ground (arith, h.start) in
    let collapsed : collapse (c ∷ take m s) ≡ c ∷ strip_end is_space (take m s) =
      unfold collapse in
      rw
        (squeeze-fixed is_space 32 (c ∷ take m s)
          (is_single-take is_space 32 (suc m) false (c ∷ s) h.single))
        (strip-first is_space c (take m s) open_first) in
    let short : ltb (suc m) (length (c ∷ strip_end is_space (take m s))) ≡ false =
      le→ltb (suc m) (length (c ∷ strip_end is_space (take m s)))
        (omega (arith, strip_end-length is_space (take m s), length-take-le m s)) in
    rw collapsed (rw short refl)

-- A field as the broker reads it: the cut may leave a blank at the end.
abbrev pub read_field : Option Text → Option Text
read_field none = none
read_field (some t) = some (collapse t)

cut_field-parsed :
    (m : ℕ) (s : Text)
    → IsNormal s
    → parse_optional_text (or_else (of_option (cut_field (suc m) s)) null) (suc m)
      ≡ ok (read_field (cut_field (suc m) s))
unfolding cut_field or_else truthy
cut_field-parsed m [] h = unfold parse_optional_text in refl
cut_field-parsed m (c ∷ s) h = parse-prefix m c s h

-- A field that the wrapper has normalised passes the broker's check of an optional text with the
-- same limit, and is read as a text with no blank at its end.
pub normalize_registration_field-parsed :
    (v : Value) (m : ℕ)
    → let kept = normalize_registration_field v (suc m) in
      parse_optional_text (or_else (of_option kept) null) (suc m) ≡ ok (read_field kept)
unfolding normalize_registration_field
normalize_registration_field-parsed (str s) m =
    cut_field-parsed m (collapse s) (collapse-IsNormal s)
normalize_registration_field-parsed _ m =
    unfold or_else in unfold truthy in unfold parse_optional_text in refl
