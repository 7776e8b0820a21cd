-- ===== src/Auth/Exact.antt =====
-- Against a token in ASCII the comparison of bytes is equality.
use inter_agent_bus.Base.{
  ==_refl, ==_iff, All, Bool-cases, List, Text, [], ap, arith, false, inl, inr, ltb, ltb→lt, none,
  refl, some, sym, true, ℕ, ◌++◌, ◌<◌, ◌↔◌, ◌∙◌, ◌∷◌, ◌≡◌, ◌≢◌, ◌≤◌,
}
use inter_agent_bus.Auth.{
  is_high, is_low, pair_bytes, same_bytes, timing_safe_equal_str, unit_bytes, utf8, utf8_from,
}
use mathlib.Core.Path.{ap₂}
use inter_agent_bus.Value.{Value, str}

abbrev pub IsAscii : Text → Type 0
IsAscii s = All (λ c. c < 0x80) s

-- The first byte is not ASCII.
abbrev StartsHigh : List ℕ → Type 0
StartsHigh [] = ⊥
StartsHigh (b ∷ r) = 0x80 ≤ b

unit_bytes-StartsHigh : (c : ℕ) (r : List ℕ) → ltb c 0x80 ≡ false → StartsHigh (unit_bytes c ++ r)
unfolding unit_bytes
unit_bytes-StartsHigh c r h = elim (Bool-cases (ltb c 0x800)) [
  | inl e ↦ rw (h, e) (omega arith)
  | inr e ↦ elim (Bool-cases (is_low c)) [
    | inl f ↦ rw (h, e, f) (omega arith)
    | inr f ↦ rw (h, e, f) (omega arith)
  ]
]

pair-StartsHigh : (h : ℕ) (s : Text) → StartsHigh (utf8_from (some h) s)
unfolding utf8_from pair_bytes
pair-StartsHigh h [] = omega arith
pair-StartsHigh h (c ∷ s) = elim (Bool-cases (is_low c)) [
  | inl e ↦ rw e (omega arith)
  | inr e ↦ rw e (omega arith)
]

not_ascii : (l t : List ℕ) → StartsHigh l → IsAscii t → l ≢ t
not_ascii [] t h k f = absurd h
not_ascii (b ∷ l) [] h k f = absurd (cc)
not_ascii (b ∷ l) (c ∷ t) h (k, _) f = absurd (ground arith)

utf8-unit : (c : ℕ) (s : Text) → c < 0x80 → utf8_from none (c ∷ s) ≡ c ∷ utf8_from none s
unfolding utf8_from unit_bytes is_high
utf8-unit c s h = ground arith

utf8-high_or_unit : (c : ℕ) (s : Text) → ltb c 0x80 ≡ false → StartsHigh (utf8_from none (c ∷ s))
unfolding utf8_from
utf8-high_or_unit c s h = elim (Bool-cases (is_high c)) [
  | inl e ↦ rw e (pair-StartsHigh c s)
  | inr e ↦ rw e (unit_bytes-StartsHigh c (utf8_from none s) h)
]

utf8-ascii : (t : Text) → IsAscii t → utf8 t ≡ t
unfolding utf8
utf8-ascii [] h = unfold utf8_from in refl
utf8-ascii (c ∷ t) (h, k) = utf8-unit c t h ∙ ap (λ (l : List ℕ). c ∷ l) (utf8-ascii t k)

same_head :
    (c : ℕ) (s t : Text)
    → ((u : Text) → IsAscii u → utf8_from none s ≡ u → s ≡ u)
    → IsAscii t
    → c ∷ utf8_from none s ≡ t
    → c ∷ s ≡ t
same_head c s [] ih h e = absurd (cc)
same_head c s (d ∷ t) ih (_, h) e =
    let (same, rest) : (c ≡ d) × (utf8_from none s ≡ t) = (cc, cc) in
    ap₂ (λ x (xs : Text). x ∷ xs) same (ih t h rest)

utf8-exact : (s t : Text) → IsAscii t → utf8_from none s ≡ t → s ≡ t
utf8-exact [] t h e = unfold utf8_from in e
utf8-exact (c ∷ s) t h e = elim (Bool-cases (ltb c 0x80)) [
  | inl f ↦ same_head c s t (utf8-exact s) h (sym (utf8-unit c s (ltb→lt c 0x80 f)) ∙ e)
  | inr f ↦ absurd (not_ascii (utf8_from none (c ∷ s)) t (utf8-high_or_unit c s f) h e)
]

same_bytes_iff : (ab bb : List ℕ) → (same_bytes ab bb ≡ true) ↔ (ab ≡ bb)
unfolding same_bytes
same_bytes_iff ab bb = ground (arith, ==_iff ab bb, ==_refl ab)

-- A request's token passes for a participant's token in ASCII exactly when it is that text.
pub timing_safe_equal_str_iff :
    (v : Value) (token : Text)
    → IsAscii token
    → (timing_safe_equal_str v (str token) ≡ true) ↔ (v ≡ str token)
unfolding timing_safe_equal_str utf8
timing_safe_equal_str_iff (str s) token h = (sound, complete)
  where
    sound : same_bytes (utf8 s) (utf8 token) ≡ true → str s ≡ str token
    sound e =
        ap str
          (utf8-exact s token h ((same_bytes_iff (utf8 s) (utf8 token)).0 e ∙ utf8-ascii token h))

    complete : str s ≡ str token → same_bytes (utf8 s) (utf8 token) ≡ true
    complete e =
        let same : s ≡ token = cc in (same_bytes_iff (utf8 s) (utf8 token)).1 (ap utf8 same)
timing_safe_equal_str_iff _ token h = (λ e. absurd (cc), λ e. absurd (cc))
