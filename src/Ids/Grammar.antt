-- ===== src/Ids/Grammar.antt =====
-- The tests on participant ids decide the grammar that the regular expressions write.
use inter_agent_bus.Base.{
  Bool-cases, Option-cases, Text, [], all, ap, arith, eqb, false, inl, inr, length, refl, some, suc,
  true, zero, ℕ, ◌&&◌, ◌++◌, ◌↔◌, ◌∙◌, ◌∷◌, ◌≡◌, ◌≤◌, ◌⊎◌,
}
use inter_agent_bus.Ids.{
  colon, is_lower, is_digit, is_slug, is_hex, is_handle, is_hash_tail, split_colon, is_legacy,
  is_participant_id,
}

-- A lower-case letter, then at most `most` characters of a slug.
abbrev pub IsHandle : ℕ → Text → Type 0
IsHandle most s =
    (c : ℕ) × (r : Text) × (s ≡ c ∷ r)
    × (is_lower c ≡ true)
    × (all is_slug r ≡ true)
    × (length r ≤ most)

-- Nothing, or one digit.
abbrev pub IsSuffix : Text → Type 0
IsSuffix d = (d ≡ []) ⊎ ((c : ℕ) × (d ≡ c ∷ []) × (is_digit c ≡ true))

-- A kind, a colon, twelve hexadecimal digits, and perhaps one more digit.
abbrev pub IsLegacy : Text → Type 0
IsLegacy s =
    (k : Text) × (h : Text) × (d : Text) × (s ≡ k ++ colon ∷ (h ++ d))
    × IsHandle 31 k
    × (all is_hex h ≡ true)
    × (length h ≡ 12)
    × IsSuffix d

pub is_handle_sound : (m : ℕ) (s : Text) → is_handle m s ≡ true → IsHandle m s
unfolding is_handle
is_handle_sound m [] h = cc
is_handle_sound m (c ∷ s) h = (c, s, refl, ground arith, ground arith, ground arith)

pub is_handle_complete : (m : ℕ) (s : Text) → IsHandle m s → is_handle m s ≡ true
unfolding is_handle
is_handle_complete m s (c, r, e, low, slugs, short) = rw e (ground arith)

slug-ne-colon : (c : ℕ) → is_slug c ≡ true → eqb c colon ≡ false
unfolding is_slug
slug-ne-colon c h = ground arith

lower-ne-colon : (c : ℕ) → is_lower c ≡ true → eqb c colon ≡ false
unfolding is_lower
lower-ne-colon c h = ground arith

split_colon-slugs : (k r : Text) → all is_slug k ≡ true → split_colon (k ++ colon ∷ r) ≡ some (k, r)
unfolding split_colon
split_colon-slugs [] r h = refl
split_colon-slugs (c ∷ k) r h = ground (arith, slug-ne-colon c, split_colon-slugs k r)

split_colon-handle :
    (m : ℕ) (k r : Text) → IsHandle m k → split_colon (k ++ colon ∷ r) ≡ some (k, r)
unfolding split_colon
split_colon-handle m k r (c, s, e, low, slugs, short) =
    rw e (ground (arith, lower-ne-colon c low, split_colon-slugs s r slugs))

split_colon_sound : (s k r : Text) → split_colon s ≡ some (k, r) → s ≡ k ++ colon ∷ r
unfolding split_colon
split_colon_sound [] k r h = cc
split_colon_sound (c ∷ s) k r h = elim (Option-cases (split_colon s)) [
  | inl e ↦ ground arith
  | inr ((k', r'), e) ↦ ground (arith, split_colon_sound s k' r' e)
]

is_hash_tail_sound :
    (n : ℕ) (r : Text)
    → is_hash_tail n r ≡ true
    → (h : Text) × (d : Text) × (r ≡ h ++ d) × (all is_hex h ≡ true) × (length h ≡ n) × IsSuffix d
unfolding is_hash_tail
is_hash_tail_sound zero [] e = ([], [], refl, refl, refl, inl refl)
is_hash_tail_sound zero (c ∷ []) e = ([], c ∷ [], refl, refl, refl, inr (c, refl, e))
is_hash_tail_sound zero (c ∷ d ∷ s) e = cc
is_hash_tail_sound (suc n) [] e = cc
is_hash_tail_sound (suc n) (c ∷ s) e =
    let (h, d, split, hexes, len, last) = is_hash_tail_sound n s (ground arith) in
    (c ∷ h, d, ap (◌∷◌ c) split, ground arith, ap suc len, last)

is_hash_tail_complete :
    (n : ℕ) (h d : Text)
    → all is_hex h ≡ true
    → length h ≡ n
    → IsSuffix d
    → is_hash_tail n (h ++ d) ≡ true
unfolding is_hash_tail
is_hash_tail_complete zero [] d a l (inl e) = rw e
is_hash_tail_complete zero [] d a l (inr (c, e, t)) = rw e t
is_hash_tail_complete zero (c ∷ h) d a l s = absurd (omega arith)
is_hash_tail_complete (suc n) [] d a l s = absurd (omega arith)
is_hash_tail_complete (suc n) (c ∷ h) d a l s =
    ground (arith, is_hash_tail_complete n h d (ground arith) (omega arith) s)

is_legacy_sound : (s : Text) → is_legacy s ≡ true → IsLegacy s
unfolding is_legacy
is_legacy_sound s e = elim (Option-cases (split_colon s)) [
  | inl p ↦ absurd (ground arith)
  | inr ((k, r), p) ↦
      let (h, d, split, hexes, len, last) = is_hash_tail_sound 12 r (ground arith) in
      (
        k,
        h,
        d,
        split_colon_sound s k r p ∙ ap (λ t. k ++ colon ∷ t) split,
        is_handle_sound 31 k (ground arith),
        hexes,
        len,
        last,
      )
]

is_legacy-split :
    (s k r : Text)
    → split_colon s ≡ some (k, r)
    → is_legacy s ≡ (is_handle 31 k && is_hash_tail 12 r)
unfolding is_legacy
is_legacy-split s k r e = rw (e, is_legacy)

pub is_legacy_complete : (s : Text) → IsLegacy s → is_legacy s ≡ true
is_legacy_complete s (k, h, d, split, kind, hexes, len, last) =
    rw (split, is_legacy-split _ k (h ++ d) (split_colon-handle 31 k (h ++ d) kind))
      (ground (arith, is_handle_complete 31 k kind, is_hash_tail_complete 12 h d hexes len last))

-- A text passes as a participant id exactly when it is a handle of at most 64 characters or a kind,
-- a colon, twelve hexadecimal digits and at most one digit more.
pub is_participant_id_iff : (s : Text) → (is_participant_id s ≡ true) ↔ (IsHandle 63 s ⊎ IsLegacy s)
unfolding is_participant_id
is_participant_id_iff s = (sound, complete)
  where
    sound : (is_participant_id s ≡ true) → IsHandle 63 s ⊎ IsLegacy s
    sound e = elim (Bool-cases (is_handle 63 s)) [
      | inl p ↦ inl (is_handle_sound 63 s p)
      | inr p ↦ inr (is_legacy_sound s (ground arith))
    ]

    complete : IsHandle 63 s ⊎ IsLegacy s → is_participant_id s ≡ true
    complete (inl h) = rw (is_handle_complete 63 s h)
    complete (inr l) = ground (arith, is_legacy_complete s l)
