-- ===== src/Ids/Slug.antt =====
-- What `normalizeNamedParticipantId` accepts is an address in its own right.
use inter_agent_bus.Strings.Runs.Laws.{squeeze-is_single, squeeze-fixed, strip-fixed, strip-is_open}
use inter_agent_bus.Strings.Runs.{
  is_single, squeeze, squeeze_from, is_open_end, is_open_start, strip,
}
use inter_agent_bus.Base.{
  Bool, Bool-cases, Text, [], all, arith, false, if◌then◌else◌, inl, inr, refl, some, true, ℕ, ◌∷◌,
  ◌≡◌,
}
use inter_agent_bus.Strings.{is_space}
use inter_agent_bus.Ids.{
  dash, is_lower, is_slug, is_handle, is_participant_id, lower_unit, lower_case, not_slug, is_dash,
  slug, normalize_named_participant_id,
}

slug-not-space : (c : ℕ) → is_slug c ≡ true → is_space c ≡ false
unfolding is_slug is_space
slug-not-space c h = ground arith

lower-is_slug : (c : ℕ) → is_lower c ≡ true → is_slug c ≡ true
unfolding is_slug is_lower
lower-is_slug c h = ground arith

lower_unit-slug : (c : ℕ) → is_slug c ≡ true → lower_unit c ≡ c ∷ []
unfolding is_slug lower_unit
lower_unit-slug c h = ground arith

lower_case-slugs : (s : Text) → all is_slug s ≡ true → lower_case s ≡ s
unfolding lower_case
lower_case-slugs [] h = refl
lower_case-slugs (c ∷ s) h = ground (arith, lower_unit-slug c, lower_case-slugs s)

-- A text of other characters only is squeezed and stripped to itself.
module _ (p : ℕ → Bool) (q : ℕ → Bool) (apart : (c : ℕ) → q c ≡ true → p c ≡ false) where
  is_single-apart : (r : ℕ) (b : Bool) (s : Text) → all q s ≡ true → is_single p r b s ≡ true
  unfolding is_single
  is_single-apart r b [] h = refl
  is_single-apart r b (c ∷ s) h = ground (arith, apart c, is_single-apart r (p c) s)

  is_open_start-apart : (s : Text) → all q s ≡ true → is_open_start p s ≡ true
  unfolding is_open_start
  is_open_start-apart [] h = refl
  is_open_start-apart (c ∷ s) h = ground (arith, apart c)

  is_open_end-apart : (s : Text) → all q s ≡ true → is_open_end p s ≡ true
  unfolding is_open_end
  is_open_end-apart [] h = refl
  is_open_end-apart (c ∷ []) h = ground (arith, apart c)
  is_open_end-apart (c ∷ d ∷ s) h = is_open_end-apart (d ∷ s) (ground arith)

  squeeze-apart : (r : ℕ) (s : Text) → all q s ≡ true → squeeze p r s ≡ s
  squeeze-apart r s h = squeeze-fixed p r s (is_single-apart r false s h)

  strip-apart : (s : Text) → all q s ≡ true → strip p s ≡ s
  strip-apart s h = strip-fixed p s (is_open_start-apart s h) (is_open_end-apart s h)

slug-not-not_slug : (c : ℕ) → is_slug c ≡ true → not_slug c ≡ false
unfolding not_slug
slug-not-not_slug c h = ground arith

-- The outer squeeze keeps the ends free of dashes.
module _ (p : ℕ → Bool) (r : ℕ) where
  squeeze_from-is_open_start :
      (s : Text) → is_open_start p s ≡ true → is_open_start p (squeeze_from p r false s) ≡ true
  unfolding squeeze_from is_open_start
  squeeze_from-is_open_start [] h = refl
  squeeze_from-is_open_start (c ∷ s) h = ground arith

  open_end-cons :
      (c : ℕ) (s : Text) → p c ≡ false → is_open_end p s ≡ true → is_open_end p (c ∷ s) ≡ true
  unfolding is_open_end
  open_end-cons c [] h k = ground arith
  open_end-cons c (d ∷ s) h k = k

  squeeze_from-ne-nil :
      (s : Text) (c : ℕ) → is_open_end p (c ∷ s) ≡ true → squeeze_from p r true (c ∷ s) ≡ [] → ⊥
  unfolding squeeze_from is_open_end
  squeeze_from-ne-nil [] c h e = ground arith
  squeeze_from-ne-nil (d ∷ s) c h e = ground (arith, squeeze_from-ne-nil s d h)

  open_end-run : (s : Text) → (s ≡ [] → ⊥) → is_open_end p s ≡ true → is_open_end p (r ∷ s) ≡ true
  unfolding is_open_end
  open_end-run [] n h = absurd (n refl)
  open_end-run (d ∷ s) n h = h

  squeeze_from-step :
      (b : Bool) (c : ℕ) (s : Text)
      → squeeze_from p r b (c ∷ s) ≡ (
          let rest = squeeze_from p r (p c) s in
          if p c then (if b then rest else r ∷ rest) else c ∷ rest)
  unfolding squeeze_from
  squeeze_from-step b c s = refl

  squeeze_from-is_open_end :
      (b : Bool) (s : Text) → is_open_end p s ≡ true → is_open_end p (squeeze_from p r b s) ≡ true
  squeeze_from-is_open_end b [] h = unfold squeeze_from is_open_end in refl
  squeeze_from-is_open_end b (c ∷ []) h = unfold squeeze_from is_open_end in ground arith
  squeeze_from-is_open_end b (c ∷ d ∷ s) h =
      let rest = squeeze_from p r (p c) (d ∷ s) in
      let later : is_open_end p (d ∷ s) ≡ true = unfold is_open_end in h in
      let ends = squeeze_from-is_open_end (p c) (d ∷ s) later in
      let some_left =
        λ (e : p c ≡ true) (q : rest ≡ []). squeeze_from-ne-nil s d later (rw e at q) in
      rw (squeeze_from-step b c (d ∷ s)) (elim (Bool-cases (p c)) [
        | inl e ↦ ground (arith, ends, open_end-run rest (some_left e) ends)
        | inr e ↦ ground (arith, open_end-cons c rest e ends)
      ])

dash-is_dash : is_dash dash ≡ true
unfolding is_dash
dash-is_dash = refl

-- The form of a slug, from its two last steps.
record IsSlugForm (s : Text) : Type 0 where
  single : is_single is_dash dash false s ≡ true
  start : is_open_start is_dash s ≡ true
  finish : is_open_end is_dash s ≡ true

slug-IsSlugForm : (s : Text) → IsSlugForm (slug s)
unfolding slug squeeze
slug-IsSlugForm s =
    let inner = squeeze_from not_slug dash false (lower_case (strip is_space s)) in
    let ends = strip-is_open is_dash inner in
    record {
      single = unfold squeeze in squeeze-is_single is_dash dash dash-is_dash (strip is_dash inner);
      start = squeeze_from-is_open_start is_dash dash (strip is_dash inner) ends.0;
      finish = squeeze_from-is_open_end is_dash dash false (strip is_dash inner) ends.1;
    }

is_handle-slugs : (m : ℕ) (s : Text) → is_handle m s ≡ true → all is_slug s ≡ true
unfolding is_handle
is_handle-slugs m [] h = refl
is_handle-slugs m (c ∷ s) h = ground (arith, lower-is_slug c)

slug-fixed : (s : Text) → all is_slug s ≡ true → IsSlugForm s → slug s ≡ s
unfolding slug
slug-fixed s h form = rw (
  strip-apart is_space is_slug slug-not-space s h,
  lower_case-slugs s h,
  squeeze-apart not_slug is_slug slug-not-not_slug dash s h,
  strip-fixed is_dash s form.start form.finish,
  squeeze-fixed is_dash dash s form.single,
)

-- An id made from a display name is a valid participant id, and the name that is this id itself
-- asks for the same id.
pub normalize_named_participant_id-canonical :
    (value id : Text)
    → normalize_named_participant_id (some value) ≡ some (some id)
    → (is_participant_id id ≡ true) × (normalize_named_participant_id (some id) ≡ some (some id))
unfolding normalize_named_participant_id is_participant_id
normalize_named_participant_id-canonical value id h =
    elim (Bool-cases (is_handle 63 (slug value))) [
      | inl e ↦
          let same : slug value ≡ id = ground arith in
          let fixed =
            slug-fixed (slug value) (is_handle-slugs 63 (slug value) e) (slug-IsSlugForm value) in
          ground (arith, fixed)
      | inr e ↦ absurd (ground arith)
    ]
