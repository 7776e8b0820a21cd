-- ===== src/Strings/Normal.antt =====
-- The normal form of an optional text: no white space but single inner blanks.
use inter_agent_bus.Base.{
  Text, [], arith, false, length, le→ltb, refl, some, true, ℕ, ◌<◌, ◌∷◌, ◌≡◌, ◌≤◌,
}
use inter_agent_bus.Strings.{check_length, collapse, is_space, ok, parse_optional_text}
use inter_agent_bus.Value.{Value, str}
use inter_agent_bus.Strings.Runs.{squeeze, is_single, is_open_start, is_open_end}
use inter_agent_bus.Strings.Runs.Laws.{
  squeeze-is_single, squeeze-fixed, strip-is_single, strip-is_open, strip-fixed,
}

pub record IsNormal (s : Text) : Type 0 where
  pub single : is_single is_space 32 false s ≡ true
  pub start : is_open_start is_space s ≡ true
  pub finish : is_open_end is_space s ≡ true

blank : is_space 32 ≡ true
unfolding is_space
blank = refl

pub collapse-IsNormal : (s : Text) → IsNormal (collapse s)
unfolding collapse
collapse-IsNormal s = record {
  single = strip-is_single is_space 32 _ (squeeze-is_single is_space 32 blank s);
  start = (strip-is_open is_space (squeeze is_space 32 s)).0;
  finish = (strip-is_open is_space (squeeze is_space 32 s)).1;
}

collapse-fixed : (s : Text) → IsNormal s → collapse s ≡ s
unfolding collapse
collapse-fixed s h =
    rw (squeeze-fixed is_space 32 s h.single, strip-fixed is_space s h.start h.finish)

check_length-some :
    (m : ℕ) (s t : Text)
    → check_length m s ≡ ok (some t)
    → (s ≡ t) × (0 < length t) × (length t ≤ m)
unfolding check_length
check_length-some m [] t h = cc
check_length-some m (c ∷ s) t h = ground arith

check_length-fits :
    (m : ℕ) (t : Text) → 0 < length t → length t ≤ m → check_length m t ≡ ok (some t)
unfolding check_length
check_length-fits m [] h k = absurd (omega arith)
check_length-fits m (c ∷ t) h k = rw (le→ltb m (length (c ∷ t)) k)

accepted :
    (m : ℕ) (s t : Text)
    → IsNormal s
    → check_length m s ≡ ok (some t)
    → IsNormal t × (0 < length t) × (length t ≤ m) × (parse_optional_text (str t) m ≡ ok (some t))
unfolding parse_optional_text
accepted m s t n h =
    let (e, low, high) = check_length-some m s t h in
    let normal = subst' e in
    (normal, low, high, rw (collapse-fixed t normal) (check_length-fits m t low high))
  where
    subst' : s ≡ t → IsNormal t
    subst' e = rw (← e) n

-- A text that `parse_optional_text` accepts is not empty, at most `m` long, has no white space but
-- single blanks between other characters, and is itself accepted unchanged.
pub parse_optional_text-IsNormal :
    (v : Value) (m : ℕ) (t : Text)
    → parse_optional_text v m ≡ ok (some t)
    → IsNormal t × (0 < length t) × (length t ≤ m) × (parse_optional_text (str t) m ≡ ok (some t))
unfolding parse_optional_text
parse_optional_text-IsNormal (str s) m t h = accepted m (collapse s) t (collapse-IsNormal s) h
parse_optional_text-IsNormal _ m t h = cc
