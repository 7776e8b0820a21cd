-- ===== src/Sidecar/Tty.antt =====
-- `sanitizeForTTY` of the sidecars: escape sequences are taken out, and each control character
-- that is left becomes a blank.
pub mod Clean
pub mod Csi
use inter_agent_bus.Base.{
  ℕ, zero, suc, ◌+◌, ◌-◌, Bool, true, false, not, ◌&&◌, ◌||◌, Option, none, some, List, [], ◌∷◌,
  map, Text, leb, eqb, all, if◌then◌else◌,
}
use inter_agent_bus.Value.{Value, undefined, null, str, bool, num, arr, obj}

abbrev pub esc : ℕ
esc = 0x1b

-- `[0-9;?]`
unfoldable pub is_csi_param : ℕ → Bool
is_csi_param c = leb b'0' c && leb c b'9' || eqb c b';' || eqb c b'?'

-- `[ -\/]`
unfoldable pub is_csi_middle : ℕ → Bool
is_csi_middle c = leb 0x20 c && leb c b'/'

-- `[@-~]`
unfoldable pub is_csi_final : ℕ → Bool
is_csi_final c = leb b'@' c && leb c b'~'

-- `[@-_]`
unfoldable pub is_esc_final : ℕ → Bool
is_esc_final c = leb b'@' c && leb c b'_'

-- `[\x00-\x1f\x7f-\x9f]`
unfoldable pub is_control : ℕ → Bool
is_control c = leb c 0x1f || leb 0x7f c && leb c 0x9f

one_more : Option ℕ → Option ℕ
one_more none = none
one_more (some n) = some (suc n)

-- The length of `[ -\/]*[@-~]` at the start of a text, if it stands there. The three classes have
-- no character in common, so that there is at most one way to match.
csi_middle : Text → Option ℕ
csi_middle [] = none
csi_middle (c ∷ s) =
    let rest = csi_middle s in
    if is_csi_final c then some 1 else if is_csi_middle c then one_more rest else none

-- The length of `[0-9;?]*[ -\/]*[@-~]` at the start of a text.
csi_length : Text → Option ℕ
unfolding csi_middle one_more
csi_length [] = none
csi_length (c ∷ s) =
    let rest = csi_length s in if is_csi_param c then one_more rest else csi_middle (c ∷ s)

-- What `ANSI_ESCAPE_RE` matches behind the escape character, which it leaves alone at length 0.
unfoldable pub escape_length : Text → ℕ
unfolding csi_length
escape_length [] = 0
escape_length (c ∷ s) =
    if eqb c b'['
    then elim (csi_length s) [ none ↦ 1 | some n ↦ suc n ]
    else if is_esc_final c
    then 1
    else 0

-- `value.replace(ANSI_ESCAPE_RE, '')`; `skip` characters of a match are still to come.
unfoldable pub strip_escapes_from : ℕ → Text → Text
strip_escapes_from skip [] = []
strip_escapes_from (suc skip) (c ∷ s) = strip_escapes_from skip s
strip_escapes_from zero (c ∷ s) =
    let n = if eqb c esc then escape_length s else 0 in
    let rest = strip_escapes_from n s in if eqb n 0 then c ∷ rest else rest

-- `value.replace(CONTROL_CHARS_RE, ' ')`
unfoldable pub blank_controls : Text → Text
blank_controls = map (λ c. if is_control c then 0x20 else c)

unfoldable pub strip_escapes : Text → Text
unfolding strip_escapes_from
strip_escapes s = strip_escapes_from 0 s

unfoldable pub sanitize : Text → Text
sanitize s = blank_controls (strip_escapes s)

-- `String(value == null ? '' : value)`, with the text that JavaScript makes of other values.
unfoldable pub to_string : (Value → Text) → Value → Text
to_string string_of undefined = []
to_string string_of null = []
to_string string_of (str s) = s
to_string string_of v = string_of v

unfoldable pub sanitize_for_tty : (Value → Text) → Value → Text
sanitize_for_tty string_of v = sanitize (to_string string_of v)
