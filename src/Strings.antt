-- ===== src/Strings.antt =====
-- The string functions that the program applies to text from outside: white space, runs, ends,
-- and `parseOptionalText` of broker/broker.js.
pub mod Runs
pub mod Normal
pub mod Split
use inter_agent_bus.Base.{
  ℕ, Bool, true, false, ◌&&◌, ◌||◌, Option, none, some, List, [], ◌∷◌, Text, leb, ltb, eqb, length,
  if◌then◌else◌,
}
use inter_agent_bus.Value.{Value, undefined, null, str, bool, num, arr, obj}
use Runs.{squeeze, strip}

-- `\s` of a regular expression, and what `trim` removes.
unfoldable pub is_space : ℕ → Bool
is_space c =
    leb 9 c && leb c 13
    || eqb c 32
    || eqb c 0xa0
    || eqb c 0x1680
    || leb 0x2000 c && leb c 0x200a
    || eqb c 0x2028
    || eqb c 0x2029
    || eqb c 0x202f
    || eqb c 0x205f
    || eqb c 0x3000
    || eqb c 0xfeff

-- `value.replace(/\s+/g, ' ').trim()`
unfoldable pub collapse : Text → Text
collapse s = strip is_space (squeeze is_space 32 s)

-- What went wrong with an optional text: it is no string, or too long.
pub data TextError : Type 0 where
  invalid too_long : TextError

pub data Parsed : Type 0 where
  ok : Option Text → Parsed
  fail : TextError → Parsed

check_length : ℕ → Text → Parsed
check_length max_length [] = ok none
check_length max_length (c ∷ s) =
    if ltb max_length (length (c ∷ s)) then fail too_long else ok (some (c ∷ s))

unfoldable pub parse_optional_text : Value → ℕ → Parsed
unfolding check_length
parse_optional_text undefined max_length = ok none
parse_optional_text null max_length = ok none
parse_optional_text (str s) max_length = check_length max_length (collapse s)
parse_optional_text _ max_length = fail invalid
