-- ===== src/Ids.antt =====
-- Participant ids of broker/broker.js: their grammar (`KIND_RE`, `PARTICIPANT_ID_RE`), and the id
-- that a display name asks for (`normalizeNamedParticipantId`).
pub mod Grammar
pub mod Slug
mod Tests
use inter_agent_bus.Base.{
  ℕ, zero, suc, ◌+◌, Bool, true, false, not, ◌&&◌, ◌||◌, Option, none, some, List, [], ◌∷◌, ◌++◌,
  Text, leb, eqb, length, all, if◌then◌else◌,
}
use inter_agent_bus.Strings.{is_space}
use inter_agent_bus.Strings.Runs.{squeeze, strip}
use inter_agent_bus.Value.{Value, str}

abbrev pub dash : ℕ
dash = b'-'

abbrev pub colon : ℕ
colon = b':'

unfoldable pub is_lower : ℕ → Bool
is_lower c = leb b'a' c && leb c b'z'

unfoldable pub is_digit : ℕ → Bool
is_digit c = leb b'0' c && leb c b'9'

-- `[a-z0-9_-]`
unfoldable pub is_slug : ℕ → Bool
is_slug c = leb b'a' c && leb c b'z' || leb b'0' c && leb c b'9' || eqb c b'_' || eqb c b'-'

-- `[0-9a-f]`
unfoldable pub is_hex : ℕ → Bool
is_hex c = leb b'0' c && leb c b'9' || leb b'a' c && leb c b'f'

-- `^[a-z][a-z0-9_-]{0,most}$`
unfoldable pub is_handle : ℕ → Text → Bool
is_handle most [] = false
is_handle most (c ∷ s) = is_lower c && all is_slug s && leb (length s) most

-- `[0-9a-f]{n}\d?$`
unfoldable pub is_hash_tail : ℕ → Text → Bool
is_hash_tail zero [] = true
is_hash_tail zero (c ∷ []) = is_digit c
is_hash_tail zero (c ∷ d ∷ s) = false
is_hash_tail (suc n) [] = false
is_hash_tail (suc n) (c ∷ s) = is_hex c && is_hash_tail n s

-- What stands before and behind the first colon: no kind has one, so a match must split there.
unfoldable pub split_colon : Text → Option (Text × Text)
split_colon [] = none
split_colon (c ∷ s) =
    let rest = split_colon s in
    if eqb c colon then some ([], s) else elim rest [ none ↦ none | some (k, r) ↦ some (c ∷ k, r) ]

-- `LEGACY_PARTICIPANT_ID_RE`
unfoldable pub is_legacy : Text → Bool
is_legacy s = elim (split_colon s) [
  | none ↦ false
  | some (k, r) ↦ is_handle 31 k && is_hash_tail 12 r
]

-- `PARTICIPANT_ID_RE`
unfoldable pub is_participant_id : Text → Bool
is_participant_id s = is_handle 63 s || is_legacy s

unfoldable pub is_valid_participant_id : Value → Bool
is_valid_participant_id (str s) = is_participant_id s
is_valid_participant_id _ = false

unfoldable pub is_valid_kind : Value → Bool
is_valid_kind (str s) = is_handle 31 s
is_valid_kind _ = false

-- `toLowerCase` on one code unit. Of the units outside ASCII only the Kelvin sign and the dotted
-- capital I have a lower case with an ASCII letter in it; the case of any other is left alone,
-- since the slug replaces it by a dash in either case.
unfoldable pub lower_unit : ℕ → Text
lower_unit c =
    if leb b'A' c && leb c b'Z'
    then (c + 32) ∷ []
    else if eqb c 0x212a
    then b'k' ∷ []
    else if eqb c 0x130
    then b'i' ∷ 0x307 ∷ []
    else c ∷ []

unfoldable pub lower_case : Text → Text
unfolding lower_unit
lower_case [] = []
lower_case (c ∷ s) = lower_unit c ++ lower_case s

unfoldable pub not_slug : ℕ → Bool
not_slug c = not (is_slug c)

unfoldable pub is_dash : ℕ → Bool
is_dash c = eqb c dash

unfoldable pub slug : Text → Text
slug s =
    squeeze is_dash dash (strip is_dash (squeeze not_slug dash (lower_case (strip is_space s))))

-- `none` is an invalid display name, the one error of the function.
unfoldable pub normalize_named_participant_id : Option Text → Option (Option Text)
normalize_named_participant_id none = some none
normalize_named_participant_id (some value) =
    if is_handle 63 (slug value) then some (some (slug value)) else none
