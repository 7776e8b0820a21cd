-- ===== src/Auth.antt =====
-- adapters/session-auth.js: the capability tokens of the adapters' local sockets, their comparison
-- on UTF-8 bytes, and the files they are published in.
pub mod Exact
pub mod Store
mod Tests
use inter_agent_bus.Base.{
  ℕ, ◌+◌, ◌-◌, ◌*◌, ◌/◌, ◌%◌, Bool, true, false, ◌&&◌, Option, none, some, List, [], ◌∷◌, ◌++◌,
  Text, codes, ◌==◌, ltb, leb, eqb, length, if◌then◌else◌,
}
use inter_agent_bus.Base.Maps
use inter_agent_bus.Base.Maps.{Map}
use inter_agent_bus.Value.{Value, str}
use inter_agent_bus.Strings.{is_space}
use inter_agent_bus.Strings.Runs.{strip}
use inter_agent_bus.Paths.{join}

unfoldable pub is_high : ℕ → Bool
is_high c = leb 0xd800 c && ltb c 0xdc00

unfoldable pub is_low : ℕ → Bool
is_low c = leb 0xdc00 c && ltb c 0xe000

-- U+FFFD, for half of a surrogate pair.
abbrev pub replacement : List ℕ
replacement = 0xef ∷ 0xbf ∷ 0xbd ∷ []

-- The bytes of a code unit that is no first half of a pair.
unfoldable pub unit_bytes : ℕ → List ℕ
unit_bytes c =
    if ltb c 0x80
    then c ∷ []
    else if ltb c 0x800
    then (0xc0 + c / 0x40) ∷ (0x80 + c % 0x40) ∷ []
    else if is_low c
    then replacement
    else (0xe0 + c / 0x1000) ∷ (0x80 + c / 0x40 % 0x40) ∷ (0x80 + c % 0x40) ∷ []

unfoldable pub pair_bytes : ℕ → ℕ → List ℕ
pair_bytes h l =
    let point = 0x10000 + (h - 0xd800) * 0x400 + (l - 0xdc00) in
    (0xf0 + point / 0x40000)
    ∷ (0x80 + point / 0x1000 % 0x40)
    ∷ (0x80 + point / 0x40 % 0x40)
    ∷ (0x80 + point % 0x40)
    ∷ []

-- `Buffer.from(s, 'utf8')`, with the first half of a pair that was read last.
unfoldable pub utf8_from : Option ℕ → Text → List ℕ
utf8_from none [] = []
utf8_from (some h) [] = replacement
utf8_from none (c ∷ s) =
    if is_high c then utf8_from (some c) s else unit_bytes c ++ utf8_from none s
utf8_from (some h) (c ∷ s) =
    if is_low c
    then pair_bytes h c ++ utf8_from none s
    else replacement
      ++ (if is_high c then utf8_from (some c) s else unit_bytes c ++ utf8_from none s)

unfoldable pub utf8 : Text → List ℕ
utf8 s = utf8_from none s

same_bytes : List ℕ → List ℕ → Bool
same_bytes ab bb = if eqb (length ab) (length bb) then ab == bb else false

unfoldable pub timing_safe_equal_str : Value → Value → Bool
unfolding same_bytes
timing_safe_equal_str (str a) (str b) = same_bytes (utf8 a) (utf8 b)
timing_safe_equal_str _ _ = false

unfoldable pub token_path_for : Text → Text → Text
token_path_for socket_dir session_id = join socket_dir (session_id ++ codes ".token")

-- The token files by their paths.
unfoldable pub write_token : Text → Text → Text → Map Text → Map Text
write_token socket_dir session_id token files =
    Maps.set (token_path_for socket_dir session_id) token files

-- `none` is `null`, for a file that is absent or blank.
trimmed : Option Text → Option Text
trimmed none = none
trimmed (some raw) = let token = strip is_space raw in if token == [] then none else some token

unfoldable pub read_token : Text → Text → Map Text → Option Text
unfolding trimmed
read_token socket_dir session_id files =
    trimmed (Maps.get (token_path_for socket_dir session_id) files)

unfoldable pub remove_token : Text → Text → Map Text → Map Text
remove_token socket_dir session_id files = Maps.delete (token_path_for socket_dir session_id) files
