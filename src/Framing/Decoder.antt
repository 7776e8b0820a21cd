-- ===== src/Framing/Decoder.antt =====
-- `chunk.toString()` of a Buffer, which every connection of the program applies to each chunk on its
-- own: the UTF-8 decoder of the language's runtime, byte by byte, to UTF-16 code units.
use inter_agent_bus.Base.{
  ℕ, suc, ◌+◌, ◌-◌, ◌*◌, ◌/◌, ◌%◌, ◌&&◌, List, [], ◌∷◌, ◌++◌, ◌≡◌, Text, leb, ltb, eqb,
  if◌then◌else◌,
}

-- U+FFFD, for bytes that are no character.
abbrev pub replacement_unit : ℕ
replacement_unit = 0xfffd

-- Between two characters, or within one: how many of its bytes are missing, the bounds of the next
-- one, and the bits so far.
pub data Decoder : Type 0 where
  idle : Decoder
  within : ℕ → ℕ → ℕ → ℕ → Decoder

-- The code units of a character.
unfoldable pub units : ℕ → Text
units point =
    if ltb point 0x10000
    then point ∷ []
    else (0xd800 + (point - 0x10000) / 0x400) ∷ (0xdc00 + (point - 0x10000) % 0x400) ∷ []

-- The first byte of a character of three bytes, which is neither overlong nor half of a pair.
lead_three : ℕ → Decoder
lead_three b =
    within 2 (if eqb b 0xe0 then 0xa0 else 0x80) (if eqb b 0xed then 0x9f else 0xbf) (b - 0xe0)

-- The first byte of a character of four bytes, which is neither overlong nor above U+10FFFF.
lead_four : ℕ → Decoder
lead_four b =
    within 3 (if eqb b 0xf0 then 0x90 else 0x80) (if eqb b 0xf4 then 0x8f else 0xbf) (b - 0xf0)

-- The first byte of a character.
unfoldable pub lead : ℕ → Text × Decoder
unfolding lead_three lead_four
lead b =
    if ltb b 0x80
    then (b ∷ [], idle)
    else if leb 0xc2 b && leb b 0xdf
    then ([], within 1 0x80 0xbf (b - 0xc0))
    else if leb 0xe0 b && leb b 0xef
    then ([], lead_three b)
    else if leb 0xf0 b && leb b 0xf4
    then ([], lead_four b)
    else (replacement_unit ∷ [], idle)

-- The character goes on with the bits of one more byte.
unfoldable pub continue_with : ℕ → ℕ → Text × Decoder
unfolding units
continue_with (suc (suc missing)) point = ([], within (suc missing) 0x80 0xbf point)
continue_with _ point = (units point, idle)

-- A byte. One that does not go on with the character ends it, and is the first byte of the next.
unfoldable pub decode_byte : ℕ → Decoder → Text × Decoder
unfolding lead continue_with
decode_byte b idle = lead b
decode_byte b (within missing low high point) =
    if leb low b && leb b high
    then continue_with missing (point * 0x40 + (b - 0x80))
    else let (t, d) = lead b in (replacement_unit ∷ t, d)

unfoldable pub decode : List ℕ → Decoder → Text × Decoder
unfolding decode_byte
decode [] d = ([], d)
decode (b ∷ bytes) d =
    let (t, d') = decode_byte b d in let (u, d'') = decode bytes d' in (t ++ u, d'')

-- At the end of the bytes, what is left of a character is no character.
unfoldable pub end_of_bytes : Decoder → Text
end_of_bytes idle = []
end_of_bytes (within missing low high point) = replacement_unit ∷ []

-- `chunk.toString()`
unfoldable pub buffer_to_string : List ℕ → Text
buffer_to_string bytes = let (t, d) = decode bytes idle in t ++ end_of_bytes d

-- The bytes end where a character ends.
abbrev pub IsWhole : List ℕ → Type 0
IsWhole bytes = (decode bytes idle).1 ≡ idle
