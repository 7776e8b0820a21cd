-- ===== src/Framing/Tests.antt =====
-- The theorems on framing at a message that is cut in two.
use inter_agent_bus.Framing.{cons_cut, cut, cut_lines, newline, on_chunk, on_chunks}
use inter_agent_bus.Base.{◌==◌, ℕ, refl, List, [], codes, ◌∷◌, ◌≡◌}
use inter_agent_bus.Strings.Runs.{strip}
use inter_agent_bus.Strings.{is_space}
use inter_agent_bus.Strings.Split.{split_on}
use inter_agent_bus.Framing.Decoder.{buffer_to_string, decode, end_of_bytes}
use inter_agent_bus.Framing.Whole.{join_all}
use inter_agent_bus.Framing.Chunks.{framed, on_chunks-framed}

-- The bytes of an ASCII text are its codes; U+00E9 has two bytes.
abbrev chunks : List (List ℕ)
chunks = codes "{}\n{" ∷ (0xc3 ∷ 0xa9 ∷ codes "}\n") ∷ []

on_chunks-framed_example :
    on_chunks chunks [] ≡ framed (split_on newline (buffer_to_string (join_all chunks)))
unfolding decode
on_chunks-framed_example = on_chunks-framed chunks (refl, (refl, tt))

-- The euro sign, and a character above U+FFFF.
decodes :
    buffer_to_string (0xe2 ∷ 0x82 ∷ 0xac ∷ 0xf0 ∷ 0x9f ∷ 0x98 ∷ 0x80 ∷ [])
    ≡ 0x20ac ∷ 0xd83d ∷ 0xde00 ∷ []
unfolding buffer_to_string decode end_of_bytes
decodes = refl

-- An overlong slash, a half of a surrogate pair, and a byte that is missing before a letter.
replaces :
    (buffer_to_string (0xc0 ∷ 0xaf ∷ []) ≡ 0xfffd ∷ 0xfffd ∷ [])
    × (buffer_to_string (0xed ∷ 0xa0 ∷ 0x80 ∷ []) ≡ 0xfffd ∷ 0xfffd ∷ 0xfffd ∷ [])
    × (buffer_to_string (0xe2 ∷ 0x82 ∷ b'a' ∷ []) ≡ 0xfffd ∷ b'a' ∷ [])
unfolding buffer_to_string decode end_of_bytes
replaces = (refl, refl, refl)

-- The same bytes in two chunks that cut a character are other lines.
torn :
    on_chunks (codes "a" ∷ (0xc3 ∷ []) ∷ (0xa9 ∷ newline ∷ []) ∷ []) []
    ≡ record { lines = (b'a' ∷ 0xfffd ∷ 0xfffd ∷ []) ∷ []; buffer = [] }
unfolding on_chunks on_chunk buffer_to_string decode end_of_bytes cut_lines cut cons_cut ◌==◌ strip
    is_space
torn = refl
