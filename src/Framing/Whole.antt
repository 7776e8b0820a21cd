-- ===== src/Framing/Whole.antt =====
-- Chunks that end where a character ends are decoded as their whole is.
use mathlib.Core.List.{append_assoc, append-nil}
use inter_agent_bus.Base.{
  ℕ, List, [], ◌∷◌, ◌++◌, ◌≤◌, ◌≡◌, refl, ap, sym, ◌∙◌, Text, All, map, arith, ◌+◌, ◌-◌, ◌*◌,
}
use inter_agent_bus.Framing.Decoder.{
  Decoder, idle, IsWhole, decode, decode_byte, buffer_to_string, end_of_bytes, replacement_unit,
}

-- All chunks in a row.
unfoldable pub join_all : List (List ℕ) → List ℕ
join_all [] = []
join_all (t ∷ ts) = t ++ join_all ts

pub decode-append :
    (xs ys : List ℕ) (d : Decoder)
    → decode (xs ++ ys) d
      ≡ (let (t, d') = decode xs d in let (u, d'') = decode ys d' in (t ++ u, d''))
unfolding decode
decode-append [] ys d = refl
decode-append (x ∷ xs) ys d =
    let (t, d') = decode_byte x d in
    let (u, d'') = decode xs d' in
    ap (λ (r : Text × Decoder). (t ++ r.0, r.1)) (decode-append xs ys d')
    ∙ ap (λ (v : Text). (v, (decode ys d'').1)) (sym (append_assoc t u (decode ys d'').0))

buffer_to_string-append :
    (xs ys : List ℕ)
    → IsWhole xs
    → buffer_to_string (xs ++ ys) ≡ buffer_to_string xs ++ buffer_to_string ys
unfolding buffer_to_string end_of_bytes decode
buffer_to_string-append xs ys h =
    let t = (decode xs idle).0 in
    let (u, d) = decode ys idle in
    rw (decode-append xs ys idle, h, append-nil t) (append_assoc t u (end_of_bytes d))

pub buffer_to_string-join_all :
    (chunks : List (List ℕ))
    → All IsWhole chunks
    → buffer_to_string (join_all chunks) ≡ join_all (map buffer_to_string chunks)
unfolding join_all
buffer_to_string-join_all [] h =
    unfold buffer_to_string in unfold end_of_bytes in unfold decode in refl
buffer_to_string-join_all (c ∷ cs) (h, hs) =
    buffer_to_string-append c (join_all cs) h
    ∙ ap (λ (t : Text). buffer_to_string c ++ t) (buffer_to_string-join_all cs hs)

-- A character of two bytes that is cut between two chunks arrives as two replacement characters.
pub buffer_to_string-torn :
    (a b : ℕ)
    → 0xc2 ≤ a
    → a ≤ 0xdf
    → 0x80 ≤ b
    → b ≤ 0xbf
    → (buffer_to_string (a ∷ []) ++ buffer_to_string (b ∷ [])
        ≡ replacement_unit ∷ replacement_unit ∷ [])
      × (buffer_to_string (a ∷ b ∷ []) ≡ ((a - 0xc0) * 0x40 + (b - 0x80)) ∷ [])
unfolding buffer_to_string end_of_bytes decode
buffer_to_string-torn a b h k l m = ground arith
