-- ===== src/Framing/Written.antt =====
-- What is written to a connection arrives as it is: the decoder gives back every text that
-- `Buffer.from(s, 'utf8')` encodes from a well-formed one, and every such encoding ends where a
-- character ends.
use mathlib.Core.List.{append-nil}
use inter_agent_bus.Base.{
  ℕ, ◌+◌, ◌-◌, ◌*◌, ◌/◌, ◌%◌, ◌<◌, ◌≤◌, Bool, true, false, ◌&&◌, not, Option, none, some, List, [],
  ◌∷◌, ◌++◌, ◌≡◌, refl, sym, ap, ◌∙◌, Text, ltb, eqb, arith, if◌then◌else◌, Bool-cases, inl, inr,
  ltb→lt, All,
}
use inter_agent_bus.Auth.{is_high, is_low, unit_bytes, pair_bytes, utf8_from, utf8}
use inter_agent_bus.Framing.Decoder.{
  IsWhole, idle, within, decode, decode_byte, buffer_to_string, end_of_bytes, lead, units,
  continue_with,
}
use inter_agent_bus.Framing.Whole.{decode-append, join_all}
use inter_agent_bus.Framing.{on_chunks}
use inter_agent_bus.Framing.Chunks.{IsMessage, written, on_chunks-written}

-- A code unit that is no half of a pair is encoded to bytes that decode to it.
decode-unit :
    (c : ℕ)
    → c < 0x10000
    → is_high c ≡ false
    → is_low c ≡ false
    → decode (unit_bytes c) idle ≡ (c ∷ [], idle)
unfolding unit_bytes is_high is_low decode decode_byte lead units continue_with
decode-unit c h k l = ground arith

-- The steps at the four bytes of a character above U+FFFF.
lead-four :
    (b : ℕ)
    → 0xf0 ≤ b
    → b ≤ 0xf4
    → lead b ≡ (
      [],
      within 3 (if eqb b 0xf0 then 0x90 else 0x80) (if eqb b 0xf4 then 0x8f else 0xbf) (b - 0xf0),
    )
unfolding lead
lead-four b h k = ground arith

decode_byte-inner :
    (b missing low high point : ℕ)
    → low ≤ b
    → b ≤ high
    → decode_byte b (within missing low high point)
      ≡ continue_with missing (point * 0x40 + (b - 0x80))
unfolding decode_byte
decode_byte-inner b missing low high point h k = ground arith

decode-point :
    (point : ℕ)
    → 0x10000 ≤ point
    → point < 0x110000
    → decode
        ((0xf0 + point / 0x40000)
          ∷ (0x80 + point / 0x1000 % 0x40)
          ∷ (0x80 + point / 0x40 % 0x40)
          ∷ (0x80 + point % 0x40)
          ∷ [])
        idle
      ≡ (units point, idle)
unfolding decode decode_byte continue_with
decode-point point h k =
    let a = 0xf0 + point / 0x40000 in
    let b = 0x80 + point / 0x1000 % 0x40 in
    let c = 0x80 + point / 0x40 % 0x40 in
    let d = 0x80 + point % 0x40 in
    rw
      (
        lead-four a (omega arith) (omega arith),
        decode_byte-inner b 3 (if eqb a 0xf0 then 0x90 else 0x80)
            (if eqb a 0xf4 then 0x8f else 0xbf) (a - 0xf0) (ground arith) (ground arith),
        decode_byte-inner c 2 0x80 0xbf ((a - 0xf0) * 0x40 + (b - 0x80)) (omega arith)
            (omega arith),
        decode_byte-inner d 1 0x80 0xbf (((a - 0xf0) * 0x40 + (b - 0x80)) * 0x40 + (c - 0x80))
            (omega arith) (omega arith),
      )
      (rw
        (append-nil
          (units ((((a - 0xf0) * 0x40 + (b - 0x80)) * 0x40 + (c - 0x80)) * 0x40 + (d - 0x80))))
        (ap (λ (q : ℕ). (units q, idle)) (omega arith)))

units-pair :
    (x y : ℕ)
    → x < 0x400
    → y < 0x400
    → units (0x10000 + x * 0x400 + y) ≡ (0xd800 + x) ∷ (0xdc00 + y) ∷ []
unfolding units
units-pair x y h k = ground arith

decode-pair :
    (a b : ℕ)
    → is_high a ≡ true
    → is_low b ≡ true
    → decode (pair_bytes a b) idle ≡ (a ∷ b ∷ [], idle)
unfolding pair_bytes is_high is_low
decode-pair a b h k =
    let x = a - 0xd800 in
    let y = b - 0xdc00 in
    let low : (0xd800 ≤ a) × (x < 0x400) = (ground (arith, h), ground (arith, h)) in
    let high : (0xdc00 ≤ b) × (y < 0x400) = (ground (arith, k), ground (arith, k)) in
    let first : 0xd800 + x ≡ a = omega (arith, low.0) in
    let second : 0xdc00 + y ≡ b = omega (arith, high.0) in
    decode-point (0x10000 + x * 0x400 + y) (omega arith) (omega (arith, low.1, high.1))
    ∙ ap (λ (t : Text). (t, idle)) (units-pair x y low.1 high.1 ∙ rw (first, second) refl)

-- What is decoded up to the end of a character goes before what is decoded next.
decode-both :
    (xs ys : List ℕ) (t u : Text)
    → decode xs idle ≡ (t, idle)
    → decode ys idle ≡ (u, idle)
    → decode (xs ++ ys) idle ≡ (t ++ u, idle)
decode-both xs ys t u h k = decode-append xs ys idle ∙ rw (h, k) refl

-- A text of code units in which the halves of surrogate pairs stand together, after the first half
-- that was read last.
unfoldable pub is_well_formed : Option ℕ → Text → Bool
is_well_formed none [] = true
is_well_formed (some h) [] = false
is_well_formed none (c ∷ s) =
    let pair = is_well_formed (some c) s in
    let rest = is_well_formed none s in
    if is_high c then pair else ltb c 0x10000 && not (is_low c) && rest
is_well_formed (some h) (c ∷ s) = is_low c && is_well_formed none s

and_parts : (p q r : Bool) → (p && not q && r) ≡ true → (p ≡ true) × (q ≡ false) × (r ≡ true)
and_parts p q r h = ground arith

well_formed-unit :
    (c : ℕ) (s : Text)
    → is_high c ≡ false
    → is_well_formed none (c ∷ s) ≡ true
    → (c < 0x10000) × (is_low c ≡ false) × (is_well_formed none s ≡ true)
unfolding is_well_formed
well_formed-unit c s e h =
    let parts : (ltb c 0x10000 && not (is_low c) && is_well_formed none s) ≡ true =
      rw
        (sym (
          ap
            (λ (b : Bool).
              if b
              then is_well_formed (some c) s
              else ltb c 0x10000 && not (is_low c) && is_well_formed none s)
            e))
        h in
    let (small, unpaired, rest) =
      and_parts (ltb c 0x10000) (is_low c) (is_well_formed none s) parts in
    (ltb→lt c 0x10000 small, unpaired, rest)

well_formed-pair :
    (c : ℕ) (s : Text)
    → is_high c ≡ true
    → is_well_formed none (c ∷ s) ≡ true
    → is_well_formed (some c) s ≡ true
unfolding is_well_formed
well_formed-pair c s e h =
    sym (
      ap
        (λ (b : Bool).
          if b
          then is_well_formed (some c) s
          else ltb c 0x10000 && not (is_low c) && is_well_formed none s)
        e)
    ∙ h

-- The first half that was read.
abbrev begun : Option ℕ → Text
begun none = []
begun (some h) = h ∷ []

abbrev IsBegun : Option ℕ → Type 0
IsBegun none = Unit
IsBegun (some h) = is_high h ≡ true

decode-utf8_from :
    (p : Option ℕ) (s : Text)
    → IsBegun p
    → is_well_formed p s ≡ true
    → decode (utf8_from p s) idle ≡ (begun p ++ s, idle)
unfolding utf8_from is_well_formed
decode-utf8_from none [] b h = unfold decode in refl
decode-utf8_from (some a) [] b h = absurd (cc)
decode-utf8_from none (c ∷ s) b h = elim (Bool-cases (is_high c)) [
  | inl e ↦ rw e (decode-utf8_from (some c) s e (well_formed-pair c s e h))
  | inr e ↦
      let (small, unpaired, rest) = well_formed-unit c s e h in
      rw e (
        decode-both (unit_bytes c) (utf8_from none s) (c ∷ []) s (decode-unit c small e unpaired)
          (decode-utf8_from none s tt rest))
]
decode-utf8_from (some a) (c ∷ s) b h =
    let low : is_low c ≡ true = ground (arith, h) in
    rw low (
      decode-both (pair_bytes a c) (utf8_from none s) (a ∷ c ∷ []) s (decode-pair a c b low)
        (decode-utf8_from none s tt (ground (arith, h))))

-- The bytes of a well-formed text end where a character ends, and decode to the text.
pub buffer_to_string-utf8 :
    (s : Text) → is_well_formed none s ≡ true → IsWhole (utf8 s) × (buffer_to_string (utf8 s) ≡ s)
unfolding buffer_to_string utf8 end_of_bytes
buffer_to_string-utf8 s h =
    let e = decode-utf8_from none s tt h in (ap (λ r. r.1) e, rw e (append-nil s))

-- Messages whose UTF-8 bytes are written one after the other arrive as they are, whatever the chunks
-- that cut no character.
pub on_chunks-utf8 :
    (ms : List Text) (chunks : List (List ℕ))
    → All IsMessage ms
    → is_well_formed none (written ms) ≡ true
    → All IsWhole chunks
    → join_all chunks ≡ utf8 (written ms)
    → on_chunks chunks [] ≡ record { lines = ms; buffer = [] }
on_chunks-utf8 ms chunks h k w e =
    on_chunks-written ms chunks h w
      (ap buffer_to_string e ∙ (buffer_to_string-utf8 (written ms) k).1)
