-- ===== src/Framing/Chunks.antt =====
-- The lines that arrive on a connection do not depend on how they were cut into chunks, as long as
-- no character is cut.
use inter_agent_bus.Base.{
  All, Bool-cases, List, Option-cases, Text, [], ap, arith, false, has_code, inl, inr, length,
  length-append, map, none, refl, some, subst, suc, sym, zero, ℕ, ◌++◌, ◌==◌, ◌∙◌, ◌∷◌, ◌≡◌, ◌≤◌,
}
use mathlib.Core.List.{append_assoc, append-nil}
use inter_agent_bus.Strings.{is_space}
use inter_agent_bus.Strings.Runs.{strip}
use inter_agent_bus.Strings.Split.{NoCode, split_on, split_on-NoCode, split_on-last, split_on-next}
use inter_agent_bus.Framing.Decoder.{buffer_to_string, IsWhole}
use inter_agent_bus.Framing.Whole.{join_all, buffer_to_string-join_all}
use inter_agent_bus.Framing.{
  newline, cons_line, cut, Cuts, cons_cut, cut_lines, on_chunk, on_chunks,
}

cut-none : (s : Text) → cut s ≡ none → NoCode newline s
unfolding cut cons_line has_code
cut-none [] h = refl
cut-none (c ∷ s) h = elim (Option-cases (cut s)) [
  | inl e ↦ ground (arith, cut-none s e)
  | inr ((line, rest), e) ↦ ground arith
]

cut-some :
    (s line rest : Text)
    → cut s ≡ some (line, rest)
    → (s ≡ line ++ newline ∷ rest) × NoCode newline line
unfolding cut cons_line has_code
cut-some [] line rest h = absurd (cc)
cut-some (c ∷ s) line rest h = elim (Option-cases (cut s)) [
  | inl e ↦ ground arith
  | inr ((l, r), e) ↦ ground (arith, cut-some s l r e)
]

cut-last : (s : Text) → NoCode newline s → cut s ≡ none
unfolding cut cons_line has_code
cut-last [] h = refl
cut-last (c ∷ s) h = ground (arith, cut-last s)

cut-next :
    (line rest : Text) → NoCode newline line → cut (line ++ newline ∷ rest) ≡ some (line, rest)
unfolding cut cons_line has_code
cut-next [] rest h = ground arith
cut-next (c ∷ line) rest h = ground (arith, cut-next line rest)

-- The lines and the buffer of a text as its parts between newlines say.
parts_cut : Text → List Text → Cuts
parts_cut part [] = record { lines = []; buffer = part }
parts_cut part (q ∷ qs) = cons_cut part (parts_cut q qs)

pub framed : List Text → Cuts
unfolding parts_cut
framed [] = record { lines = []; buffer = [] }
framed (p ∷ ps) = parts_cut p ps

framed-next :
    (line rest : Text)
    → framed (line ∷ split_on newline rest) ≡ cons_cut line (framed (split_on newline rest))
unfolding framed parts_cut split_on
framed-next line rest = refl

rest-shorter :
    (n : ℕ) (line rest : Text) → length (line ++ newline ∷ rest) ≤ suc n → length rest ≤ n
rest-shorter n line rest h = omega (arith, length-append line (newline ∷ rest))

cut_lines-framed : (n : ℕ) (s : Text) → length s ≤ n → cut_lines n s ≡ framed (split_on newline s)
unfolding cut_lines
cut_lines-framed zero [] h = unfold framed in unfold split_on in refl
cut_lines-framed zero (c ∷ s) h = absurd (omega arith)
cut_lines-framed (suc n) s h = elim (Option-cases (cut s)) [
  | inl e ↦ rw (e, cut_lines, split_on-last newline s (cut-none s e)) (unfold framed in refl)
  | inr ((line, rest), e) ↦
      let (split, clean) = cut-some s line rest e in
      rw (e, cut_lines, split, split_on-next newline line rest clean, framed-next line rest)
        (ap (cons_cut line) (
          cut_lines-framed n rest
            (rest-shorter n line rest (subst (λ (u : Text). length u ≤ suc n) split h))))
]

-- What the first chunks make of a connection goes on with what comes later.
abbrev go_on : Cuts → Text → Cuts
go_on cuts chunk =
    let later = framed (split_on newline (cuts.buffer ++ chunk)) in
    record { lines = cuts.lines ++ later.lines; buffer = later.buffer }

go_on-cons_cut :
    (line : Text) (cuts : Cuts) (chunk : Text)
    → go_on (cons_cut line cuts) chunk ≡ cons_cut line (go_on cuts chunk)
unfolding cons_cut
go_on-cons_cut line cuts chunk = elim (Bool-cases (strip is_space line == [])) [
  | inl e ↦ rw e refl
  | inr e ↦ rw e refl
]

line-append :
    (line rest chunk : Text)
    → NoCode newline line
    → framed (split_on newline (rest ++ chunk)) ≡ go_on (framed (split_on newline rest)) chunk
    → framed (split_on newline ((line ++ newline ∷ rest) ++ chunk))
      ≡ go_on (framed (split_on newline (line ++ newline ∷ rest))) chunk
line-append line rest chunk h e =
    rw
      (
        append_assoc line (newline ∷ rest) chunk,
        split_on-next newline line (rest ++ chunk) h,
        split_on-next newline line rest h,
        framed-next line (rest ++ chunk),
        framed-next line rest,
        e,
      )
      (sym (go_on-cons_cut line (framed (split_on newline rest)) chunk))

framed-append :
    (n : ℕ) (s chunk : Text)
    → length s ≤ n
    → framed (split_on newline (s ++ chunk)) ≡ go_on (framed (split_on newline s)) chunk
framed-append zero [] chunk h = unfold split_on in unfold framed in refl
framed-append zero (c ∷ s) chunk h = absurd (omega arith)
framed-append (suc n) s chunk h = elim (Option-cases (cut s)) [
  | inl e ↦ rw (split_on-last newline s (cut-none s e)) (unfold framed in refl)
  | inr ((line, rest), e) ↦
      let (split, clean) = cut-some s line rest e in
      let shorter = rest-shorter n line rest (subst (λ (u : Text). length u ≤ suc n) split h) in
      subst
        (λ (u : Text).
          framed (split_on newline (u ++ chunk)) ≡ go_on (framed (split_on newline u)) chunk)
        (sym split) (line-append line rest chunk clean (framed-append n rest chunk shorter))
]

cons_cut-buffer : (line : Text) (cuts : Cuts) → (cons_cut line cuts).buffer ≡ cuts.buffer
unfolding cons_cut
cons_cut-buffer line cuts = ground arith

parts_cut-NoCode :
    (p : Text) (ps : List Text)
    → NoCode newline p
    → All (NoCode newline) ps
    → NoCode newline (parts_cut p ps).buffer
unfolding parts_cut
parts_cut-NoCode p [] h k = h
parts_cut-NoCode p (q ∷ qs) h (l, k) =
    rw (cons_cut-buffer p (parts_cut q qs)) (parts_cut-NoCode q qs l k)

framed-NoCode : (ps : List Text) → All (NoCode newline) ps → NoCode newline (framed ps).buffer
unfolding framed
framed-NoCode [] h = unfold has_code in refl
framed-NoCode (p ∷ ps) (h, k) = parts_cut-NoCode p ps h k

framed-buffer : (s : Text) → NoCode newline (framed (split_on newline s)).buffer
framed-buffer s = framed-NoCode (split_on newline s) (split_on-NoCode newline s)

on_chunk-framed :
    (chunk : List ℕ) (buffer : Text)
    → on_chunk chunk buffer ≡ framed (split_on newline (buffer ++ buffer_to_string chunk))
unfolding on_chunk
on_chunk-framed chunk buffer =
    cut_lines-framed (length (buffer ++ buffer_to_string chunk)) (buffer ++ buffer_to_string chunk)
      (omega arith)

on_chunks_lem :
    (chunks : List (List ℕ)) (buffer : Text)
    → NoCode newline buffer
    → on_chunks chunks buffer
      ≡ framed (split_on newline (buffer ++ join_all (map buffer_to_string chunks)))
unfolding on_chunks join_all
on_chunks_lem [] buffer h =
    rw (append-nil buffer, split_on-last newline buffer h) (unfold framed in refl)
on_chunks_lem (chunk ∷ chunks) buffer h =
    let t = buffer_to_string chunk in
    let ts = join_all (map buffer_to_string chunks) in
    let s = buffer ++ t in
    rw
      (
        on_chunk-framed chunk buffer,
        on_chunks_lem chunks (framed (split_on newline s)).buffer (framed-buffer s),
      )
      (sym (framed-append (length s) s ts (omega arith))
        ∙ ap (λ (u : Text). framed (split_on newline u)) (append_assoc buffer t ts))

-- The lines taken off a connection are the parts between the newlines of its chunks, each decoded on
-- its own, less the blank ones.
pub on_chunks-decoded :
    (chunks : List (List ℕ))
    → on_chunks chunks [] ≡ framed (split_on newline (join_all (map buffer_to_string chunks)))
on_chunks-decoded chunks = on_chunks_lem chunks [] (unfold has_code in refl)

-- However the bytes of a connection are cut into chunks that end where a character ends, the lines
-- taken off it are the parts between the newlines of the decoded whole, less the blank ones, and the
-- buffer is what follows the last newline.
pub on_chunks-framed :
    (chunks : List (List ℕ))
    → All IsWhole chunks
    → on_chunks chunks [] ≡ framed (split_on newline (buffer_to_string (join_all chunks)))
on_chunks-framed chunks h = rw (buffer_to_string-join_all chunks h) (on_chunks-decoded chunks)

-- What is written for messages: each with a newline behind it.
unfoldable pub written : List Text → Text
written [] = []
written (m ∷ ms) = m ++ newline ∷ written ms

-- A message with no newline in it that is not blank.
abbrev pub IsMessage : Text → Type 0
IsMessage m = NoCode newline m × ((strip is_space m == []) ≡ false)

pub framed-written :
    (ms : List Text)
    → All IsMessage ms
    → framed (split_on newline (written ms)) ≡ record { lines = ms; buffer = [] }
unfolding written
framed-written [] h = unfold split_on in unfold framed in refl
framed-written (m ∷ ms) ((clean, solid), h) =
    rw (split_on-next newline m (written ms) clean, framed-next m (written ms), framed-written ms h)
      (unfold cons_cut in rw solid refl)

-- Messages whose bytes are written one after the other arrive as they are, whatever the chunks that
-- cut no character.
pub on_chunks-written :
    (ms : List Text) (chunks : List (List ℕ))
    → All IsMessage ms
    → All IsWhole chunks
    → buffer_to_string (join_all chunks) ≡ written ms
    → on_chunks chunks [] ≡ record { lines = ms; buffer = [] }
on_chunks-written ms chunks h w e = rw (on_chunks-framed chunks w, e) (framed-written ms h)
