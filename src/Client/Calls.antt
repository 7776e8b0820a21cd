-- ===== src/Client/Calls.antt =====
-- Answers settle the calls in the order in which they were made.
use mathlib.Core.List.{append_assoc, append-nil}
use inter_agent_bus.Base.{
  ℕ, false, Option, none, some, List, [], ◌∷◌, ◌++◌, ◌≡◌, refl, ap, sym, ◌∙◌, Text, length, drop,
  All, arith,
}
use inter_agent_bus.Value.{Value, is_nullish}
use inter_agent_bus.Framing.{Cuts, on_chunk, on_chunks}
use inter_agent_bus.Framing.Chunks.{written, IsMessage, on_chunks-written}
use inter_agent_bus.Framing.Decoder.{buffer_to_string, IsWhole}
use inter_agent_bus.Framing.Whole.{join_all}
use inter_agent_bus.Client.{
  Settled, invalid_response, Session, settle_call, settle_parsed, settle_next, on_line, on_lines,
  on_data,
}

-- How a line settles a call.
abbrev pub settled_by : Option Value → Settled
settled_by none = invalid_response
settled_by (some response) = settle_call response

-- The calls that these lines settle, first to first.
unfoldable pub matched : (Text → Option Value) → List Text → List ℕ → List (ℕ × Settled)
matched parse [] calls = []
matched parse (line ∷ lines) [] = []
matched parse (line ∷ lines) (call ∷ calls) =
    (call, settled_by (parse line)) ∷ matched parse lines calls

-- A line that is not the answer `null`.
abbrev pub IsAnswer : (Text → Option Value) → Text → Type 0
IsAnswer parse line = (response : Value) → parse line ≡ some response → is_nullish response ≡ false

-- A session whose program still runs.
abbrev pub running : Text → List ℕ → List (ℕ × Settled) → Session
running buffer pending settled = record {
  buffer = buffer;
  pending = pending;
  settled = settled;
  down = false;
}

settle_parsed-answer :
    (parsed : Option Value) (call : ℕ) (calls : List ℕ) (s : Session)
    → ((response : Value) → parsed ≡ some response → is_nullish response ≡ false)
    → settle_parsed parsed call calls s
      ≡ record s { pending = calls; settled = s.settled ++ (call, settled_by parsed) ∷ [] }
unfolding settle_parsed
settle_parsed-answer none call calls s h = refl
settle_parsed-answer (some response) call calls s h = rw (h response refl) refl

on_line-answer :
    (parse : Text → Option Value) (line buffer : Text) (call : ℕ) (calls : List ℕ)
    (settled : List (ℕ × Settled))
    → IsAnswer parse line
    → on_line parse line (running buffer (call ∷ calls) settled)
      ≡ running buffer calls (settled ++ (call, settled_by (parse line)) ∷ [])
unfolding on_line
on_line-answer parse line buffer call calls settled h =
    settle_parsed-answer (parse line) call calls (running buffer (call ∷ calls) settled) h

on_lines-idle :
    (parse : Text → Option Value) (lines : List Text) (buffer : Text) (settled : List (ℕ × Settled))
    → on_lines parse lines (running buffer [] settled) ≡ running buffer [] settled
unfolding on_lines on_line
on_lines-idle parse [] buffer settled = refl
on_lines-idle parse (line ∷ lines) buffer settled = on_lines-idle parse lines buffer settled

on_lines-answers :
    (parse : Text → Option Value) (lines : List Text) (buffer : Text) (calls : List ℕ)
    (settled : List (ℕ × Settled))
    → All (IsAnswer parse) lines
    → on_lines parse lines (running buffer calls settled)
      ≡ running buffer (drop (length lines) calls) (settled ++ matched parse lines calls)
unfolding matched on_lines
on_lines-answers parse [] buffer calls settled h = rw (append-nil settled) refl
on_lines-answers parse (line ∷ lines) buffer [] settled h =
    rw (append-nil settled) (on_lines-idle parse (line ∷ lines) buffer settled)
on_lines-answers parse (line ∷ lines) buffer (call ∷ calls) settled (h, hs) =
    ap (on_lines parse lines) (on_line-answer parse line buffer call calls settled h)
    ∙ (on_lines-answers parse lines buffer calls (settled ++ (call, settled_by (parse line)) ∷ [])
          hs
        ∙ ap (running buffer (drop (length lines) calls)) (
            append_assoc settled ((call, settled_by (parse line)) ∷ [])
              (matched parse lines calls)))

-- Lines leave the buffer alone, and do not look at it.
abbrev buffered : Text → Session → Session
buffered buffer s = record s { buffer = buffer }

on_line-buffered :
    (parse : Text → Option Value) (line buffer : Text) (s : Session)
    → on_line parse line (buffered buffer s) ≡ buffered buffer (on_line parse line s)
unfolding on_line settle_next settle_parsed
on_line-buffered parse line buffer s = ground arith

on_lines-buffered :
    (parse : Text → Option Value) (lines : List Text) (buffer : Text) (s : Session)
    → on_lines parse lines (buffered buffer s) ≡ buffered buffer (on_lines parse lines s)
unfolding on_lines
on_lines-buffered parse [] buffer s = refl
on_lines-buffered parse (line ∷ lines) buffer s =
    ap (on_lines parse lines) (on_line-buffered parse line buffer s)
    ∙ on_lines-buffered parse lines buffer (on_line parse line s)

on_lines-append :
    (parse : Text → Option Value) (xs ys : List Text) (s : Session)
    → on_lines parse (xs ++ ys) s ≡ on_lines parse ys (on_lines parse xs s)
unfolding on_lines
on_lines-append parse [] ys s = refl
on_lines-append parse (x ∷ xs) ys s = on_lines-append parse xs ys (on_line parse x s)

-- The chunks of a connection, one by one.
unfoldable pub on_all : (Text → Option Value) → List (List ℕ) → Session → Session
on_all parse [] s = s
on_all parse (chunk ∷ chunks) s = on_all parse chunks (on_data parse chunk s)

on_all-lines :
    (parse : Text → Option Value) (chunks : List (List ℕ)) (s : Session)
    → on_all parse chunks s
      ≡ on_lines parse
          (on_chunks chunks s.buffer).lines
          (buffered (on_chunks chunks s.buffer).buffer s)
unfolding on_all on_chunks on_data
on_all-lines parse [] s = unfold on_lines in refl
on_all-lines parse (chunk ∷ chunks) s =
    let cuts = on_chunk chunk s.buffer in
    let later = on_chunks chunks cuts.buffer in
    let s' = buffered cuts.buffer (on_lines parse cuts.lines s) in
    ap (on_all parse chunks) (on_lines-buffered parse cuts.lines cuts.buffer s)
    ∙ (on_all-lines parse chunks s'
        ∙ (ap (on_lines parse later.lines) (sym (on_lines-buffered parse cuts.lines later.buffer s))
            ∙ sym (on_lines-append parse cuts.lines later.lines (buffered later.buffer s))))

-- While the calls wait, answers, none of them `null`, settle them first to first, if they arrive in
-- chunks of bytes that cut no character and that decode to the answers one after the other, each
-- with a newline behind it, and no answer has a newline in it or is blank: an answer that does not
-- parse settles its call as invalid, and answers with no call are dropped.
pub on_all-matched :
    (parse : Text → Option Value) (ms : List Text) (chunks : List (List ℕ)) (calls : List ℕ)
    (settled : List (ℕ × Settled))
    → All IsMessage ms
    → All (IsAnswer parse) ms
    → All IsWhole chunks
    → buffer_to_string (join_all chunks) ≡ written ms
    → on_all parse chunks (running [] calls settled)
      ≡ running [] (drop (length ms) calls) (settled ++ matched parse ms calls)
on_all-matched parse ms chunks calls settled h k w e =
    on_all-lines parse chunks (running [] calls settled)
    ∙ (ap (λ (cuts : Cuts). on_lines parse cuts.lines (running cuts.buffer calls settled))
          (on_chunks-written ms chunks h w e)
        ∙ on_lines-answers parse ms [] calls settled k)
