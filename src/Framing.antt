-- ===== src/Framing.antt =====
-- The framing that every connection of the program shares (`handleConnection` of broker/broker.js,
-- of the sidecars and of adapters/session-control.js, and `_onData` of client/client.js): a chunk
-- is decoded and put on the buffer, and each line that the buffer holds is taken off it and handled
-- in turn.
pub mod Decoder
pub mod Whole
pub mod Chunks
pub mod Written
pub mod Serving
mod Tests
use inter_agent_bus.Base.{
  ℕ, zero, suc, Bool, true, false, Option, none, some, List, [], ◌∷◌, ◌++◌, Text, ◌==◌, eqb, length,
  if◌then◌else◌,
}
use inter_agent_bus.Strings.{is_space}
use inter_agent_bus.Strings.Runs.{strip}
use inter_agent_bus.Framing.Decoder.{buffer_to_string}

abbrev pub newline : ℕ
newline = 10

cons_line : ℕ → Option (Text × Text) → Option (Text × Text)
cons_line c none = none
cons_line c (some (line, rest)) = some (c ∷ line, rest)

-- The text before and behind the first newline: `indexOf('\n')` with the two calls of `slice`.
cut : Text → Option (Text × Text)
unfolding cons_line
cut [] = none
cut (c ∷ s) = if eqb c newline then some ([], s) else cons_line c (cut s)

-- What the loop has taken off the buffer, and what it leaves there.
pub record Cuts : Type 0 where
  pub lines : List Text
  pub buffer : Text

cons_cut : Text → Cuts → Cuts
cons_cut line cuts =
    if strip is_space line == [] then cuts else record cuts { lines = line ∷ cuts.lines }

-- `while ((nl = buffer.indexOf('\n')) !== -1)`, with blank lines left out.
cut_lines : ℕ → Text → Cuts
cut_lines zero buffer = record { lines = []; buffer = buffer }
cut_lines (suc fuel) buffer = elim (cut buffer) [
  | none ↦ record { lines = []; buffer = buffer }
  | some (line, rest) ↦ cons_cut line (cut_lines fuel rest)
]

-- A chunk of bytes arrives: `buffer += chunk.toString()`, and the loop. It takes at least the newline
-- off the buffer, so that its length is fuel enough.
pub on_chunk : List ℕ → Text → Cuts
on_chunk chunk buffer = let s = buffer ++ buffer_to_string chunk in cut_lines (length s) s

-- The chunks of a connection, one by one: the lines of them all, and the buffer at the end.
unfoldable pub on_chunks : List (List ℕ) → Text → Cuts
on_chunks [] buffer = record { lines = []; buffer = buffer }
on_chunks (chunk ∷ chunks) buffer =
    let now = on_chunk chunk buffer in
    let later = on_chunks chunks now.buffer in
    record { lines = now.lines ++ later.lines; buffer = later.buffer }
