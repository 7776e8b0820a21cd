-- ===== src/Framing/Serving.antt =====
-- A connection whose lines are handled one after another: `processing = processing.then(...)` in
-- the sidecars and in adapters/session-control.js. Each line waits for the one before.
use inter_agent_bus.Base.{ℕ, map, List, [], ◌∷◌, ◌++◌, ◌≡◌, refl, ap, ◌∙◌, sym, Text}
use inter_agent_bus.Strings.Split.{split_on}
use inter_agent_bus.Framing.{newline, Cuts, on_chunk, on_chunks}
use inter_agent_bus.Framing.Decoder.{buffer_to_string}
use inter_agent_bus.Framing.Whole.{join_all}
use inter_agent_bus.Framing.Chunks.{framed, on_chunks-decoded}

module _ {ℓ κ} {S : Type ℓ} {W : Type κ} (handle : Text → S → S × W) where
  -- What is written for the lines, in order.
  unfoldable pub serve_lines : List Text → S → S × List W
  serve_lines [] s = (s, [])
  serve_lines (line ∷ lines) s =
      let (s', w) = handle line s in let (s'', ws) = serve_lines lines s' in (s'', w ∷ ws)

  -- The chunks of a connection arrive one by one; the buffer is what the last one left.
  unfoldable pub serve_chunks : List (List ℕ) → Text → S → S × List W
  unfolding serve_lines
  serve_chunks [] buffer s = (s, [])
  serve_chunks (chunk ∷ chunks) buffer s =
      let cuts = on_chunk chunk buffer in
      let (s', ws) = serve_lines cuts.lines s in
      let (s'', vs) = serve_chunks chunks cuts.buffer s' in (s'', ws ++ vs)

  serve_lines-append :
      (xs ys : List Text) (s : S)
      → serve_lines (xs ++ ys) s
        ≡ (let (s', ws) = serve_lines xs s in let (s'', vs) = serve_lines ys s' in (s'', ws ++ vs))
  unfolding serve_lines
  serve_lines-append [] ys s = refl
  serve_lines-append (x ∷ xs) ys s = rw (serve_lines-append xs ys (handle x s).0) refl

  serve_chunks-lines :
      (chunks : List (List ℕ)) (buffer : Text) (s : S)
      → serve_chunks chunks buffer s ≡ serve_lines (on_chunks chunks buffer).lines s
  unfolding serve_chunks on_chunks
  serve_chunks-lines [] buffer s = refl
  serve_chunks-lines (chunk ∷ chunks) buffer s =
      let cuts = on_chunk chunk buffer in
      let (s', ws) = serve_lines cuts.lines s in
      ap (λ (r : S × List W). (r.0, ws ++ r.1)) (serve_chunks-lines chunks cuts.buffer s')
      ∙ sym (serve_lines-append cuts.lines (on_chunks chunks cuts.buffer).lines s)

  -- The parts between the newlines of a connection's chunks, each decoded on its own, are handled one
  -- after another in order, less the blank ones, each on what the one before has left, and what is
  -- written for them is written in that order.
  pub serve_chunks-decoded :
      (chunks : List (List ℕ)) (s : S)
      → serve_chunks chunks [] s
        ≡ serve_lines (framed (split_on newline (join_all (map buffer_to_string chunks)))).lines s
  serve_chunks-decoded chunks s =
      serve_chunks-lines chunks [] s
      ∙ ap (λ (c : Cuts). serve_lines c.lines s) (on_chunks-decoded chunks)
