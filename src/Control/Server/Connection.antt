-- ===== src/Control/Server/Connection.antt =====
-- What a connection without the control token can do.
use inter_agent_bus.Base.{
  ℕ, Bool, Option, Option-cases, none, some, List, [], ◌∷◌, ◌≡◌, ◌≢◌, refl, All, Text, map,
  if◌then◌else◌, inl, inr, ◌∙◌,
}
use inter_agent_bus.Value.{Value, str, get_prop}
use inter_agent_bus.Auth.Exact.{IsAscii}
use inter_agent_bus.Strings.Split.{split_on}
use inter_agent_bus.Framing.{newline}
use inter_agent_bus.Framing.Decoder.{buffer_to_string}
use inter_agent_bus.Framing.Whole.{join_all}
use inter_agent_bus.Framing.Chunks.{framed}
use inter_agent_bus.Framing.Serving.{serve_lines, serve_chunks-decoded}
use inter_agent_bus.Control.{
  Outcome, Written, invalid_json, unauthorized, is_privileged, write_outcome, serve_parsed,
}
use inter_agent_bus.Control.Gate.{LeavesOthers, serve_parsed-unauthorized}
use inter_agent_bus.Control.Server.{serve_line, handle_connection}

-- The lines that a connection handles: those of its chunks, each decoded on its own.
abbrev pub lines_of : List (List ℕ) → List Text
lines_of chunks = (framed (split_on newline (join_all (map buffer_to_string chunks)))).lines

-- The line is no request with the token.
abbrev pub LacksToken : (Text → Option Value) → Text → Text → Type 0
LacksToken parse token line =
    (req : Value) → parse line ≡ some req → get_prop "auth" req ≢ str token

module _ {ℓ} {S : Type ℓ} (parse : Text → Option Value) (handle_request : Value → S → S × Outcome)
    (token : Text) (logs : Bool) where
  -- What is written where nothing privileged is handled.
  abbrev pub written_without : S → Option Value → Written
  written_without s none = invalid_json
  written_without s (some req) =
      if is_privileged (get_prop "type" req)
      then unauthorized
      else (write_outcome logs req (handle_request req s)).1

  serve_line-unauthorized :
      (line : Text) (s : S)
      → IsAscii token
      → LeavesOthers handle_request token logs
      → LacksToken parse token line
      → serve_line parse handle_request token logs line s ≡ (s, written_without s (parse line))
  unfolding serve_line
  serve_line-unauthorized line s h leaves lacks = elim (Option-cases (parse line)) [
    | inl e ↦ rw e (unfold serve_parsed in refl)
    | inr (req, e) ↦
        let (state, out) =
          serve_parsed-unauthorized handle_request token logs req s h leaves (lacks req e) in
        rw e (λ i. (state i, out i))
  ]

  serve_lines-unauthorized :
      (lines : List Text) (s : S)
      → IsAscii token
      → LeavesOthers handle_request token logs
      → All (LacksToken parse token) lines
      → serve_lines (serve_line parse handle_request token logs) lines s
        ≡ (s, map (λ (line : Text). written_without s (parse line)) lines)
  unfolding serve_lines
  serve_lines-unauthorized [] s h leaves lacks = refl
  serve_lines-unauthorized (line ∷ lines) s h leaves (lack, lacks) =
      rw
        (
          serve_line-unauthorized line s h leaves lack,
          serve_lines-unauthorized lines s h leaves lacks,
        )
        refl

  -- A connection on which no line is a request with the control token leaves the session as it is,
  -- if the session's handler changes it only on privileged requests. It is answered line by line: a privileged request is rejected and never handled, any
  -- other is answered by what the handler makes of it, and a line that cannot be parsed is
  -- invalid.
  pub handle_connection-unauthorized :
      (chunks : List (List ℕ)) (s : S)
      → IsAscii token
      → LeavesOthers handle_request token logs
      → All (LacksToken parse token) (lines_of chunks)
      → handle_connection parse handle_request token logs chunks s
        ≡ (s, map (λ (line : Text). written_without s (parse line)) (lines_of chunks))
  unfolding handle_connection
  handle_connection-unauthorized chunks s h leaves lacks =
      serve_chunks-decoded (serve_line parse handle_request token logs) chunks s
      ∙ serve_lines-unauthorized (lines_of chunks) s h leaves lacks
