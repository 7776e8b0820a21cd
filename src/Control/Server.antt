-- ===== src/Control/Server.antt =====
-- `startControlServer` of adapters/session-control.js: where the control socket stands, and `start`
-- and `stop` of its server.
pub mod Connection
pub mod Ends
use inter_agent_bus.Base.{
  ℕ, Bool, true, false, Option, none, some, List, [], ◌∷◌, Text, codes, if◌then◌else◌,
}
use inter_agent_bus.Base.Maps
use inter_agent_bus.Base.Maps.{Map}
use inter_agent_bus.Value.{Value}
use inter_agent_bus.Paths.{join}
use inter_agent_bus.Auth.{write_token}
use inter_agent_bus.Sockets.{first_dir, socket_path_for, clear_session}
use inter_agent_bus.Framing.Serving.{serve_chunks}
use inter_agent_bus.Control.{Outcome, Written, serve_parsed}

-- `resolveControlSocketDir`, with the option, the environment's directory and the home directory.
unfoldable pub resolve_control_socket_dir : Option Text → Option Text → Text → Text
resolve_control_socket_dir explicit env home =
    first_dir explicit env (join (join home (codes ".agent-bus")) (codes "control-sockets"))

-- A control server: its session, its directory, an absolute path, and its token.
pub record ControlServer : Type 0 where
  pub session_id : Text
  pub socket_dir : Text
  pub control_token : Text

-- `startControlServer`; `none` is for its exceptions. `is_function` says whether `handleRequest` is
-- a function.
unfoldable pub start_control_server : Text → Bool → Text → Text → Option ControlServer
start_control_server (c ∷ session_id) true socket_dir token =
    some (record { session_id = c ∷ session_id; socket_dir = socket_dir; control_token = token })
start_control_server session_id is_function socket_dir token = none

-- The server, if there is one, with whether it listens; the files by their paths, where a socket has
-- no text.
pub record Serving : Type 0 where
  pub server : Option Bool
  pub files : Map Text

pub data TokenWrite : Type 0 where
  token_written : TokenWrite
  token_failed : Option Text → TokenWrite

-- The write of the token, and whether it works. One that fails may leave a part of it.
publish_token : ControlServer → TokenWrite → Serving → Serving × Bool
publish_token k token_written s =
    (record s { files = write_token k.socket_dir k.session_id k.control_token s.files }, true)
publish_token k (token_failed none) s = (s, false)
publish_token k (token_failed (some part)) s =
    (record s { files = write_token k.socket_dir k.session_id part s.files }, false)

-- `start`, and whether it returns: `listens` says whether `listen` works. Nothing is given back
-- when it throws.
unfoldable pub start : ControlServer → Bool → TokenWrite → Serving → Serving × Bool
unfolding publish_token
start k listens token s =
    let path = socket_path_for k.socket_dir k.session_id in
    let files = Maps.delete path s.files in
    if listens
    then publish_token k token (record { server = some true; files = Maps.set path [] files })
    else (record { server = some false; files = files }, false)

-- `stop`. The server stays set, and is closed.
unfoldable pub stop : ControlServer → Serving → Serving
stop k s = record {
  server = elim s.server [ none ↦ none | some listening ↦ some false ];
  files = clear_session k.socket_dir k.session_id s.files;
}

-- A connection of the server: each line is parsed and served, one after another. The session's
-- handler is run to its end.
unfoldable pub serve_line {ℓ} :
    {S : Type ℓ}
    → (Text → Option Value)
    → (Value → S → S × Outcome)
    → Text
    → Bool
    → Text
    → S
    → S × Written
unfolding serve_parsed
serve_line parse handle_request token logs line s =
    serve_parsed handle_request token logs (parse line) s

unfoldable pub handle_connection {ℓ} :
    {S : Type ℓ}
    → (Text → Option Value)
    → (Value → S → S × Outcome)
    → Text
    → Bool
    → List (List ℕ)
    → S
    → S × List Written
unfolding serve_chunks serve_line
handle_connection parse handle_request token logs chunks s =
    serve_chunks (serve_line parse handle_request token logs) chunks [] s
