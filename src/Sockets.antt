-- ===== src/Sockets.antt =====
-- The two files that a session has in a directory of sockets: its socket and its token file
-- (adapters/session-control.js, adapters/claude-pty/sidecar.js, adapters/codex-pty/sidecar.js).
use inter_agent_bus.Base.{Option, none, some, ◌∷◌, ◌++◌, Text, codes, ◌==◌, ◌≡◌, ◌∙◌, false, arith}
use inter_agent_bus.Base.Maps
use inter_agent_bus.Base.Maps.{Map}
use inter_agent_bus.Paths.{join}
use inter_agent_bus.Auth.{token_path_for, remove_token}

-- The first directory that is given, by the caller or by the environment, or else the default; an
-- empty text counts as none.
unfoldable pub first_dir : Option Text → Option Text → Text → Text
first_dir (some (c ∷ dir)) env default = c ∷ dir
first_dir _ (some (c ∷ dir)) default = c ∷ dir
first_dir _ _ default = default

-- `<dir>/<sessionId>.sock`, for an absolute path `dir`.
unfoldable pub socket_path_for : Text → Text → Text
socket_path_for dir session_id = join dir (session_id ++ codes ".sock")

-- Both files are removed.
unfoldable pub clear_session : Text → Text → Map Text → Map Text
clear_session dir session_id files =
    remove_token dir session_id (Maps.delete (socket_path_for dir session_id) files)

module _ (dir session_id : Text) (files : Map Text) where
  pub clear_session-socket :
      Maps.get (socket_path_for dir session_id) (clear_session dir session_id files) ≡ none
  unfolding clear_session remove_token
  clear_session-socket =
      let path = socket_path_for dir session_id in
      rw (Maps.get-delete (token_path_for dir session_id) path (Maps.delete path files))
        (ground (arith, Maps.get-delete_self path files))

  pub clear_session-token :
      Maps.get (token_path_for dir session_id) (clear_session dir session_id files) ≡ none
  unfolding clear_session remove_token
  clear_session-token =
      Maps.get-delete_self (token_path_for dir session_id)
        (Maps.delete (socket_path_for dir session_id) files)

  pub clear_session-others :
      (j : Text)
      → (socket_path_for dir session_id == j) ≡ false
      → (token_path_for dir session_id == j) ≡ false
      → Maps.get j (clear_session dir session_id files) ≡ Maps.get j files
  unfolding clear_session remove_token
  clear_session-others j h k =
      let path = socket_path_for dir session_id in
      Maps.get-delete_ne (token_path_for dir session_id) j (Maps.delete path files) k
      ∙ Maps.get-delete_ne path j files h

-- No file but the session's own two differs.
abbrev pub SameElsewhere : Text → Text → Map Text → Map Text → Type 0
SameElsewhere dir session_id files files' =
    (j : Text)
    → Maps.get j (clear_session dir session_id files')
      ≡ Maps.get j (clear_session dir session_id files)

module _ (dir session_id : Text) (files files' : Map Text) where
  pub clear_session-SameElsewhere :
      ((j : Text)
        → (socket_path_for dir session_id == j) ≡ false
        → (token_path_for dir session_id == j) ≡ false
        → Maps.get j files' ≡ Maps.get j files)
      → SameElsewhere dir session_id files files'
  unfolding clear_session remove_token
  clear_session-SameElsewhere h j =
      let path = socket_path_for dir session_id in
      let token = token_path_for dir session_id in
      ground (
        arith,
        Maps.get-delete token j (Maps.delete path files'),
        Maps.get-delete token j (Maps.delete path files),
        Maps.get-delete path j files',
        Maps.get-delete path j files,
        h j,
      )
