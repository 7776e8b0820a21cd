-- ===== src/Control/Server/Ends.antt =====
-- What a start of the control server publishes, and what a stop leaves.
use inter_agent_bus.Base.{Bool, true, false, none, some, [], ◌≡◌, refl, ◌∙◌, Text, ◌==◌}
use inter_agent_bus.Base.Maps
use inter_agent_bus.Auth.{token_path_for, write_token}
use inter_agent_bus.Sockets.{
  SameElsewhere, clear_session-SameElsewhere, socket_path_for, clear_session-socket,
  clear_session-token, clear_session-others,
}
use inter_agent_bus.Control.Server.{
  ControlServer, Serving, TokenWrite, token_written, token_failed, start, stop, publish_token,
}

module _ (k : ControlServer) where
  abbrev pub control_socket : Text
  control_socket = socket_path_for k.socket_dir k.session_id

  abbrev pub control_token_file : Text
  control_token_file = token_path_for k.socket_dir k.session_id

  -- No path but the socket's and the token's has changed.
  abbrev pub Spares : Serving → Serving → Type 0
  Spares s s' =
      (j : Text)
      → (control_socket == j) ≡ false
      → (control_token_file == j) ≡ false
      → Maps.get j s'.files ≡ Maps.get j s.files

  publish_token-Spares : (token : TokenWrite) (s : Serving) → Spares s (publish_token k token s).0
  unfolding publish_token write_token
  publish_token-Spares token_written s j h n =
      Maps.get-set_ne control_token_file j k.control_token s.files n
  publish_token-Spares (token_failed none) s j h n = refl
  publish_token-Spares (token_failed (some part)) s j h n =
      Maps.get-set_ne control_token_file j part s.files n

  start-Spares :
      (listens : Bool) (token : TokenWrite) (s : Serving) → Spares s (start k listens token s).0
  unfolding start
  start-Spares true token s j h n =
      publish_token-Spares token
        (record {
          server = some true;
          files = Maps.set control_socket [] (Maps.delete control_socket s.files);
        })
        j h n
      ∙ Maps.get-set_ne control_socket j [] (Maps.delete control_socket s.files) h
      ∙ Maps.get-delete_ne control_socket j s.files h
  start-Spares false token s j h n = Maps.get-delete_ne control_socket j s.files h

  -- A start that returns has published the token, and the server listens.
  start-IsUp :
      (listens : Bool) (token : TokenWrite) (s : Serving)
      → let (up, returns) = start k listens token s in
        returns ≡ true
        → (up.server ≡ some true) × (Maps.get control_token_file up.files ≡ some k.control_token)
  unfolding start publish_token write_token
  start-IsUp false token s h = cc
  start-IsUp true token_written s h = (
    refl,
    Maps.get-set_self control_token_file k.control_token
        (Maps.set control_socket [] (Maps.delete control_socket s.files)),
  )
  start-IsUp true (token_failed none) s h = cc
  start-IsUp true (token_failed (some part)) s h = cc

  start-server :
      (listens : Bool) (token : TokenWrite) (s : Serving)
      → (stop k (start k listens token s).0).server ≡ some false
  unfolding start publish_token stop
  start-server false token s = refl
  start-server true token_written s = refl
  start-server true (token_failed none) s = refl
  start-server true (token_failed (some part)) s = refl

  -- A control server that is started and then stopped leaves no socket file and no token file, also
  -- where the start throws half way, and no server that listens; no other file has changed.
  pub stop-start :
      (listens : Bool) (token : TokenWrite) (s : Serving)
      → let down = stop k (start k listens token s).0 in
        (down.server ≡ some false)
        × (Maps.get control_socket down.files ≡ none)
        × (Maps.get control_token_file down.files ≡ none)
        × SameElsewhere k.socket_dir k.session_id s.files down.files
  unfolding stop
  stop-start listens token s =
      let up = (start k listens token s).0 in
      (
        start-server listens token s,
        clear_session-socket k.socket_dir k.session_id up.files,
        clear_session-token k.socket_dir k.session_id up.files,
        clear_session-SameElsewhere k.socket_dir k.session_id s.files (stop k up).files (λ j h n.
            clear_session-others k.socket_dir k.session_id up.files j h n
            ∙ start-Spares listens token s j h n),
      )
