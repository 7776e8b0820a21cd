-- ===== src/Address.antt =====
-- Where the broker listens and where a client looks for it: `SOCKET_PATH` of broker/broker.js and
-- `resolveSocketPath` of client/client.js. A variable that is set to the empty text counts as unset.
use inter_agent_bus.Base.{Option, none, some, [], ◌∷◌, ◌≡◌, refl, Text, codes}
use inter_agent_bus.Paths.{join}
use inter_agent_bus.Sockets.{first_dir}

-- `AGENT_BUS_SOCKET`, `AGENT_BUS_STATE_DIR` and the home directory, an absolute path.
pub record Environment : Type 0 where
  pub socket : Option Text
  pub state_dir : Option Text
  pub home : Text

unfoldable pub default_state_dir : Environment → Text
default_state_dir e = join e.home (codes ".agent-bus")

-- `STATE_DIR` of the broker.
unfoldable pub state_dir_of : Environment → Text
state_dir_of e = first_dir none e.state_dir (default_state_dir e)

-- `SOCKET_PATH` of the broker.
unfoldable pub broker_socket : Environment → Text
broker_socket e = first_dir none e.socket (join (state_dir_of e) (codes "broker.sock"))

state_socket : Environment → Option Text → Text
state_socket e (some (c ∷ dir)) = join (c ∷ dir) (codes "broker.sock")
state_socket e _ = join (default_state_dir e) (codes "broker.sock")

-- `resolveSocketPath` of the client, with the path that its user gives, if any.
unfoldable pub resolve_socket_path : Environment → Option Text → Text
unfolding state_socket
resolve_socket_path e explicit = first_dir e.socket explicit (state_socket e e.state_dir)

-- A client that is given no path looks for the broker where a broker of the same environment
-- listens.
pub resolve_socket_path-broker : (e : Environment) → resolve_socket_path e none ≡ broker_socket e
unfolding resolve_socket_path broker_socket state_socket state_dir_of first_dir
resolve_socket_path-broker e = go e.socket e.state_dir
  where
    go :
        (socket dir : Option Text)
        → first_dir socket none (state_socket e dir)
          ≡ first_dir none socket
              (join (first_dir none dir (default_state_dir e)) (codes "broker.sock"))
    go none none = refl
    go none (some []) = refl
    go none (some (c ∷ d)) = refl
    go (some []) none = refl
    go (some []) (some []) = refl
    go (some []) (some (c ∷ d)) = refl
    go (some (x ∷ s)) dir = refl
