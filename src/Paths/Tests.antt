-- ===== src/Paths/Tests.antt =====
-- The theorems on delivery sockets below /run/adapters.
use inter_agent_bus.Base.{false, [], ◌∷◌, ◌++◌, ◌≡◌, ◌≢◌, refl, some, Text, codes, ◌==◌, has_code}
use inter_agent_bus.Value.{str}
use inter_agent_bus.Strings.Split.{split_on}
use inter_agent_bus.Paths.{
  PathConfig, resolve_delivery_socket_path, render, resolve, resolve_parts, sockets_root,
  expected_socket, join, resolve_stack, is_absolute,
}
use inter_agent_bus.Paths.Normal.{IsPart, resolved_dirs}
use inter_agent_bus.Paths.Bound.{root_dirs, bound_socket, sock, resolve_delivery_socket_path-bound}
use inter_agent_bus.Paths.Escape.{resolve_delivery_socket_path-escapes}

abbrev paths : PathConfig
paths = record {
  cwd = codes "/";
  adapter_sockets_dir = codes "/run/adapters";
  allow_unbound_delivery_socket = false;
}

abbrev own_socket : Text
own_socket = codes "/run/adapters/a.sock"

own_socket-accepted :
    resolve_delivery_socket_path paths (codes "a") (str own_socket) ≡ some own_socket
unfolding resolve_delivery_socket_path sockets_root expected_socket has_code ◌==◌ resolve render
    resolve_stack is_absolute resolve_parts split_on join
own_socket-accepted = refl

resolve_delivery_socket_path-bound_example : own_socket ≡ bound_socket paths (codes "a")
unfolding has_code
resolve_delivery_socket_path-bound_example =
    resolve_delivery_socket_path-bound paths (codes "a") (str own_socket) own_socket refl refl
      own_socket-accepted

abbrev outside : Text
outside = render (codes "run" ∷ (codes "broker" ++ sock) ∷ [])

resolve_delivery_socket_path-escapes_example :
    (resolve_delivery_socket_path paths (codes "../" ++ codes "broker") (str outside)
      ≡ some outside)
    × ((file : Text) → IsPart file → outside ≢ render (root_dirs paths ++ file ∷ []))
unfolding has_code root_dirs resolved_dirs resolve_stack is_absolute resolve_parts split_on ◌==◌
    render
resolve_delivery_socket_path-escapes_example =
    resolve_delivery_socket_path-escapes paths (codes "run" ∷ []) (codes "adapters")
      (codes "broker") refl refl refl refl
