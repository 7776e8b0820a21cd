-- ===== src/Paths.antt =====
-- `path.resolve` and `path.join` of the program's platform (POSIX), and `resolveDeliverySocketPath`
-- of broker/broker.js, which ties a delivery socket to the session that registers it.
pub mod Normal
pub mod Bound
pub mod Escape
mod Tests
use mathlib.Core.List.{reverse}
use inter_agent_bus.Base.{
  ℕ, Bool, true, false, ◌&&◌, ◌||◌, Option, none, some, List, [], ◌∷◌, ◌++◌, Text, codes, ◌==◌, eqb,
  has_code, if◌then◌else◌,
}
use inter_agent_bus.Strings.Split.{split_on}
use inter_agent_bus.Value.{Value, str}

abbrev pub slash : ℕ
slash = b'/'

abbrev pub split_slash : Text → List Text
split_slash = split_on slash

unfoldable pub parent : List Text → List Text
parent [] = []
parent (d ∷ ds) = ds

-- One part of a path that is being normalised; the stack has the last directory at its head.
unfoldable pub resolve_part : List Text → Text → List Text
unfolding parent
resolve_part stack part =
    if part == [] || part == codes "."
    then stack
    else if part == codes ".."
    then parent stack
    else part ∷ stack

unfoldable pub resolve_parts : List Text → List Text → List Text
unfolding resolve_part
resolve_parts stack [] = stack
resolve_parts stack (p ∷ ps) = resolve_parts (resolve_part stack p) ps

-- The absolute path with these directories, outermost first.
unfoldable pub render_parts : List Text → Text
render_parts [] = []
render_parts (p ∷ ps) = slash ∷ (p ++ render_parts ps)

unfoldable pub render : List Text → Text
unfolding render_parts
render [] = slash ∷ []
render (p ∷ ps) = render_parts (p ∷ ps)

unfoldable pub is_absolute : Text → Bool
is_absolute [] = false
is_absolute (c ∷ s) = eqb c slash

-- `path.resolve(base, p)` for an absolute `base`, as the stack of its directories.
unfoldable pub resolve_stack : Text → Text → List Text
resolve_stack base p =
    if is_absolute p
    then resolve_parts [] (split_slash p)
    else resolve_parts (resolve_parts [] (split_slash base)) (split_slash p)

unfoldable pub resolve : Text → Text → Text
resolve base p = render (reverse (resolve_stack base p))

-- `path.join(base, p)` for an absolute `base` and a `p` with no slash at its end.
unfoldable pub join : Text → Text → Text
join base p = render (reverse (resolve_parts (resolve_parts [] (split_slash base)) (split_slash p)))

-- What the broker's environment sets: the working directory, `ADAPTER_SOCKETS_DIR` and
-- `ALLOW_UNBOUND_DELIVERY_SOCKET`.
pub record PathConfig : Type 0 where
  pub cwd : Text
  pub adapter_sockets_dir : Text
  pub allow_unbound_delivery_socket : Bool

unfoldable pub includes : Text → List Text → Bool
includes p [] = false
includes p (q ∷ qs) = if q == p then true else includes p qs

-- `path.resolve(ADAPTER_SOCKETS_DIR)`
unfoldable pub sockets_root : PathConfig → Text
sockets_root c = resolve c.cwd c.adapter_sockets_dir

-- `<root>/<sessionId>.sock`
unfoldable pub expected_socket : PathConfig → Text → Text
expected_socket c session_id = join (sockets_root c) (session_id ++ codes ".sock")

resolve_text : PathConfig → Text → Text → Option Text
resolve_text c session_id [] = none
resolve_text c session_id (x ∷ s) =
    let socket_path = x ∷ s in
    if has_code 0 socket_path
    then none
    else if c.allow_unbound_delivery_socket
    then (if includes (codes "..") (split_slash socket_path)
        then none
        else some (resolve c.cwd socket_path))
    else let resolved = resolve (sockets_root c) socket_path in
      if resolved == expected_socket c session_id then some resolved else none

unfoldable pub resolve_delivery_socket_path : PathConfig → Text → Value → Option Text
unfolding resolve_text
resolve_delivery_socket_path c session_id (str s) = resolve_text c session_id s
resolve_delivery_socket_path c session_id _ = none
