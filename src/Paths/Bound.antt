-- ===== src/Paths/Bound.antt =====
-- With a session id that is a plain file name, the broker dials the one socket of the trusted
-- directory that is named after the session, and no other.
use inter_agent_bus.Base.{
  ℕ, false, some, List, [], ◌∷◌, ◌++◌, ◌≡◌, refl, sym, ap, ◌∙◌, Text, codes, ◌==◌, ==_iff, ==_refl,
  has_code, All, All-append, arith,
}
use inter_agent_bus.Value.{Value, str}
use inter_agent_bus.Paths.{
  slash, render, resolve, sockets_root, expected_socket, PathConfig, resolve_text,
  resolve_delivery_socket_path,
}
use inter_agent_bus.Paths.Normal.{
  NoSlash, IsPart, resolved_dirs, resolved_dirs-IsPart, resolve-render, join-part,
}

-- The directories of the trusted root.
unfoldable pub root_dirs : PathConfig → List Text
unfolding resolved_dirs
root_dirs c = resolved_dirs c.cwd c.adapter_sockets_dir

pub sockets_root-render : (c : PathConfig) → sockets_root c ≡ render (root_dirs c)
unfolding sockets_root resolve root_dirs
sockets_root-render c = refl

pub root_dirs-IsPart : (c : PathConfig) → All IsPart (root_dirs c)
unfolding root_dirs
root_dirs-IsPart c = unfold resolved_dirs in resolved_dirs-IsPart c.cwd c.adapter_sockets_dir

abbrev pub sock : Text
sock = codes ".sock"

sock-ne-nil : (s : Text) → (s ++ sock == []) ≡ false
unfolding ◌==◌
sock-ne-nil [] = refl
sock-ne-nil (c ∷ s) = refl

sock-ne-one : (s : Text) (d : ℕ) → (s ++ sock == d ∷ []) ≡ false
unfolding ◌==◌
sock-ne-one [] d = ground arith
sock-ne-one (c ∷ s) d = ground (arith, sock-ne-nil s)

sock-ne-two : (s : Text) (d e : ℕ) → (s ++ sock == d ∷ e ∷ []) ≡ false
unfolding ◌==◌
sock-ne-two [] d e = ground arith
sock-ne-two (c ∷ s) d e = ground (arith, sock-ne-one s e)

has_code-append :
    (x : ℕ) (s t : Text) → has_code x s ≡ false → has_code x t ≡ false → has_code x (s ++ t) ≡ false
unfolding has_code
has_code-append x [] t h k = k
has_code-append x (c ∷ s) t h k = ground (arith, has_code-append x s t)

pub sock-IsPart : (s : Text) → NoSlash s → IsPart (s ++ sock)
sock-IsPart s h = record {
  no_slash = has_code-append slash s sock h (unfold has_code in refl);
  not_empty = sock-ne-nil s;
  not_dot = sock-ne-one s b'.';
  not_up = sock-ne-two s b'.' b'.';
}

-- `<root>/<sessionId>.sock`, as directories.
unfoldable pub bound_socket : PathConfig → Text → Text
bound_socket c session_id = render (root_dirs c ++ (session_id ++ sock) ∷ [])

expected_socket-bound :
    (c : PathConfig) (session_id : Text)
    → NoSlash session_id
    → expected_socket c session_id ≡ bound_socket c session_id
unfolding expected_socket bound_socket
expected_socket-bound c s h =
    rw (sockets_root-render c)
      (join-part (root_dirs c) (s ++ sock) (root_dirs-IsPart c) (sock-IsPart s h))

resolve_text-expected :
    (c : PathConfig) (session_id s p : Text)
    → c.allow_unbound_delivery_socket ≡ false
    → resolve_text c session_id s ≡ some p
    → p ≡ expected_socket c session_id
unfolding resolve_text
resolve_text-expected c session_id [] p h e = cc
resolve_text-expected c session_id (x ∷ s) p h e =
    ground (arith, ==_iff (resolve (sockets_root c) (x ∷ s)) (expected_socket c session_id))

-- A registered socket path is accepted in bound mode only as the socket in the trusted directory
-- that is named after the session, if the session id has no slash in it.
pub resolve_delivery_socket_path-bound :
    (c : PathConfig) (session_id : Text) (v : Value) (p : Text)
    → c.allow_unbound_delivery_socket ≡ false
    → NoSlash session_id
    → resolve_delivery_socket_path c session_id v ≡ some p
    → p ≡ bound_socket c session_id
unfolding resolve_delivery_socket_path
resolve_delivery_socket_path-bound c session_id (str s) p h k e =
    resolve_text-expected c session_id s p h e ∙ expected_socket-bound c session_id k
resolve_delivery_socket_path-bound c session_id _ p h k e = cc

resolve_text-accepts :
    (c : PathConfig) (session_id s : Text)
    → c.allow_unbound_delivery_socket ≡ false
    → (s == []) ≡ false
    → has_code 0 s ≡ false
    → resolve (sockets_root c) s ≡ expected_socket c session_id
    → resolve_text c session_id s ≡ some (expected_socket c session_id)
unfolding resolve_text
resolve_text-accepts c session_id [] h n k e = absurd (unfold ◌==◌ in cc)
resolve_text-accepts c session_id (x ∷ s) h n k e =
    ground (arith, ==_refl (expected_socket c session_id))

pub render-ne-nil : (ps : List Text) → (render ps == []) ≡ false
unfolding render ◌==◌
render-ne-nil [] = refl
render-ne-nil (p ∷ ps) = refl

-- The path of a socket that is written as a normal absolute path is accepted if it is the expected
-- one.
pub resolve_delivery_socket_path-render :
    (c : PathConfig) (session_id : Text) (ps : List Text)
    → c.allow_unbound_delivery_socket ≡ false
    → All IsPart ps
    → has_code 0 (render ps) ≡ false
    → expected_socket c session_id ≡ render ps
    → resolve_delivery_socket_path c session_id (str (render ps)) ≡ some (render ps)
unfolding resolve_delivery_socket_path
resolve_delivery_socket_path-render c session_id ps h k n e =
    resolve_text-accepts c session_id (render ps) h (render-ne-nil ps) n
      (resolve-render (sockets_root c) ps k ∙ sym e)
    ∙ ap some e

-- The socket that an adapter makes for its session is accepted.
pub resolve_delivery_socket_path-accepts :
    (c : PathConfig) (session_id : Text)
    → c.allow_unbound_delivery_socket ≡ false
    → NoSlash session_id
    → has_code 0 (bound_socket c session_id) ≡ false
    → resolve_delivery_socket_path c session_id (str (bound_socket c session_id))
      ≡ some (bound_socket c session_id)
unfolding bound_socket
resolve_delivery_socket_path-accepts c session_id h k n =
    resolve_delivery_socket_path-render c session_id (root_dirs c ++ (session_id ++ sock) ∷ []) h
      (All-append IsPart (root_dirs c) ((session_id ++ sock) ∷ []) (root_dirs-IsPart c)
        (sock-IsPart session_id k, tt))
      n (unfold bound_socket in expected_socket-bound c session_id k)
