-- ===== src/Paths/Escape.antt =====
-- A session id with `..` in it moves the expected socket out of the trusted directory.
use mathlib.Core.List.{reverse, reverse-append, reverse-reverse, append_assoc}
use inter_agent_bus.Base.{
  false, some, List, [], ◌∷◌, ◌++◌, ◌≡◌, ◌≢◌, refl, sym, ap, ◌∙◌, Text, codes, ◌==◌, has_code,
  length, length-append, All, All-append, arith,
}
use inter_agent_bus.Value.{str}
use inter_agent_bus.Strings.Split.{split_on-last, split_on-next}
use inter_agent_bus.Paths.{
  slash, split_slash, parent, resolve_part, resolve_parts, render, join, expected_socket,
  PathConfig, resolve_delivery_socket_path,
}
use inter_agent_bus.Paths.Normal.{NoSlash, IsPart, dirs, dirs-render, resolve_parts-append}
use inter_agent_bus.Paths.Bound.{
  root_dirs, root_dirs-IsPart, sockets_root-render, sock, sock-IsPart,
  resolve_delivery_socket_path-render,
}

up_parts :
    (name : Text)
    → NoSlash name
    → split_slash (codes "../" ++ (name ++ sock)) ≡ codes ".." ∷ (name ++ sock) ∷ []
up_parts name h =
    split_on-next slash (codes "..") (name ++ sock) (unfold has_code in refl)
    ∙ ap (◌∷◌ (codes "..")) (split_on-last slash (name ++ sock) (sock-IsPart name h).no_slash)

-- Going up from the directories that a list names leaves the last one out.
reverse-parent :
    (stack up : List Text) (last : Text)
    → reverse stack ≡ up ++ last ∷ []
    → reverse (parent stack) ≡ up
unfolding parent
reverse-parent stack up last e =
    rw (sym (reverse-reverse stack) ∙ (ap reverse e ∙ reverse-append up (last ∷ [])), parent)
      (reverse-reverse up)

up_step :
    (stack : List Text) (q : Text)
    → resolve_parts stack (codes ".." ∷ q ∷ []) ≡ resolve_parts (parent stack) (q ∷ [])
unfolding resolve_parts resolve_part ◌==◌
up_step stack q = refl

dirs-root :
    (c : PathConfig) → reverse (resolve_parts [] (split_slash (render (root_dirs c)))) ≡ root_dirs c
dirs-root c = unfold dirs in dirs-render (root_dirs c) (root_dirs-IsPart c)

expected_socket-up :
    (c : PathConfig) (up : List Text) (last name : Text)
    → root_dirs c ≡ up ++ last ∷ []
    → NoSlash name
    → expected_socket c (codes "../" ++ name) ≡ render (up ++ (name ++ sock) ∷ [])
unfolding expected_socket join
expected_socket-up c up last name e h =
    rw (sockets_root-render c, up_parts name h, up_step)
      (ap render (
        resolve_parts-append (parent stack) ((name ++ sock) ∷ []) (sock-IsPart name h, tt)
        ∙ ap (λ (l : List Text). l ++ (name ++ sock) ∷ [])
            (reverse-parent stack up last (dirs-root c ∙ e))))
  where
    stack : List Text
    stack = resolve_parts [] (split_slash (render (root_dirs c)))

All-init : (up : List Text) (last : Text) → All IsPart (up ++ last ∷ []) → All IsPart up
All-init [] last h = tt
All-init (p ∷ up) last h = (h.0, All-init up last h.1)

All-last : (up : List Text) (last : Text) → All IsPart (up ++ last ∷ []) → IsPart last
All-last [] last h = h.0
All-last (p ∷ up) last h = All-last up last h.1

-- A file of the directory above is no file of the directory.
outside_root :
    (up : List Text) (last x y : Text)
    → IsPart x
    → IsPart y
    → All IsPart (up ++ last ∷ [])
    → render (up ++ x ∷ []) ≢ render (up ++ last ∷ y ∷ [])
outside_root up last x y hx hy k e =
    let above = All-append IsPart up (x ∷ []) (All-init up last k) (hx, tt) in
    let inside =
      All-append IsPart up (last ∷ y ∷ []) (All-init up last k) (All-last up last k, (hy, tt)) in
    let same =
      sym (dirs-render (up ++ x ∷ []) above)
      ∙ (ap dirs e ∙ dirs-render (up ++ last ∷ y ∷ []) inside) in
    omega (arith, ap length same, length-append up (x ∷ []), length-append up (last ∷ y ∷ []))

-- For a trusted directory below `up`, a session id `../name` is served by the socket `name.sock` of
-- `up`: the broker accepts that path, and it lies in no place of the trusted directory.
pub resolve_delivery_socket_path-escapes :
    (c : PathConfig) (up : List Text) (last name : Text)
    → c.allow_unbound_delivery_socket ≡ false
    → root_dirs c ≡ up ++ last ∷ []
    → NoSlash name
    → has_code 0 (render (up ++ (name ++ sock) ∷ [])) ≡ false
    → let outside = render (up ++ (name ++ sock) ∷ []) in
      (resolve_delivery_socket_path c (codes "../" ++ name) (str outside) ≡ some outside)
      × ((file : Text) → IsPart file → outside ≢ render (root_dirs c ++ file ∷ []))
resolve_delivery_socket_path-escapes c up last name h e k n = (
  resolve_delivery_socket_path-render c (codes "../" ++ name) (up ++ (name ++ sock) ∷ []) h
      (All-append IsPart up ((name ++ sock) ∷ []) (All-init up last root) (sock-IsPart name k, tt))
      n (expected_socket-up c up last name e k),
  λ file f same. outside_root up last (name ++ sock) file (sock-IsPart name k) f root (
      same
      ∙ ap render
          (ap (λ (l : List Text). l ++ file ∷ []) e ∙ append_assoc up (last ∷ []) (file ∷ []))),
)
  where
    root : All IsPart (up ++ last ∷ [])
    root = rw (sym e) (root_dirs-IsPart c)
