-- ===== src/Sidecar/Render.antt =====
-- `renderEnvelope` of the sidecars: the line that is typed for an envelope.
pub mod Clean
use inter_agent_bus.Base.{
  ℕ, Bool, true, false, Option, none, some, List, [], ◌∷◌, ◌++◌, Text, codes, take, drop,
}
use inter_agent_bus.Value.{Value, str, get_prop}
use inter_agent_bus.Sidecar.Tty.{sanitize_for_tty}

-- `sent_at.slice(11, 16) + 'Z'` of a text, or nothing.
unfoldable pub clock : Value → Text
clock (str s) = take 5 (drop 11 s) ++ codes "Z"
clock _ = []

-- `[from:${from} · msg:${id} · ${t}] ${body}`
unfoldable pub render_envelope : (Value → Text) → Value → Text
render_envelope string_of env =
    let from = sanitize_for_tty string_of (get_prop "from" env) in
    let id = sanitize_for_tty string_of (get_prop "id" env) in
    let body = sanitize_for_tty string_of (get_prop "body" env) in
    let end_of_line = clock (get_prop "sent_at" env) ++ (codes "] " ++ body) in
    codes "[from:" ++ (from ++ (codes " · msg:" ++ (id ++ (codes " · " ++ end_of_line))))
