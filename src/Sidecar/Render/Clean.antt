-- ===== src/Sidecar/Render/Clean.antt =====
-- What the rendered line can hold.
use inter_agent_bus.Base.{true, ◌&&◌, [], ◌∷◌, ◌++◌, ◌≡◌, refl, ◌∙◌, Text, codes, arith}
use inter_agent_bus.Value.{Value, get_prop}
use inter_agent_bus.Sidecar.Tty.{sanitize_for_tty, to_string, is_control}
use inter_agent_bus.Sidecar.Tty.Clean.{is_clean, sanitize-is_clean}
use inter_agent_bus.Sidecar.Render.{clock, render_envelope}

is_clean-append : (s t : Text) → is_clean (s ++ t) ≡ (is_clean s && is_clean t)
unfolding is_clean
is_clean-append [] t = refl
is_clean-append (c ∷ s) t = ground (arith, is_clean-append s t)

is_clean-behind : (s t : Text) → is_clean s ≡ true → is_clean (s ++ t) ≡ is_clean t
is_clean-behind s t h = is_clean-append s t ∙ (rw h refl)

is_clean-between :
    (s f : Text)
    → is_clean s ≡ true
    → is_clean f ≡ true
    → (t : Text) → is_clean (s ++ (f ++ t)) ≡ is_clean t
is_clean-between s f h k t = is_clean-behind s (f ++ t) h ∙ is_clean-behind f t k

is_clean-end :
    (time s f : Text)
    → is_clean s ≡ true
    → is_clean f ≡ true
    → (is_clean time && is_clean (s ++ f)) ≡ is_clean time
is_clean-end time s f h k = ground (arith, is_clean-append s f)

field-is_clean :
    (string_of : Value → Text) (v : Value) → is_clean (sanitize_for_tty string_of v) ≡ true
unfolding sanitize_for_tty
field-is_clean string_of v = sanitize-is_clean (to_string string_of v)

-- Whatever the fields of an envelope are, the line that is typed for it has no control character
-- if the slice of its time has none, and only then.
pub render_envelope-is_clean :
    (string_of : Value → Text) (env : Value)
    → is_clean (render_envelope string_of env) ≡ is_clean (clock (get_prop "sent_at" env))
unfolding render_envelope
render_envelope-is_clean string_of env =
    let from = field-is_clean string_of (get_prop "from" env) in
    let id = field-is_clean string_of (get_prop "id" env) in
    let body = field-is_clean string_of (get_prop "body" env) in
    let time = clock (get_prop "sent_at" env) in
    is_clean-between (codes "[from:") _ (unfold is_clean in unfold is_control in refl) from _
    ∙ (is_clean-between (codes " · msg:") _ (unfold is_clean in unfold is_control in refl) id _
        ∙ (is_clean-behind (codes " · ") _ (unfold is_clean in unfold is_control in refl)
            ∙ (is_clean-append time (codes "] " ++ sanitize_for_tty string_of (get_prop "body" env))
                ∙ is_clean-end time (codes "] ") _ (unfold is_clean in unfold is_control in refl)
                    body)))
