-- ===== src/Sidecar/Tty/Clean.antt =====
-- What `sanitizeForTTY` returns is clean, and clean text is what it returns unchanged.
use inter_agent_bus.Base.{
  Bool, true, not, [], ◌∷◌, ◌≡◌, ◌↔◌, refl, ap, ◌∙◌, Text, all, arith, subst,
}
use inter_agent_bus.Value.{Value, str}
use inter_agent_bus.Sidecar.Tty.{
  is_control, strip_escapes_from, strip_escapes, blank_controls, sanitize, to_string,
  sanitize_for_tty,
}

unfoldable pub is_clean : Text → Bool
is_clean = all (λ c. not (is_control c))

blank_controls-is_clean : (s : Text) → is_clean (blank_controls s) ≡ true
unfolding is_clean blank_controls is_control
blank_controls-is_clean [] = refl
blank_controls-is_clean (c ∷ s) = ground (arith, blank_controls-is_clean s)

pub sanitize-is_clean : (s : Text) → is_clean (sanitize s) ≡ true
unfolding sanitize
sanitize-is_clean s = blank_controls-is_clean (strip_escapes s)

blank_controls-fixed : (s : Text) → is_clean s ≡ true → blank_controls s ≡ s
unfolding is_clean blank_controls
blank_controls-fixed [] h = refl
blank_controls-fixed (c ∷ s) h = ground (arith, blank_controls-fixed s)

strip_escapes-fixed : (s : Text) → is_clean s ≡ true → strip_escapes_from 0 s ≡ s
unfolding is_clean strip_escapes_from is_control
strip_escapes-fixed [] h = refl
strip_escapes-fixed (c ∷ s) h = ground (arith, strip_escapes-fixed s)

sanitize-fixed : (s : Text) → is_clean s ≡ true → sanitize s ≡ s
unfolding sanitize strip_escapes
sanitize-fixed s h = ap blank_controls (strip_escapes-fixed s h) ∙ blank_controls-fixed s h

-- A text is left unchanged exactly when it has no control character.
pub sanitize_for_tty_iff :
    (string_of : Value → Text) (s : Text)
    → (sanitize_for_tty string_of (str s) ≡ s) ↔ (is_clean s ≡ true)
unfolding sanitize_for_tty to_string
sanitize_for_tty_iff string_of s =
    (λ e. subst (λ (t : Text). is_clean t ≡ true) e (sanitize-is_clean s), sanitize-fixed s)
