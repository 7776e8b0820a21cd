-- ===== src/Sidecar/Tty/Csi.antt =====
-- Control sequences are taken out of a text.
use mathlib.Core.List.{append_assoc}
use mathlib.Core.Path.{ap₂}
use inter_agent_bus.Base.{
  ℕ, ◌+◌, true, some, [], ◌∷◌, ◌++◌, ◌≡◌, refl, ap, sym, ◌∙◌, Text, all, length, length-append,
  arith,
}
use inter_agent_bus.Sidecar.Tty.{
  esc, is_csi_param, is_csi_middle, is_csi_final, is_control, one_more, csi_middle, csi_length,
  escape_length, strip_escapes_from, strip_escapes, blank_controls, sanitize,
}
use inter_agent_bus.Sidecar.Tty.Clean.{is_clean}

csi_middle-append :
    (m : Text) (f : ℕ) (b : Text)
    → all is_csi_middle m ≡ true
    → is_csi_final f ≡ true
    → csi_middle (m ++ f ∷ b) ≡ some (length m + 1)
unfolding csi_middle is_csi_middle is_csi_final one_more
csi_middle-append [] f b h k = ground arith
csi_middle-append (c ∷ m) f b h k = ground (arith, csi_middle-append m f b)

csi_length-middle :
    (m : Text) (f : ℕ) (b : Text)
    → all is_csi_middle m ≡ true
    → is_csi_final f ≡ true
    → csi_length (m ++ f ∷ b) ≡ csi_middle (m ++ f ∷ b)
unfolding csi_length is_csi_middle is_csi_final is_csi_param
csi_length-middle [] f b h k = ground arith
csi_length-middle (c ∷ m) f b h k = ground arith

csi_length-append :
    (p m : Text) (f : ℕ) (b : Text)
    → all is_csi_param p ≡ true
    → all is_csi_middle m ≡ true
    → is_csi_final f ≡ true
    → csi_length (p ++ (m ++ f ∷ b)) ≡ some (length p + (length m + 1))
unfolding csi_length one_more
csi_length-append [] m f b h k l =
    csi_length-middle m f b k l ∙ csi_middle-append m f b k l ∙ ap some (omega arith)
csi_length-append (c ∷ p) m f b h k l = ground (arith, csi_length-append p m f b)

skip-append : (s b : Text) → strip_escapes_from (length s) (s ++ b) ≡ strip_escapes_from 0 b
unfolding strip_escapes_from
skip-append [] b = refl
skip-append (c ∷ s) b = skip-append s b

clean-append :
    (a s : Text) → is_clean a ≡ true → strip_escapes_from 0 (a ++ s) ≡ a ++ strip_escapes_from 0 s
unfolding strip_escapes_from is_clean is_control
clean-append [] s h = refl
clean-append (c ∷ a) s h = ground (arith, clean-append a s)

seq_length : (p m : Text) (f : ℕ) → length p + (length m + 1) ≡ length (p ++ (m ++ f ∷ []))
seq_length p m f = omega (arith, length-append p (m ++ f ∷ []), length-append m (f ∷ []))

strip_escape :
    (s : Text) (n : ℕ)
    → csi_length s ≡ some n
    → strip_escapes_from 0 (esc ∷ b'[' ∷ s) ≡ strip_escapes_from n s
unfolding strip_escapes_from escape_length
strip_escape s n h = rw (h, escape_length) (ground arith)

strip_csi :
    (p m : Text) (f : ℕ) (b : Text)
    → all is_csi_param p ≡ true
    → all is_csi_middle m ≡ true
    → is_csi_final f ≡ true
    → strip_escapes_from 0 (esc ∷ b'[' ∷ (p ++ (m ++ f ∷ b))) ≡ strip_escapes_from 0 b
strip_csi p m f b h k l =
    let seq = p ++ (m ++ f ∷ []) in
    let behind : p ++ (m ++ f ∷ b) ≡ seq ++ b =
      ap (λ (u : Text). p ++ u) (sym (append_assoc m (f ∷ []) b))
      ∙ sym (append_assoc p (m ++ f ∷ []) b) in
    strip_escape (p ++ (m ++ f ∷ b)) (length p + (length m + 1)) (csi_length-append p m f b h k l)
    ∙ (ap₂ strip_escapes_from (seq_length p m f) behind ∙ skip-append seq b)

blank-append : (a s : Text) → is_clean a ≡ true → blank_controls (a ++ s) ≡ a ++ blank_controls s
unfolding blank_controls is_clean
blank-append [] s h = refl
blank-append (c ∷ a) s h = ground (arith, blank-append a s)

-- A control sequence behind clean text, with any parameters, any intermediate characters and a
-- final one, is taken out as a whole, and what follows is sanitised on its own.
pub sanitize-csi :
    (a p m : Text) (f : ℕ) (b : Text)
    → is_clean a ≡ true
    → all is_csi_param p ≡ true
    → all is_csi_middle m ≡ true
    → is_csi_final f ≡ true
    → sanitize (a ++ (esc ∷ b'[' ∷ (p ++ (m ++ f ∷ b)))) ≡ a ++ sanitize b
unfolding sanitize strip_escapes
sanitize-csi a p m f b h k l n =
    ap blank_controls (
      clean-append a (esc ∷ b'[' ∷ (p ++ (m ++ f ∷ b))) h
      ∙ ap (λ (u : Text). a ++ u) (strip_csi p m f b k l n))
    ∙ blank-append a (strip_escapes_from 0 b) h
