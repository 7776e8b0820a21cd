-- ===== src/Control/Log/Lines.antt =====
-- The log of a session is its entries, line by line.
use inter_agent_bus.Base.{
  Bool, none, List, [], ◌∷◌, ◌++◌, ◌≡◌, refl, ap, ◌∙◌, sym, Text, All, map, keep, Bool-cases, inl,
  inr,
}
use mathlib.Core.List.{append_assoc, append-nil}
use inter_agent_bus.Base.Maps
use inter_agent_bus.Base.Maps.{Map}
use inter_agent_bus.Value.{Value, Fields}
use inter_agent_bus.Strings.Split.{split_on}
use inter_agent_bus.Framing.{newline}
use inter_agent_bus.Framing.Chunks.{IsMessage, written, framed, framed-written}
use inter_agent_bus.Control.Log.{Logger, Level, payload, text_of, append_file, write}

-- A call of the logger, with its time and whether the file can be written.
pub record Entry : Type 0 where
  pub works : Bool
  pub ts : Text
  pub level : Level
  pub message : Text
  pub extra : Fields

module _ (stringify : Value → Text) (l : Logger) where
  unfoldable pub write_all : List Entry → Map Text → Map Text
  unfolding write
  write_all [] files = files
  write_all (e ∷ es) files =
      write_all es (write stringify e.works l e.ts e.level e.message e.extra files)

  abbrev pub entry_text : Entry → Text
  entry_text e = stringify (payload l e.ts e.level e.message e.extra)

  abbrev pub texts : List Entry → List Text
  texts es = map entry_text (keep (λ (e : Entry). e.works) es)

  content : Map Text → Text
  content files = text_of (Maps.get l.path files)

  content-append :
      (t : Text) (files : Map Text) → content (append_file l.path t files) ≡ content files ++ t
  unfolding append_file content
  content-append t files =
      rw (Maps.get-set_self l.path (text_of (Maps.get l.path files) ++ t) files) refl

  content-write_all :
      (es : List Entry) (files : Map Text)
      → content (write_all es files) ≡ content files ++ written (texts es)
  unfolding write_all written write keep
  content-write_all [] files = sym (append-nil (content files))
  content-write_all (e ∷ es) files = elim (Bool-cases e.works) [
    | inl h ↦ rw h (
        content-write_all es (append_file l.path (entry_text e ++ newline ∷ []) files)
        ∙ ap (λ (t : Text). t ++ written (texts es))
            (content-append (entry_text e ++ newline ∷ []) files)
        ∙ append_assoc (content files) (entry_text e ++ newline ∷ []) (written (texts es))
        ∙ ap (λ (t : Text). content files ++ t)
            (append_assoc (entry_text e) (newline ∷ []) (written (texts es))))
    | inr h ↦ rw h (content-write_all es files)
  ]

  texts-IsMessage :
      ((v : Value) → IsMessage (stringify v)) → (es : List Entry) → All IsMessage (texts es)
  unfolding keep
  texts-IsMessage h [] = tt
  texts-IsMessage h (e ∷ es) = elim (Bool-cases e.works) [
    | inl k ↦ rw k (h (payload l e.ts e.level e.message e.extra), texts-IsMessage h es)
    | inr k ↦ rw k (texts-IsMessage h es)
  ]

  -- If the JSON text of a value is one line that is not blank, then a log that starts without a
  -- file holds the entries whose write works, one on each line, in the order of the calls.
  pub write_all-read :
      (es : List Entry) (files : Map Text)
      → ((v : Value) → IsMessage (stringify v))
      → Maps.get l.path files ≡ none
      → framed (split_on newline (text_of (Maps.get l.path (write_all es files))))
        ≡ record { lines = texts es; buffer = [] }
  unfolding content
  write_all-read es files h absent =
      ap (λ (t : Text). framed (split_on newline t)) (content-write_all es files)
      ∙ rw absent (framed-written (texts es) (texts-IsMessage h es))
