-- ===== src/Broker/Mirror.antt =====
-- The mailbox files say what the mailbox says.
pub mod Requests
pub mod Steps
use mathlib.Core.Path.{ap₂}
use inter_agent_bus.Base.{
  ℕ, Bool, true, false, Option, none, some, List, [], ◌∷◌, ◌++◌, map, ◌≡◌, refl, ap, sym, ◌∙◌, Text,
  ◌==◌, ==_iff, ==-sound, ==_refl, length, length-append, arith, if◌then◌else◌, Bool-cases, inl,
  inr, suc, ◌+◌,
}
use inter_agent_bus.Base.Maps
use inter_agent_bus.Base.Maps.{Map, get-set, get-delete, Distinct, Distinct-set, Distinct-delete}
use inter_agent_bus.Broker.Types.{State, Config, MailEntry}
use inter_agent_bus.Broker.Mail.{
  unlines, jsonl, mailbox_path_for, queue_of, write_queue, rewrite_mailbox_file,
}

-- What is in the file of a queue; an empty queue has none.
unfoldable pub content : Config → List MailEntry → Option Text
content c [] = none
content c (e ∷ es) = some (unlines (map c.stringify (e ∷ es)))

-- The files hold the queues, and no two files have the same name.
abbrev pub Mirrors : Config → State → Type 0
Mirrors c s =
    ((hash : Text)
      → Maps.get (mailbox_path_for hash) s.mailbox_files ≡ content c (queue_of hash s.mailbox))
    × Distinct s.mailbox_files

append-cancel : (a b x : Text) → a ++ x ≡ b ++ x → a ≡ b
append-cancel [] [] x e = refl
append-cancel [] (d ∷ b) x e = absurd (omega (arith, ap length e, length-append b x))
append-cancel (c ∷ a) [] x e = absurd (omega (arith, ap length e, length-append a x))
append-cancel (c ∷ a) (d ∷ b) x e =
    let (same, rest) : (c ≡ d) × (a ++ x ≡ b ++ x) = (cc, cc) in
    ap₂ (λ y (ys : Text). y ∷ ys) same (append-cancel a b x rest)

pub mailbox_path_for-== : (g h : Text) → (mailbox_path_for g == mailbox_path_for h) ≡ (g == h)
unfolding mailbox_path_for
mailbox_path_for-== g h = ground (
  arith,
  ==_iff (g ++ jsonl) (h ++ jsonl),
  ==_iff g h,
  append-cancel g h jsonl,
  ap (λ (u : Text). u ++ jsonl),
)

pub write_queue-get :
    (c : Config) (f g : Text) (q : List MailEntry) (files : Map Text)
    → Maps.get g (write_queue c f q files) ≡ (if f == g then content c q else Maps.get g files)
unfolding write_queue content
write_queue-get c f g [] files = get-delete f g files
write_queue-get c f g (e ∷ es) files = get-set f g (unlines (map c.stringify (e ∷ es))) files

-- A queue changes, and its file is written again.
write_queue-Distinct :
    (c : Config) (file : Text) (q : List MailEntry) (files : Map Text)
    → Distinct files
    → Distinct (write_queue c file q files)
unfolding write_queue
write_queue-Distinct c file [] files h = Distinct-delete file files h
write_queue-Distinct c file (e ∷ es) files h =
    Distinct-set file (unlines (map c.stringify (e ∷ es))) files h

pub rewrite-Mirrors :
    (c : Config) (hash : Text) (m : Map (List MailEntry)) (s : State)
    → ((h : Text) → (hash == h) ≡ false → queue_of h m ≡ queue_of h s.mailbox)
    → Mirrors c s
    → Mirrors c (rewrite_mailbox_file c hash (record s { mailbox = m }))
unfolding rewrite_mailbox_file
rewrite-Mirrors c hash m s others k = (
  λ h.
      write_queue-get c (mailbox_path_for hash) (mailbox_path_for h) (queue_of hash m)
        s.mailbox_files
      ∙ elim (Bool-cases (hash == h)) [
        | inl e ↦
            rw (mailbox_path_for-== hash h, e)
              (ap (λ (u : Text). content c (queue_of u m)) (==-sound hash h e))
        | inr e ↦ rw (mailbox_path_for-== hash h, e) (k.0 h ∙ ap (content c) (sym (others h e)))
      ],
  write_queue-Distinct c (mailbox_path_for hash) (queue_of hash m) s.mailbox_files k.1,
)
