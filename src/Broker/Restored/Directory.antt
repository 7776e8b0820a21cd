-- ===== src/Broker/Restored/Directory.antt =====
-- What a restart of broker/broker.js reads back from the whole mailbox directory.
use inter_agent_bus.Base.{
  ℕ, Bool, true, false, Option, none, some, List, [], ◌∷◌, ◌++◌, map, ◌≡◌, refl, ap, sym, ◌∙◌, Text,
  ◌==◌, ◌&&◌, ==_iff, subst, length, arith, Bool-cases, inl, inr, take, drop, all, All, keep, eqb,
  zero, suc,
}
use inter_agent_bus.Base.Maps
use inter_agent_bus.Base.Maps.{Map, get-set_ne, get-delete_ne, get-has, Distinct}
use inter_agent_bus.Ids.{is_hex}
use inter_agent_bus.Strings.Split.{split_on}
use inter_agent_bus.Broker.Types.{State, Config, MailEntry}
use inter_agent_bus.Broker.Mail.{
  unlines, newline, jsonl, mailbox_path_for, queue_of, rewrite_mailbox_file, is_fresh, read_lines,
  is_mailbox_name, load_queue, load_file, load_files, load_mailbox_from_disk,
}
use inter_agent_bus.Broker.{restart, step, start}
use inter_agent_bus.Broker.Mirror.{Mirrors, content, write_queue-get, mailbox_path_for-==}
use inter_agent_bus.Broker.Mirror.Requests.{queue_of-set_ne}
use inter_agent_bus.Broker.Restored.{IsReadable, load_file-restores}

take-drop : (n : ℕ) (xs : Text) → take n xs ++ drop n xs ≡ xs
take-drop zero xs = refl
take-drop (suc n) [] = refl
take-drop (suc n) (x ∷ xs) = ap (λ (u : Text). x ∷ u) (take-drop n xs)

last_true : (a b d : Bool) → (a && b && d) ≡ true → d ≡ true
last_true a b d h = ground arith

path_of_hash : (f : Text) → is_mailbox_name f ≡ true → mailbox_path_for (take 64 f) ≡ f
unfolding mailbox_path_for is_mailbox_name
path_of_hash f h =
    let same : drop 64 f ≡ jsonl =
      (==_iff (drop 64 f) jsonl).0
        (last_true (eqb (length f) 70) (all is_hex (take 64 f)) (drop 64 f == jsonl) h) in
    ap (λ (u : Text). take 64 f ++ u) (sym same) ∙ take-drop 64 f

get-none :
    (f g text : Text) (fs : Map Text)
    → Maps.get g ((f, text) ∷ fs) ≡ none
    → ((f == g) ≡ false) × (Maps.get g fs ≡ none)
unfolding Maps.get
get-none f g text fs h = ground arith

get-here :
    (f g text w : Text) (fs : Map Text)
    → Maps.get g ((f, text) ∷ fs) ≡ some w
    → (f == g) ≡ true
    → (f ≡ g) × (text ≡ w)
unfolding Maps.get
get-here f g text w fs h e = ground (arith, ==_iff f g)

get-there :
    (f g text : Text) (o : Option Text) (fs : Map Text)
    → Maps.get g ((f, text) ∷ fs) ≡ o
    → (f == g) ≡ false
    → Maps.get g fs ≡ o
unfolding Maps.get
get-there f g text o fs h e = ground arith

module _ (c : Config) (now : ℕ) (hash : Text) where
  -- The queue of the hash and its file are as they were.
  abbrev pub IsUntouched : State → State → Type 0
  IsUntouched s u =
      (queue_of hash u.mailbox ≡ queue_of hash s.mailbox)
      × (Maps.get (mailbox_path_for hash) u.mailbox_files
          ≡ Maps.get (mailbox_path_for hash) s.mailbox_files)

  load_queue-IsUntouched :
      (f : Text) (es : List MailEntry) (s : State)
      → is_mailbox_name f ≡ true
      → (f == mailbox_path_for hash) ≡ false
      → IsUntouched s (load_queue c f es s)
  unfolding load_queue rewrite_mailbox_file
  load_queue-IsUntouched f [] s h ne =
      (refl, get-delete_ne f (mailbox_path_for hash) s.mailbox_files ne)
  load_queue-IsUntouched f (e ∷ es) s h ne = (
    queue_of-set_ne (take 64 f) hash (e ∷ es) s.mailbox
        (sym (mailbox_path_for-== (take 64 f) hash) ∙ rw (path_of_hash f h) ne),
    rw (path_of_hash f h) (
        write_queue-get c f (mailbox_path_for hash)
          (queue_of (take 64 f) (Maps.set (take 64 f) (e ∷ es) s.mailbox)) s.mailbox_files
        ∙ rw ne refl),
  )

  load_file-IsUntouched :
      (f text : Text) (s : State)
      → (f == mailbox_path_for hash) ≡ false
      → IsUntouched s (load_file c now (f, text) s)
  unfolding load_file
  load_file-IsUntouched f text s ne = elim (Bool-cases (is_mailbox_name f)) [
    | inl h ↦ rw h (load_queue-IsUntouched f (read_lines c now (split_on newline text)) s h ne)
    | inr h ↦ rw h (refl, refl)
  ]

  pub load_files-IsUntouched :
      (fs : Map Text) (s : State)
      → Maps.get (mailbox_path_for hash) fs ≡ none
      → IsUntouched s (load_files c now fs s)
  unfolding load_files
  load_files-IsUntouched [] s none_here = (refl, refl)
  load_files-IsUntouched ((f, text) ∷ fs) s none_here =
      let (ne, none_there) = get-none f (mailbox_path_for hash) text fs none_here in
      let (queue, file) = load_file-IsUntouched f text s ne in
      let (queues, files) = load_files-IsUntouched fs (load_file c now (f, text) s) none_there in
      (queues ∙ queue, files ∙ file)

  load_named :
      (f text : Text) (q : List MailEntry) (s : State)
      → f ≡ mailbox_path_for hash
      → text ≡ unlines (map c.stringify q)
      → length hash ≡ 64
      → all is_hex hash ≡ true
      → All (IsReadable c) q
      → queue_of hash s.mailbox ≡ []
      → (queue_of hash (load_file c now (f, text) s).mailbox ≡ keep (is_fresh now) q)
        × (Maps.get (mailbox_path_for hash) (load_file c now (f, text) s).mailbox_files
            ≡ content c (keep (is_fresh now) q))
  load_named f text q s same said n x r none_yet =
      rw (same, said) (load_file-restores c now hash q s n x r none_yet)

  pub load_files-restores :
      (q : List MailEntry) (fs : Map Text) (s : State)
      → length hash ≡ 64
      → all is_hex hash ≡ true
      → All (IsReadable c) q
      → Distinct fs
      → Maps.get (mailbox_path_for hash) fs ≡ some (unlines (map c.stringify q))
      → queue_of hash s.mailbox ≡ []
      → (queue_of hash (load_files c now fs s).mailbox ≡ keep (is_fresh now) q)
        × (Maps.get (mailbox_path_for hash) (load_files c now fs s).mailbox_files
            ≡ content c (keep (is_fresh now) q))
  unfolding load_files Maps.get
  load_files-restores q [] s n x r d here none_yet = absurd (ground arith)
  load_files-restores q ((f, text) ∷ fs) s n x r (d, ds) here none_yet =
      elim (Bool-cases (f == mailbox_path_for hash)) [
        | inl e ↦
            let (same, said) =
              get-here f (mailbox_path_for hash) text (unlines (map c.stringify q)) fs here e in
            let none_there : Maps.get (mailbox_path_for hash) fs ≡ none =
              subst (λ (g : Text). Maps.get g fs ≡ none) same (get-has f fs d) in
            let (queues, files) =
              load_files-IsUntouched fs (load_file c now (f, text) s) none_there in
            let (queue, file) = load_named f text q s same said n x r none_yet in
            (queues ∙ queue, files ∙ file)
        | inr e ↦
            load_files-restores q fs (load_file c now (f, text) s) n x r ds
              (get-there f (mailbox_path_for hash) text (some (unlines (map c.stringify q))) fs here
                e)
              ((load_file-IsUntouched f text s e).0 ∙ none_yet)
      ]

  load_files-content :
      (q : List MailEntry) (fs : Map Text) (s : State)
      → length hash ≡ 64
      → all is_hex hash ≡ true
      → All (IsReadable c) q
      → Distinct fs
      → Maps.get (mailbox_path_for hash) fs ≡ content c q
      → queue_of hash s.mailbox ≡ []
      → queue_of hash (load_files c now fs s).mailbox ≡ keep (is_fresh now) q
  unfolding content keep
  load_files-content [] fs s n x r d here none_yet = (load_files-IsUntouched fs s here).0 ∙ none_yet
  load_files-content (e ∷ es) fs s n x r d here none_yet =
      (load_files-restores (e ∷ es) fs s n x r d here none_yet).0

-- When the broker is started again in a state whose mailbox files mirror its queues and have names of
-- their own, it has under each session hash of 64 hexadecimal digits the entries that were queued
-- there and are not too old, in their order, if JSON prints these entries on one line and parses
-- them back.
pub restart-restores :
    (c : Config) (now : ℕ) (hash : Text) (s : State)
    → length hash ≡ 64
    → all is_hex hash ≡ true
    → All (IsReadable c) (queue_of hash s.mailbox)
    → Mirrors c s
    → queue_of hash (step c (restart now) s).mailbox ≡ keep (is_fresh now) (queue_of hash s.mailbox)
unfolding step start load_mailbox_from_disk queue_of Maps.get
restart-restores c now hash s n x r m =
    load_files-content c now hash (queue_of hash s.mailbox) s.mailbox_files _ n x r m.1 (m.0 hash)
      refl
