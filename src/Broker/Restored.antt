-- ===== src/Broker/Restored.antt =====
-- What a restart of broker/broker.js reads back from a mailbox file.
pub mod Directory
pub mod Durable
use inter_agent_bus.Base.{
  ℕ, true, false, some, List, [], ◌∷◌, ◌++◌, map, ◌≡◌, refl, ap, ◌∙◌, Text, ◌==◌, ==_refl, subst,
  length, length-append, arith, take, drop, all, All, keep, eqb,
}
use inter_agent_bus.Base.Maps
use inter_agent_bus.Base.Maps.{Map, get-set_self, get-delete}
use inter_agent_bus.Ids.{is_hex}
use inter_agent_bus.Strings.{is_space}
use inter_agent_bus.Strings.Runs.{strip}
use inter_agent_bus.Strings.Split.{split_on, split_first, split_on-next, NoCode}
use inter_agent_bus.Broker.Types.{State, Config, MailEntry}
use inter_agent_bus.Broker.Mail.{
  unlines, newline, jsonl, mailbox_path_for, queue_of, rewrite_mailbox_file, is_fresh, read_lines,
  is_mailbox_name, load_queue, load_file,
}
use inter_agent_bus.Broker.Mirror.{content, write_queue-get}

-- JSON: an entry is printed on one line that is not blank, and is parsed back.
abbrev pub IsReadable : Config → MailEntry → Type 0
IsReadable c e =
    (c.parse (c.stringify e) ≡ some e)
    × NoCode newline (c.stringify e)
    × ((strip is_space (c.stringify e) == []) ≡ false)

take-append : (xs ys : Text) → take (length xs) (xs ++ ys) ≡ xs
take-append [] ys = refl
take-append (x ∷ xs) ys = ap (λ (u : Text). x ∷ u) (take-append xs ys)

drop-append : (xs ys : Text) → drop (length xs) (xs ++ ys) ≡ ys
drop-append [] ys = refl
drop-append (x ∷ xs) ys = drop-append xs ys

hash_of_path : (hash : Text) → length hash ≡ 64 → take 64 (mailbox_path_for hash) ≡ hash
unfolding mailbox_path_for
hash_of_path hash n = subst (λ (k : ℕ). take k (hash ++ jsonl) ≡ hash) n (take-append hash jsonl)

suffix_of_path : (hash : Text) → length hash ≡ 64 → drop 64 (mailbox_path_for hash) ≡ jsonl
unfolding mailbox_path_for
suffix_of_path hash n = subst (λ (k : ℕ). drop k (hash ++ jsonl) ≡ jsonl) n (drop-append hash jsonl)

length_of_path : (hash : Text) → length hash ≡ 64 → eqb (length (mailbox_path_for hash)) 70 ≡ true
unfolding mailbox_path_for
length_of_path hash n = ground (arith, length-append hash jsonl)

is_mailbox_name-path :
    (hash : Text)
    → length hash ≡ 64
    → all is_hex hash ≡ true
    → is_mailbox_name (mailbox_path_for hash) ≡ true
unfolding is_mailbox_name
is_mailbox_name-path hash n h =
    rw (length_of_path hash n, hash_of_path hash n, suffix_of_path hash n, h, ==_refl jsonl) refl

read_lines-blank : (c : Config) (now : ℕ) → read_lines c now (split_on newline []) ≡ []
unfolding read_lines split_on split_first strip ◌==◌
read_lines-blank c now = refl

read_lines-unlines :
    (c : Config) (now : ℕ) (q : List MailEntry)
    → All (IsReadable c) q
    → read_lines c now (split_on newline (unlines (map c.stringify q))) ≡ keep (is_fresh now) q
unfolding unlines keep read_lines
read_lines-unlines c now [] r = read_lines-blank c now
read_lines-unlines c now (e ∷ es) ((p, n, b), rs) =
    rw
      (
        split_on-next newline (c.stringify e) (unlines (map c.stringify es)) n,
        read_lines,
        b,
        p,
        read_lines-unlines c now es rs,
      )
      refl

queue_of-set :
    (hash : Text) (q : List MailEntry) (m : Map (List MailEntry))
    → queue_of hash (Maps.set hash q m) ≡ q
unfolding queue_of
queue_of-set hash q m = rw (get-set_self hash q m, queue_of) refl

load_queue-restores :
    (c : Config) (hash : Text) (es : List MailEntry) (s : State)
    → length hash ≡ 64
    → queue_of hash s.mailbox ≡ []
    → (queue_of hash (load_queue c (mailbox_path_for hash) es s).mailbox ≡ es)
      × (Maps.get (mailbox_path_for hash) (load_queue c (mailbox_path_for hash) es s).mailbox_files
          ≡ content c es)
unfolding load_queue content rewrite_mailbox_file
load_queue-restores c hash [] s n none_yet = (
  none_yet,
  get-delete (mailbox_path_for hash) (mailbox_path_for hash) s.mailbox_files
      ∙ rw (==_refl (mailbox_path_for hash)) refl,
)
load_queue-restores c hash (e ∷ es) s n none_yet = rw (hash_of_path hash n) (
  queue_of-set hash (e ∷ es) s.mailbox,
  write_queue-get c (mailbox_path_for hash) (mailbox_path_for hash)
        (queue_of hash (Maps.set hash (e ∷ es) s.mailbox)) s.mailbox_files
      ∙ rw (==_refl (mailbox_path_for hash), queue_of-set hash (e ∷ es) s.mailbox) refl,
)

-- When the broker starts and reads the mailbox file of a session hash (64 hexadecimal digits), which
-- it wrote for a queue of entries that JSON prints on one line and parses back, the mailbox has
-- under that hash, where it had nothing, the entries of the queue that are not too old, in their
-- order, and the file is written again with these, or removed when there are none.
pub load_file-restores :
    (c : Config) (now : ℕ) (hash : Text) (q : List MailEntry) (s : State)
    → length hash ≡ 64
    → all is_hex hash ≡ true
    → All (IsReadable c) q
    → queue_of hash s.mailbox ≡ []
    → (queue_of hash
          (load_file c now (mailbox_path_for hash, unlines (map c.stringify q)) s).mailbox
        ≡ keep (is_fresh now) q)
      × (Maps.get
            (mailbox_path_for hash)
            (load_file c now (mailbox_path_for hash, unlines (map c.stringify q)) s).mailbox_files
          ≡ content c (keep (is_fresh now) q))
unfolding load_file
load_file-restores c now hash q s n h r none_yet =
    rw (is_mailbox_name-path hash n h, read_lines-unlines c now q r)
      (load_queue-restores c hash (keep (is_fresh now) q) s n none_yet)
