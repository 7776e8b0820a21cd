-- ===== src/Broker/Mail.antt =====
-- The mailbox of broker/broker.js: queues by session hash, and the file that mirrors each queue.
use inter_agent_bus.Base.{
  Bool, List, Text, [], all, codes, drop, eqb, if◌then◌else◌, length, ltb, map, none, some, take, ℕ,
  ◌&&◌, ◌++◌, ◌-◌, ◌==◌, ◌∷◌,
}
use inter_agent_bus.Base.Maps
use inter_agent_bus.Base.Maps.{Map}
use inter_agent_bus.Strings.{is_space}
use inter_agent_bus.Strings.Runs.{strip}
use inter_agent_bus.Strings.Split.{split_on}
use inter_agent_bus.Ids.{is_hex}
use inter_agent_bus.Broker.Types.{Envelope, MailEntry, State, Config, mailbox_ttl_ms}

unfoldable pub session_hash : Config → Text → Text
session_hash c session_id = c.sha256 session_id

abbrev pub newline : ℕ
newline = 10

-- Each line with a newline behind it: `lines.join('\n') + '\n'` of at least one line.
unfoldable pub unlines : List Text → Text
unlines [] = []
unlines (l ∷ ls) = l ++ (newline ∷ unlines ls)

abbrev pub jsonl : Text
jsonl = codes ".jsonl"

-- The file's name in the mailbox directory.
unfoldable pub mailbox_path_for : Text → Text
mailbox_path_for hash = hash ++ jsonl

unfoldable pub queue_of : Text → Map (List MailEntry) → List MailEntry
queue_of hash m = elim (Maps.get hash m) [ none ↦ [] | some queue ↦ queue ]

unfoldable pub write_queue : Config → Text → List MailEntry → Map Text → Map Text
write_queue c file [] files = Maps.delete file files
write_queue c file (e ∷ es) files = Maps.set file (unlines (map c.stringify (e ∷ es))) files

unfoldable pub rewrite_mailbox_file : Config → Text → State → State
unfolding write_queue
rewrite_mailbox_file c hash s = record s {
  mailbox_files = write_queue c (mailbox_path_for hash) (queue_of hash s.mailbox) s.mailbox_files;
}

unfoldable pub enqueue_mailbox : Config → ℕ → Text → Text → Envelope → State → State
enqueue_mailbox c now hash participant_id envelope s =
    let entry : MailEntry = record {
      participant_id = participant_id;
      envelope = envelope;
      queued_at = now;
    } in
    rewrite_mailbox_file c hash
      (record s { mailbox = Maps.set hash (queue_of hash s.mailbox ++ entry ∷ []) s.mailbox })

-- `now - entry.queuedAt < MAILBOX_TTL_SEC * 1000`
unfoldable pub is_fresh : ℕ → MailEntry → Bool
is_fresh now e = ltb (now - e.queued_at) mailbox_ttl_ms

-- What a mailbox file says that is not too old; lines that do not parse are skipped.
unfoldable pub read_lines : Config → ℕ → List Text → List MailEntry
read_lines c now [] = []
read_lines c now (line ∷ lines) =
    let rest = read_lines c now lines in
    if strip is_space line == []
    then rest
    else elim (c.parse line) [ none ↦ rest | some e ↦ if is_fresh now e then e ∷ rest else rest ]

-- `/^[0-9a-f]{64}\.jsonl$/`
unfoldable pub is_mailbox_name : Text → Bool
is_mailbox_name f = eqb (length f) 70 && all is_hex (take 64 f) && drop 64 f == jsonl

unfoldable pub load_queue : Config → Text → List MailEntry → State → State
load_queue c f [] s = record s { mailbox_files = Maps.delete f s.mailbox_files }
load_queue c f (e ∷ es) s =
    let hash = take 64 f in
    rewrite_mailbox_file c hash (record s { mailbox = Maps.set hash (e ∷ es) s.mailbox })

unfoldable pub load_file : Config → ℕ → Text × Text → State → State
unfolding load_queue
load_file c now (f, content) s =
    if is_mailbox_name f then load_queue c f (read_lines c now (split_on newline content)) s else s

unfoldable pub load_files : Config → ℕ → List (Text × Text) → State → State
unfolding load_file
load_files c now [] s = s
load_files c now (f ∷ fs) s = load_files c now fs (load_file c now f s)

-- The files as the directory was read, taken one by one.
unfoldable pub load_mailbox_from_disk : Config → ℕ → State → State
unfolding load_files
load_mailbox_from_disk c now s = load_files c now s.mailbox_files s
