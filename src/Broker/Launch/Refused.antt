-- ===== src/Broker/Launch/Refused.antt =====
-- A second broker is refused, but not before it has written the mailbox files of the first.
use inter_agent_bus.Base.{
  ℕ, Bool, true, List, [], ◌∷◌, ◌≡◌, refl, ◌∙◌, Text, All, all, keep, length,
}
use inter_agent_bus.Base.Maps
use inter_agent_bus.Base.Maps.{Map, Distinct}
use inter_agent_bus.Ids.{is_hex}
use inter_agent_bus.Broker.{start}
use inter_agent_bus.Broker.Types.{Config, State, MailEntry}
use inter_agent_bus.Broker.Mail.{
  queue_of, is_fresh, mailbox_path_for, load_files, load_mailbox_from_disk,
}
use inter_agent_bus.Broker.Mirror.{content, Mirrors}
use inter_agent_bus.Broker.Restored.{IsReadable}
use inter_agent_bus.Broker.Restored.Directory.{load_files-IsUntouched, load_files-restores}
use inter_agent_bus.Broker.Launch.{
  connects, another_is_live, main, beside, probe_existing_broker, take_over,
}

file-content :
    (c : Config) (now : ℕ) (hash : Text) (q : List MailEntry) (fs : Map Text) (s : State)
    → length hash ≡ 64
    → all is_hex hash ≡ true
    → All (IsReadable c) q
    → Distinct fs
    → Maps.get (mailbox_path_for hash) fs ≡ content c q
    → queue_of hash s.mailbox ≡ []
    → Maps.get (mailbox_path_for hash) s.mailbox_files ≡ Maps.get (mailbox_path_for hash) fs
    → Maps.get (mailbox_path_for hash) (load_files c now fs s).mailbox_files
      ≡ content c (keep (is_fresh now) q)
unfolding content keep
file-content c now hash [] fs s n x r d here none_yet same =
    (load_files-IsUntouched c now hash fs s here).1 ∙ same ∙ here
file-content c now hash (e ∷ es) fs s n x r d here none_yet same =
    (load_files-restores c now hash (e ∷ es) fs s n x r d here none_yet).1

-- A broker that is launched while another one answers at the socket exits, and the other one keeps
-- its participants and its mailbox. But by then it has written the mailbox files: if these mirror
-- the queues of the live broker and have names of their own, then the file of each session hash of
-- 64 hexadecimal digits holds the entries of the live broker's queue that are not too old, in their
-- order, or is gone if there are none, if JSON prints these entries on one line and parses them
-- back.
pub main-refused :
    (c : Config) (now : ℕ) (hash : Text) (unlinks listens : Bool) (live : State)
    → length hash ≡ 64
    → all is_hex hash ≡ true
    → All (IsReadable c) (queue_of hash live.mailbox)
    → Mirrors c live
    → let (second, launched) = main c now true connects unlinks listens live in
      let live' = beside live second in
      (launched ≡ another_is_live)
      × (live'.participants ≡ live.participants)
      × (live'.mailbox ≡ live.mailbox)
      × (Maps.get (mailbox_path_for hash) live'.mailbox_files
          ≡ content c (keep (is_fresh now) (queue_of hash live.mailbox)))
unfolding main start load_mailbox_from_disk probe_existing_broker take_over queue_of Maps.get
main-refused c now hash unlinks listens live n x r m = (
  refl,
  refl,
  refl,
  file-content c now hash (queue_of hash live.mailbox) live.mailbox_files _ n x r m.1 (m.0 hash)
      refl refl,
)
