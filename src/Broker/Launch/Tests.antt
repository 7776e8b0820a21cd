-- ===== src/Broker/Launch/Tests.antt =====
-- A second broker beside one that has a message queued.
use inter_agent_bus.Broker.Mail.{
  mailbox_path_for, enqueue_mailbox, rewrite_mailbox_file, write_queue, queue_of, is_fresh,
}
use inter_agent_bus.Broker.{true, empty}
use inter_agent_bus.Ids.{is_hex}
use inter_agent_bus.Broker.Types.{State, Config, MailEntry, Envelope}
use inter_agent_bus.Base.{false, some, ◌≡◌, refl, codes, keep, ◌==◌, Text, has_code}
use inter_agent_bus.Broker.Mirror.{content}
use inter_agent_bus.Broker.Mirror.Requests.{enqueue_mailbox-Mirrors}
use inter_agent_bus.Strings.Runs.{strip}
use inter_agent_bus.Base.Maps
use inter_agent_bus.Value.{null}
use inter_agent_bus.Strings.{is_space}
use inter_agent_bus.Broker.Launch.{main, connects, another_is_live, beside}
use inter_agent_bus.Broker.Launch.Refused.{main-refused}

abbrev letter : Envelope
letter = record {
  id = codes "m1";
  from = codes "alice";
  to = codes "bob";
  body = codes "hello";
  reply_to = null;
  conversation_id = null;
  source = null;
  sent_at = null;
}

abbrev entry : MailEntry
entry = record { participant_id = codes "bob"; envelope = letter; queued_at = 5 }

abbrev config : Config
config = record {
  paths = record {
    cwd = codes "/";
    adapter_sockets_dir = codes "/run";
    allow_unbound_delivery_socket = false;
  };
  sha256 = λ s. s;
  iso = λ n. codes "now";
  stringify = λ e. e.envelope.id;
  parse = λ line. some entry;
}

abbrev hash_of_bob : Text
hash_of_bob = codes "0123456789abcdef0123456789abcdef0123456789abcdef0123456789abcdef"

abbrev live : State
live = enqueue_mailbox config 5 hash_of_bob (codes "bob") letter empty

main-refused_example :
    let (second, launched) = main config 9 true connects true true live in
    let live' = beside live second in
    (launched ≡ another_is_live)
    × (live'.participants ≡ live.participants)
    × (live'.mailbox ≡ live.mailbox)
    × (Maps.get (mailbox_path_for hash_of_bob) live'.mailbox_files
        ≡ content config (keep (is_fresh 9) (queue_of hash_of_bob live.mailbox)))
unfolding Maps.get Maps.set Maps.has empty queue_of strip ◌==◌ is_hex has_code is_space
    enqueue_mailbox rewrite_mailbox_file write_queue content
main-refused_example =
    main-refused config 9 hash_of_bob true true live refl refl ((refl, refl, refl), tt)
      (enqueue_mailbox-Mirrors config 5 hash_of_bob (codes "bob") letter empty (λ hash. refl, tt))
