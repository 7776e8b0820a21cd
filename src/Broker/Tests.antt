-- ===== src/Broker/Tests.antt =====
-- The broker's theorems at small concrete states.
use inter_agent_bus.Broker.Types.{
  push, Job, Chain, State, Config, Participant, MailEntry, Envelope, flush, done, error, Error,
  append_log, reclaim_refused, session_lease_active, kind_mismatch_for_session_id, is_lease_valid,
}
use inter_agent_bus.Broker.Delivery.{
  finish_delivery, timed_out, enqueue_mailbox_flush_on_register, flush_queue,
}
use inter_agent_bus.Broker.Gc.{gc_participants, gc_mailbox, gc_queue, gc_tick}
use inter_agent_bus.Ids.{is_hex, is_handle, is_lower, is_slug, normalize_named_participant_id}
use inter_agent_bus.Broker.Addressable.{AreAddressable}
use inter_agent_bus.Broker.Addressable.Steps.{run-AreAddressable}
use inter_agent_bus.Base.{
  false, none, some, List, [], ◌∷◌, ◌++◌, map, ◌≡◌, ◌⊎◌, refl, codes, keep, if◌then◌else◌, ◌==◌,
  Text, has_code,
}
use inter_agent_bus.Broker.Mirror.{content, Mirrors}
use inter_agent_bus.Broker.Mirror.Steps.{run-Mirrors}
use inter_agent_bus.Broker.Restored.Durable.{run-durable}
use inter_agent_bus.Broker.{
  restart, Event, request, finished, tick, empty, run, step, handle_request, dispatch, request_type,
}
use inter_agent_bus.Broker.Mirror.Requests.{enqueue_mailbox-Mirrors}
use inter_agent_bus.Broker.Mail.{
  enqueue_mailbox, rewrite_mailbox_file, write_queue, session_hash, queue_of, is_fresh,
}
use inter_agent_bus.Strings.Runs.{strip}
use inter_agent_bus.Broker.Settled.{key_of, requeued}
use inter_agent_bus.Broker.Settled.Verdict.{verdict, kept_in, told_by, finish_delivery-verdict}
use inter_agent_bus.Broker.Swept.{unless_stale, gc_tick-kept}
use inter_agent_bus.Base.Maps
use inter_agent_bus.Value.{
  Value, null, str, obj, field, end, nil, arr, get_prop, or_else, lookup, truthy, is_nullish,
  is_array, is_text,
}
use inter_agent_bus.Broker.Leases.{handle_list, persist_registry, adapter_of, mark_recent}
use inter_agent_bus.Strings.{parse_optional_text, is_space}
use inter_agent_bus.Broker.Register.{
  Registration, admit, check_registration, handle_register, text_capability, check_kind,
  check_session_id, or_text_error, or_fail, bind_delivery, check_adapter_token, register_result,
  register_checked, register_new, admit_if_free, first_id, build_participant_id, base_id,
  find_participant_by_session_id, new_participant,
}
use inter_agent_bus.Broker.Push.{handle_push, push_envelope}
use inter_agent_bus.Broker.Registry.{IsRegistry-empty, IsRegistry-come}
use inter_agent_bus.Broker.Registry.Frames.{IsConsistent}
use inter_agent_bus.Broker.Registry.Steps.{run-IsConsistent}
use inter_agent_bus.Broker.Reclaim.{handle_register-refused}
use inter_agent_bus.Broker.Privacy.{redact_all, handle_list-redact}
use inter_agent_bus.Broker.Stamp.{Holds, IsStamped, handle_push-IsStamped}
use inter_agent_bus.Broker.Fifo.{pending}
use inter_agent_bus.Broker.Fifo.History.{History, watch, watch-InOrder}
use inter_agent_bus.Broker.Fifo.Reattach.{pending-admit}

abbrev config : Config
config = record {
  paths = record {
    cwd = codes "/";
    adapter_sockets_dir = codes "/run";
    allow_unbound_delivery_socket = false;
  };
  sha256 = λ s. s;
  iso = λ n. codes "2026-01-01T10:20:30.000Z";
  stringify = λ e. e.envelope.id;
  parse = λ line. none;
}

abbrev push_request : Value
push_request = obj (
    field (codes "type") (str (codes "push_message")) (
      field (codes "to") (str (codes "bob")) (
        field (codes "leaseToken") (str (codes "ta")) (
          field (codes "message")
            (obj (
              field (codes "id") (str (codes "m1"))
                (field (codes "body") (str (codes "hello")) end)))
            end))))

abbrev registration : Registration
registration = record {
  kind = codes "claude";
  session_id = codes "sb";
  display_name = some (codes "Bob");
  description = none;
  preferred = some (codes "bob");
  project = null;
  cwd = null;
  capabilities = arr nil;
  delivery = null;
  adapter = null;
}

abbrev letter : Envelope
letter = record {
  id = codes "m0";
  from = codes "alice";
  to = codes "bob";
  body = codes "hi";
  reply_to = null;
  conversation_id = null;
  source = null;
  sent_at = null;
}

abbrev mail : List MailEntry
mail = record { participant_id = codes "bob"; envelope = letter; queued_at = 5 } ∷ []

abbrev alice : Participant
alice = record {
  participant_id = codes "alice";
  kind = codes "claude";
  session_id = codes "sa";
  display_name = none;
  description = none;
  project = null;
  cwd = null;
  capabilities = arr nil;
  delivery = null;
  registered_at = 0;
  last_heartbeat = 0;
  lease_expires_at = 75000;
  lease_token = codes "ta";
}

abbrev only_alice : State
only_alice = record empty {
  participants = (codes "ta", alice) ∷ [];
  participants_by_id = (codes "alice", codes "ta") ∷ [];
  mailbox = (codes "sb", mail) ∷ [];
}

abbrev no_history : History
no_history = record { appended = []; ended = [] }

-- Alice writes to herself.
abbrev note_to_self : Value
note_to_self = obj (
    field (codes "type") (str (codes "push_message")) (
      field (codes "to") (str (codes "alice")) (
        field (codes "leaseToken") (str (codes "ta")) (
          field (codes "message")
            (obj
              (field (codes "id") (str (codes "m2")) (field (codes "body") (str (codes "hi")) end)))
            end))))

abbrev history : List Event
history =
    request 1 (codes "x") note_to_self
    ∷ request 1 (codes "x") push_request
    ∷ request 2 (codes "y") note_to_self
    ∷ finished 2 timed_out (codes "ta")
    ∷ tick 3
    ∷ []

watch-InOrder_example :
    (watch config (codes "ta") history only_alice no_history).appended
    ≡ (watch config (codes "ta") history only_alice no_history).ended
      ++ pending (codes "ta") (run config history only_alice)
unfolding pending Maps.get empty
watch-InOrder_example =
    watch-InOrder config (codes "ta") history only_alice no_history (tt, (tt, (tt, (tt, (tt, tt)))))
      refl

abbrev register_alice : Value
register_alice = obj (
    field (codes "type") (str (codes "register_participant")) (
      field (codes "participant")
        (obj (
          field (codes "kind") (str (codes "claude"))
            (field (codes "sessionId") (str (codes "sa")) end)))
        end))

abbrev registrations : List Event
registrations =
    request 1 (codes "ta") register_alice ∷ request 2 (codes "tb") register_alice ∷ tick 3 ∷ []

-- The second token is compared with the first, whatever else the registration has stored.
second_token :
    Maps.get (codes "tb") (step config (request 1 (codes "ta") register_alice) empty).participants
    ≡ none
unfolding step handle_request dispatch request_type handle_register register_result
    check_registration register_checked register_new admit_if_free admit
    enqueue_mailbox_flush_on_register Maps.get is_nullish is_text get_prop lookup ◌==◌ check_kind
    or_else truthy is_handle is_lower is_slug check_session_id or_text_error parse_optional_text
    normalize_named_participant_id bind_delivery check_adapter_token first_id build_participant_id
    base_id find_participant_by_session_id adapter_of is_array flush_queue queue_of session_hash
    persist_registry mark_recent new_participant Maps.set Maps.has empty or_fail keep
second_token = refl

run-IsConsistent_example : IsConsistent (run config registrations empty)
unfolding empty Maps.get
run-IsConsistent_example =
    run-IsConsistent config registrations empty (refl, (second_token, (tt, tt))) IsRegistry-empty

abbrev hashing_config : Config
hashing_config = record config { sha256 = λ t. codes "0123456789abcdef" }

run-AreAddressable_example : AreAddressable (run hashing_config registrations empty)
unfolding empty is_hex
run-AreAddressable_example =
    run-AreAddressable hashing_config registrations empty (λ t. (refl, refl)) tt

only_alice-IsConsistent : IsConsistent only_alice
unfolding empty Maps.set Maps.get
only_alice-IsConsistent =
    IsRegistry-come IsRegistry-empty (codes "ta") alice refl refl refl (λ u q h. absurd (cc))

abbrev alice_again : Registration
alice_again = record {
  kind = codes "claude";
  session_id = codes "sa";
  display_name = none;
  description = none;
  preferred = none;
  project = null;
  cwd = null;
  capabilities = text_capability;
  delivery = null;
  adapter = null;
}

handle_register-refused_example :
    handle_register config 8 (codes "tc") register_alice only_alice ≡ (
      if alice.kind == alice_again.kind
      then (
        append_log (reclaim_refused alice.participant_id) only_alice,
        error session_lease_active,
      )
      else (only_alice, error kind_mismatch_for_session_id))
unfolding empty Maps.get is_lease_valid check_registration get_prop lookup ◌==◌ or_else truthy
    check_kind is_handle is_lower is_slug check_session_id or_text_error parse_optional_text or_fail
    normalize_named_participant_id bind_delivery is_nullish check_adapter_token adapter_of is_array
handle_register-refused_example =
    handle_register-refused config 8 (codes "tc") register_alice only_alice alice_again (codes "ta")
      alice only_alice-IsConsistent refl refl refl refl

pending-admit_example :
    (pending
        (codes "tb")
        (admit config 6 (codes "tb") registration (codes "bob") false only_alice).0
      ≡ map (flush (codes "sb")) (keep (is_fresh 6) mail))
    × (queue_of
          (codes "sb")
          (admit config 6 (codes "tb") registration (codes "bob") false only_alice).0.mailbox
        ≡ [])
unfolding empty Maps.get session_hash queue_of ◌==◌
pending-admit_example =
    pending-admit config 6 (codes "tb") registration (codes "bob") false only_alice refl

handle_push-IsStamped_example :
    ((e : Error) × (handle_push config 7 push_request only_alice ≡ (only_alice, done (error e))))
    ⊎ ((p : Participant) × (e : Envelope) × Holds 7 push_request only_alice p
        × IsStamped p push_request e
        × (handle_push config 7 push_request only_alice ≡ push_envelope config 7 e only_alice))
handle_push-IsStamped_example = handle_push-IsStamped config 7 push_request only_alice

handle_list-redact_example :
    (handle_list 9 (record only_alice { participants = redact_all only_alice.participants })
      ≡ handle_list 9 only_alice)
    × ((persist_registry
          (record only_alice { participants = redact_all only_alice.participants })).registry
        ≡ (persist_registry only_alice).registry)
handle_list-redact_example = handle_list-redact 9 only_alice

abbrev flushed : Job
flushed =
    flush (codes "sb") (record { participant_id = codes "bob"; envelope = letter; queued_at = 5 })

abbrev alice_chain : Chain
alice_chain = record { participant = alice; jobs = flushed ∷ [] }

-- The session with a socket that is dialled.
abbrev dialled : Participant
dialled = record alice {
  delivery = obj (field (codes "socketPath") (str (codes "/run/sa.sock")) end);
}

abbrev job : Job
job = push letter

abbrev chain : Chain
chain = record { participant = dialled; jobs = job ∷ [] }

abbrev waiting : State
waiting = record only_alice { chains = (codes "ta", chain) ∷ [] }

finish_delivery-verdict_example :
    let v = verdict config dialled timed_out in
    let (s', answer) = finish_delivery config 9 timed_out (codes "ta") waiting in
    (queue_of (key_of config dialled job) s'.mailbox
      ≡ kept_in v (requeued 9 job) (queue_of (key_of config dialled job) waiting.mailbox))
    × (answer ≡ told_by v job)
unfolding Maps.get ◌==◌
finish_delivery-verdict_example =
    finish_delivery-verdict config 9 timed_out (codes "ta") chain job [] waiting refl refl

gc_tick-kept_example :
    (Maps.get (codes "ta") (gc_tick config 700000 only_alice).participants
      ≡ unless_stale 700000 (Maps.get (codes "ta") only_alice.participants))
    × (queue_of (codes "sb") (gc_tick config 700000 only_alice).mailbox
        ≡ keep (is_fresh 700000) (queue_of (codes "sb") only_alice.mailbox))
unfolding Maps.has empty
gc_tick-kept_example =
    gc_tick-kept config 700000 only_alice (codes "ta") (codes "sb") (refl, tt) (refl, tt)

abbrev forwarding : State
forwarding = record empty { chains = (codes "ta", alice_chain) ∷ [] }

abbrev failed_forward : List Event
failed_forward = finished 9 timed_out (codes "ta") ∷ tick 10 ∷ []

run-Mirrors_example : Mirrors config (run config failed_forward forwarding)
unfolding Maps.get empty queue_of content
run-Mirrors_example = run-Mirrors config failed_forward forwarding (tt, (tt, tt)) (λ hash. refl, tt)

abbrev entry : MailEntry
entry = record { participant_id = codes "bob"; envelope = letter; queued_at = 5 }

abbrev parsing : Config
parsing = record config { parse = λ line. some entry }

abbrev hash_of_bob : Text
hash_of_bob = codes "0123456789abcdef0123456789abcdef0123456789abcdef0123456789abcdef"

abbrev queued : State
queued = enqueue_mailbox parsing 5 hash_of_bob (codes "bob") letter empty

run-durable_example :
    queue_of hash_of_bob (run parsing (tick 6 ∷ [] ++ restart 9 ∷ []) queued).mailbox
    ≡ keep (is_fresh 9) (queue_of hash_of_bob (run parsing (tick 6 ∷ []) queued).mailbox)
unfolding Maps.get Maps.set Maps.has empty queue_of strip ◌==◌ is_hex has_code is_space
    enqueue_mailbox rewrite_mailbox_file write_queue content run step gc_tick gc_participants
    gc_mailbox gc_queue keep is_fresh
run-durable_example =
    run-durable parsing 9 hash_of_bob (tick 6 ∷ []) queued refl refl (tt, tt)
      ((refl, refl, refl), tt)
      (enqueue_mailbox-Mirrors parsing 5 hash_of_bob (codes "bob") letter empty (λ hash. refl, tt))
