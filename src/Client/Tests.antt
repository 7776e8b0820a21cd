-- ===== src/Client/Tests.antt =====
-- The client's theorems at two calls, at a message, and at one delay.
use inter_agent_bus.Value.{
  lookup, get_prop, num, field, Value, undefined, null, str, arr, nil, obj, end, is_nullish,
  or_else, truthy,
}
use inter_agent_bus.Base.{
  ℕ, any, pick, false, List, [], ◌∷◌, ◌++◌, ◌≡◌, refl, Option, some, none, Text, codes, ◌==◌,
  has_code, ◌≤◌, suc, ◌+◌, drop, length, arith,
}
use inter_agent_bus.Client.Lifecycle.Closing.{
  is_registration, IsGone, reconnecting, run-stays_away, run-outlived,
}
use inter_agent_bus.Client.{
  true, Options, message_of, send_request, reconnect_delay, reconnect_base_ms, reconnect_cap_ms,
}
use inter_agent_bus.Client.Lifecycle.{
  Event, registers, unregisters, connects, answers, timer, closes, beat, calling, await, new, run,
  step, unregister, period_of,
}
use inter_agent_bus.Client.Lifecycle.Persistent.{is_registered, is_trying, is_reconnecting}
use inter_agent_bus.Client.Lifecycle.Persistence.{run-keeps_on}
use inter_agent_bus.Base.Maps
use inter_agent_bus.Strings.{is_space}
use inter_agent_bus.Strings.Runs.{strip}
use inter_agent_bus.Framing.Chunks.{written}
use inter_agent_bus.Framing.Decoder.{buffer_to_string, decode, end_of_bytes}
use inter_agent_bus.Framing.Whole.{join_all}
use inter_agent_bus.Ids.{is_participant_id, is_handle, is_lower, is_slug}
use inter_agent_bus.Broker.{empty}
use inter_agent_bus.Broker.Types.{Config, State, Participant, is_lease_valid}
use inter_agent_bus.Broker.Push.{handle_push, push_envelope}
use inter_agent_bus.Client.Calls.{on_all, running, matched, on_all-matched}
use inter_agent_bus.Client.Backoff.{reconnect_delay-bounds}
use inter_agent_bus.Client.Send.{sent_envelope, handle_push-send}

abbrev parse_braces : Text → Option Value
parse_braces [] = none
parse_braces (c ∷ s) = some (obj end)

abbrev chunks : List (List ℕ)
chunks = codes "{}\n{" ∷ codes "}\n" ∷ []

abbrev messages : List Text
messages = codes "{}" ∷ codes "{}" ∷ []

braces_are_answers :
    (response : Value) → parse_braces (codes "{}") ≡ some response → is_nullish response ≡ false
unfolding is_nullish
braces_are_answers (obj fs) h = refl
braces_are_answers undefined h = cc
braces_are_answers null h = cc
braces_are_answers _ h = refl

on_all-matched_example :
    on_all parse_braces chunks (running [] (7 ∷ 8 ∷ 9 ∷ []) [])
    ≡ running []
        (drop (length messages) (7 ∷ 8 ∷ 9 ∷ []))
        ([] ++ matched parse_braces messages (7 ∷ 8 ∷ 9 ∷ []))
unfolding has_code ◌==◌ strip is_space join_all written buffer_to_string decode end_of_bytes
on_all-matched_example =
    on_all-matched parse_braces messages chunks (7 ∷ 8 ∷ 9 ∷ []) []
      ((refl, refl), ((refl, refl), tt)) (braces_are_answers, (braces_are_answers, tt))
      (refl, (refl, tt)) refl

reconnect_delay-bounds_example :
    (reconnect_base_ms ≤ reconnect_delay 2)
    × (reconnect_delay 2 ≤ reconnect_cap_ms)
    × (reconnect_delay 2 ≤ reconnect_delay (suc 2))
    × (reconnect_delay (5 + 2) ≡ reconnect_cap_ms)
reconnect_delay-bounds_example = reconnect_delay-bounds 2

abbrev config : Config
config = record {
  paths = record {
    cwd = codes "/";
    adapter_sockets_dir = codes "/run";
    allow_unbound_delivery_socket = false;
  };
  sha256 = λ s. s;
  iso = λ n. codes "2026-01-01T10:20:30.000Z";
  stringify = λ e. e.envelope.id;
  parse = λ line. none;
}

abbrev alice : Participant
alice = record {
  participant_id = codes "alice";
  kind = codes "claude";
  session_id = codes "sa";
  display_name = none;
  description = none;
  project = null;
  cwd = null;
  capabilities = arr nil;
  delivery = null;
  registered_at = 0;
  last_heartbeat = 0;
  lease_expires_at = 75000;
  lease_token = codes "ta";
}

abbrev only_alice : State
only_alice = record empty {
  participants = (codes "ta", alice) ∷ [];
  participants_by_id = (codes "alice", codes "ta") ∷ [];
}

abbrev no_options : Options
no_options = record { id = undefined; reply_to = null; conversation_id = null; source = undefined }

abbrev noon : Text
noon = codes "2026-01-01T12:00:00.000Z"

handle_push-send_example :
    handle_push config 5
      (send_request
        (str (codes "ta"))
        (str (codes "bob"))
        (message_of no_options (codes "m1") (str (codes "hello")) noon))
      only_alice
    ≡ push_envelope config 5
        (sent_envelope alice (codes "m1") (codes "bob") (codes "hello") no_options noon)
        only_alice
unfolding Maps.get ◌==◌ is_lease_valid is_participant_id is_handle is_lower is_slug or_else truthy
    empty
handle_push-send_example =
    handle_push-send config 5 only_alice alice (codes "ta") (codes "bob") (codes "m1")
      (codes "hello") noon (codes "m1") no_options refl refl refl refl (omega arith) (omega arith)
      (omega arith) (omega arith)

abbrev granted : Value
granted = obj (
    field (codes "leaseToken") (str (codes "ta"))
      (field (codes "heartbeatIntervalSec") (num 20) end))

-- The connection is lost, and the first attempt to connect again fails.
abbrev lost : List Event
lost =
    registers null
    ∷ connects 0 true
    ∷ answers 0 (some granted)
    ∷ closes
    ∷ timer 0
    ∷ connects 0 false
    ∷ []

run-keeps_on_example :
    (is_registered (run lost new) ≡ true → is_trying (run lost new) ≡ true)
    × (is_registered (run lost new) ≡ false → is_reconnecting (run lost new) ≡ false)
unfolding run pick
run-keeps_on_example = run-keeps_on lost refl

run-stays_away_example :
    IsGone (run (timer 0 ∷ answers 0 none ∷ closes ∷ []) (unregister (run lost new)))
unfolding any run pick is_registration
run-stays_away_example =
    run-stays_away (timer 0 ∷ answers 0 none ∷ closes ∷ []) (run lost new) refl refl

run-outlived_example :
    let u =
      run
        (unregisters ∷ connects 0 true ∷ answers 0 (some granted) ∷ [])
        (reconnecting (run lost new)) in
    (u.closed ≡ true)
    × (u.connected ≡ true)
    × (u.lease_token ≡ get_prop "leaseToken" granted)
    × (u.heartbeat
        ≡ some (period_of (get_prop "heartbeatIntervalSec" granted) (run lost new).heartbeat_ms))
    × (step beat u ≡ await calling u)
unfolding truthy get_prop lookup ◌==◌
run-outlived_example = run-outlived (run lost new) granted refl
