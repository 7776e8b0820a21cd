-- ===== src/Broker.antt =====
-- broker/broker.js: the broker as a state that requests, finished deliveries, the collector and a
-- restart change one at a time.
pub mod Types
pub mod Mail
pub mod Delivery
pub mod Leases
pub mod Gc
pub mod Register
pub mod Push
pub mod Registry
pub mod Reclaim
pub mod Privacy
pub mod Stamp
pub mod Fifo
pub mod Settled
pub mod Swept
pub mod Mirror
pub mod Restored
pub mod Addressable
pub mod Launch
mod Tests
use inter_agent_bus.Base.{
  ℕ, Bool, true, false, Option, none, some, List, [], ◌∷◌, ◌++◌, Text, codes, if◌then◌else◌,
}
use inter_agent_bus.Value.{Value, get_prop, is_text, is_nullish}
use Types.{State, Config, Response, error, Reply, done, waits, unknown_type, internal}
use Mail.{load_mailbox_from_disk}
use Delivery.{Outcome, finish_delivery}
use Leases.{handle_heartbeat, handle_list, handle_unregister}
use Gc.{gc_tick}
use Register.{handle_register}
use Push.{handle_push}

abbrev at_once : State × Response → State × Reply
at_once (s, r) = (s, done r)

pub data RequestType : Type 0 where
  register_participant heartbeat list_participants push_message unregister_participant unknown :
      RequestType

-- The labels of the `switch` on the type of a request.
unfoldable pub request_type : Value → RequestType
request_type v =
    if is_text "register_participant" v
    then register_participant
    else if is_text "heartbeat" v
    then heartbeat
    else if is_text "list_participants" v
    then list_participants
    else if is_text "push_message" v
    then push_message
    else if is_text "unregister_participant" v
    then unregister_participant
    else unknown

unfoldable pub dispatch : Config → ℕ → Text → RequestType → Value → State → State × Reply
dispatch c now token register_participant req s = at_once (handle_register c now token req s)
dispatch c now token heartbeat req s = at_once (handle_heartbeat now req s)
dispatch c now token list_participants req s = (s, done (handle_list now s))
dispatch c now token push_message req s = handle_push c now req s
dispatch c now token unregister_participant req s = at_once (handle_unregister now req s)
dispatch c now token unknown req s = (s, done (error unknown_type))

-- Reading the type of `null` throws.
unfoldable pub handle_request : Config → ℕ → Text → Value → State → State × Reply
unfolding dispatch
handle_request c now token req s =
    if is_nullish req
    then (s, done (error internal))
    else dispatch c now token (request_type (get_prop "type" req)) req s

-- What a broker that starts finds: the files, and no participant.
unfoldable pub start : Config → ℕ → State → State
start c now s = load_mailbox_from_disk c now (record s {
  participants = [];
  participants_by_id = [];
  recent_participants = [];
  mailbox = [];
  chains = [];
})

-- What changes the broker's state, with the time at which it does. A request comes with the lease
-- token that a registration would generate.
pub data Event : Type 0 where
  request : ℕ → Text → Value → Event
  finished : ℕ → Outcome → Text → Event
  tick : ℕ → Event
  restart : ℕ → Event

unfoldable pub step : Config → Event → State → State
step c (request now token req) s = (handle_request c now token req s).0
step c (finished now outcome token) s = (finish_delivery c now outcome token s).0
step c (tick now) s = gc_tick c now s
step c (restart now) s = start c now s

unfoldable pub run : Config → List Event → State → State
run c [] s = s
run c (e ∷ es) s = run c es (step c e s)

unfoldable pub empty : State
empty = record {
  participants = [];
  participants_by_id = [];
  recent_participants = [];
  mailbox = [];
  mailbox_files = [];
  registry = [];
  log = [];
  chains = [];
}
