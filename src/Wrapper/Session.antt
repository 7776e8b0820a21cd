-- ===== src/Wrapper/Session.antt =====
-- The rest of adapters/claude-pty/wrapper.js: control requests, the switch for the start, the exit
-- of the agent, and signals.
pub mod Exit
pub mod Guarded
use inter_agent_bus.Base.{
  ℕ, ◌+◌, ◌&&◌, leb, Bool, true, false, ◌||◌, Option, none, some, List, [], ◌∷◌, ◌++◌, ◌≡◌, refl,
  Text, codes, ◌==◌, All, map, any, if◌then◌else◌, arith,
}
use inter_agent_bus.Base.Maps
use inter_agent_bus.Value.{Value, get_prop, is_text, is_nullish, str}
use inter_agent_bus.Client.Lifecycle
use inter_agent_bus.Client.Lifecycle.Closing.{IsGone, is_registration}
use inter_agent_bus.Sidecar.Start
use inter_agent_bus.Sidecar.Start.{Setup, Running}
use inter_agent_bus.Sidecar.Start.Down.{IsDown, IsSettled, cleanup-IsDown}
use inter_agent_bus.Control
use inter_agent_bus.Control.Server
use inter_agent_bus.Control.Server.{ControlServer, Serving}
use inter_agent_bus.Wrapper.{Wrapper, Status, Answers, Event, enable, disable, run, status_of}

-- A letter as the flag `i` of a regular expression takes it.
lower : ℕ → ℕ
lower c = if leb b'A' c && leb c b'Z' then c + 32 else c

-- `/^(1|true|yes)$/i` on `AGENT_BUS_AUTO_ENABLE`.
unfoldable pub auto_enable : Text → Bool
unfolding lower
auto_enable env = let t = map lower env in t == codes "1" || t == codes "true" || t == codes "yes"

-- What a control request is answered. `turned` has the answers to a request to enable or to
-- disable; `identity` is `whoami` with the participant's id.
pub data ControlReply : Type 0 where
  ok : Status → ControlReply
  turned : Answers → ControlReply
  identity reason : Text → ControlReply
  bus_not_ready bus_disabled unknown_type : ControlReply

-- Why there is no id to tell.
unfoldable pub no_identity : Wrapper → ControlReply
no_identity w =
    if w.desired_enabled
    then elim w.last_error [
      | none ↦ bus_not_ready
      | some e ↦ if e == [] then bus_not_ready else reason e
    ]
    else bus_disabled

-- `whoami`, with the id that the sidecar's client has.
unfoldable pub who_am_i : Option Text → Wrapper → ControlReply
unfolding no_identity
who_am_i (some (c ∷ id)) w = if w.sidecar_started then identity (c ∷ id) else no_identity w
who_am_i _ w = no_identity w

turn : Wrapper × Answers → Wrapper × ControlReply
turn (w, answers) = (w, turned answers)

-- `handleControlRequest`, run to its end; `meanwhile` is what happens until then to the starts and
-- stops that it sets off.
unfoldable pub handle_control_request :
    List Event → Option Text → Value → Wrapper → Wrapper × ControlReply
unfolding turn who_am_i
handle_control_request meanwhile id req w =
    let type = get_prop "type" req in
    if is_text "status" type
    then (w, ok (status_of w))
    else if is_text "enable" type
    then turn (run (enable req ∷ meanwhile) w)
    else if is_text "disable" type
    then turn (run (disable ∷ meanwhile) w)
    else if is_text "whoami" type
    then (w, who_am_i id w)
    else (w, unknown_type)

-- What the control server hands a request to; on `null` the handler throws. `value_of` is the JSON
-- value of a reply.
unfoldable pub handler :
    (Wrapper → ControlReply → Value)
    → List Event
    → Option Text
    → Value
    → Wrapper
    → Wrapper × Control.Outcome
unfolding handle_control_request
handler value_of meanwhile id req w =
    if is_nullish req
    then (w, Control.threw (codes "Cannot read properties of null (reading 'type')"))
    else let (w', reply) = handle_control_request meanwhile id req w in
      (w', Control.returned (value_of w' reply))

-- What an agent's session consists of.
pub record AgentSession : Type 0 where
  pub wrapper : Wrapper
  pub sidecar : Running
  pub control : Serving

-- The agent's exit: `onExit`, run until the process exits. The sidecar is stopped if it counts as
-- started.
unfoldable pub on_exit : Setup → ControlServer → List Lifecycle.Event → AgentSession → AgentSession
on_exit u k goodbye s = record {
  wrapper = record s.wrapper { desired_enabled = false };
  sidecar = if s.wrapper.sidecar_started then Start.stop u goodbye s.sidecar else s.sidecar;
  control = Server.stop k s.control;
}

pub data Signal : Type 0 where
  sigint sigterm sighup : Signal

-- The terminal of the agent: whether it is killed, and what is written to it.
pub record Terminal : Type 0 where
  pub killed : Bool
  pub input : Text

-- `forwardSignal`
unfoldable pub forward_signal : Signal → Terminal → Terminal
forward_signal sigint t = if t.killed then t else record t { input = t.input ++ 3 ∷ [] }
forward_signal _ t = if t.killed then t else record t { killed = true }
