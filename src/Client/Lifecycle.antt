-- ===== src/Client/Lifecycle.antt =====
-- How a client of client/client.js comes and goes: it connects, registers, beats, connects again
-- when the connection is lost, and unregisters. Each step is what runs between two awaits.
pub mod Persistent
pub mod Ends
pub mod Persistence
pub mod Closing
use inter_agent_bus.Base.{
  ℕ, ◌+◌, ◌-◌, ◌*◌, Bool, true, false, ◌&&◌, Option, none, some, List, [], ◌∷◌, ◌++◌, pick,
  if◌then◌else◌,
}
use inter_agent_bus.Value.{Value, null, num, get_prop, truthy}
use inter_agent_bus.Client.{reconnect_delay}

-- What awaits something: `register` the connection and then the answer, the reconnect timer the
-- same, `unregister` its answer, and a heartbeat or another call its answer.
pub data Flow : Type 0 where
  connecting_to_register registering : Value → Flow
  connecting_again registering_again unregistering calling : Flow

-- `connected` says that `this.socket` is set; `sockets` counts the sockets that are open. `timers`
-- are the delays of the reconnect timers that run, and `heartbeat` is the period of the heartbeat's
-- timer. A participant is an object.
pub record Life : Type 0 where
  pub connected : Bool
  pub sockets : ℕ
  pub lease_token : Value
  pub participant_id : Value
  pub participant : Option Value
  pub heartbeat : Option ℕ
  pub heartbeat_ms : ℕ
  pub attempts : ℕ
  pub closed : Bool
  pub timers : List ℕ
  pub flows : List Flow

-- `new BusClient()`
abbrev pub new : Life
new = record {
  connected = false;
  sockets = 0;
  lease_token = null;
  participant_id = null;
  participant = none;
  heartbeat = none;
  heartbeat_ms = 20 * 1000;
  attempts = 0;
  closed = false;
  timers = [];
  flows = [];
}

abbrev pub await : Flow → Life → Life
await f s = record s { flows = s.flows ++ f ∷ [] }

-- `_scheduleReconnect`
unfoldable pub schedule_reconnect : Life → Life
schedule_reconnect s = if s.closed then s else record s {
  attempts = s.attempts + 1;
  timers = s.timers ++ reconnect_delay s.attempts ∷ [];
}

-- `response.heartbeatIntervalSec`, in milliseconds, where it is given.
unfoldable pub period_of : Value → ℕ → ℕ
period_of (num n) old = if truthy (num n) then n * 1000 else old
period_of _ old = old

-- What the broker's answer to a registration sets, with `_startHeartbeat`.
unfoldable pub commit : Value → Life → Life
commit response s =
    let period = period_of (get_prop "heartbeatIntervalSec" response) s.heartbeat_ms in
    record s {
      lease_token = get_prop "leaseToken" response;
      participant_id = get_prop "participantId" response;
      heartbeat_ms = period;
      heartbeat = some period;
    }

-- `register`
unfoldable pub register : Value → Life → Life
register participant s =
    if s.connected
    then await (registering participant) s
    else await (connecting_to_register participant) s

-- The end of `unregister`.
unfoldable pub release : Life → Life
release s = record s {
  connected = false;
  lease_token = null;
  participant_id = null;
  participant = none;
}

-- `unregister`, which sends only if there is a connection and a lease.
unfoldable pub unregister : Life → Life
unfolding release
unregister s =
    let s' = record s { closed = true; heartbeat = none } in
    if s.connected && truthy s.lease_token then await unregistering s' else release s'

-- A connection is made, for the flow that asked for it.
unfoldable pub connected_for : Flow → Life → Life
connected_for f s = await f (record s { connected = true; sockets = s.sockets + 1; attempts = 0 })

-- The attempt to connect has ended: `true` if the connection is made.
unfoldable pub connect_ended : Flow → Bool → Life → Life
unfolding connected_for schedule_reconnect
connect_ended (connecting_to_register p) true s = connected_for (registering p) s
connect_ended (connecting_to_register p) false s = s
connect_ended connecting_again true s = connected_for registering_again s
connect_ended connecting_again false s = schedule_reconnect s
connect_ended f made s = await f s

-- The broker's answer, or `none` for an error or a lost connection.
unfoldable pub answer_ended : Flow → Option Value → Life → Life
unfolding commit schedule_reconnect release
answer_ended (registering p) (some response) s = commit response (record s { participant = some p })
answer_ended (registering p) none s = s
answer_ended registering_again (some response) s = commit response s
answer_ended registering_again none s = schedule_reconnect s
answer_ended unregistering answer s = release s
answer_ended calling answer s = s
answer_ended f answer s = await f s

unfoldable pub is_sent : Flow → Bool
is_sent (registering p) = true
is_sent registering_again = true
is_sent unregistering = true
is_sent calling = true
is_sent _ = false

-- The calls that wait are rejected, and what awaited them goes on; the others wait on.
unfoldable pub reject_all : List Flow → Life → Life
unfolding answer_ended
reject_all [] s = s
reject_all (f ∷ fs) s = reject_all fs (answer_ended f none s)

reconnect_if_registered : Option Value → Life → Life
unfolding schedule_reconnect
reconnect_if_registered none s = s
reconnect_if_registered (some p) s = schedule_reconnect s

-- `_onClose`: a closed client, and one that never registered, does not connect again.
unfoldable pub on_close : Life → Life
unfolding reconnect_if_registered reject_all
on_close s =
    let s' = record s { connected = false; sockets = s.sockets - 1; flows = [] } in
    reject_all s.flows (if s.closed then s' else reconnect_if_registered s.participant s')

-- The reconnect timer's function, up to its first await.
unfoldable pub on_timer : Life → Life
on_timer s = if s.closed then s else await connecting_again s

-- The heartbeat timer's function, if the timer runs, up to its await.
unfoldable pub on_beat : Life → Life
on_beat s = elim s.heartbeat [
  | none ↦ s
  | some period ↦ if s.connected && truthy s.lease_token then await calling s else s
]

-- What happens to a client: its user's calls, the end of the `n`th flow by a connection or an
-- answer, a timer, a heartbeat, and the close of a socket.
pub data Event : Type 0 where
  registers : Value → Event
  unregisters calls : Event
  connects : ℕ → Bool → Event
  answers : ℕ → Option Value → Event
  timer : ℕ → Event
  beat closes : Event

unfoldable pub connect_picked : Bool → Option (Flow × List Flow) → Life → Life
unfolding connect_ended
connect_picked made none s = s
connect_picked made (some (f, fs)) s =
    if is_sent f then s else connect_ended f made (record s { flows = fs })

unfoldable pub answer_picked : Option Value → Option (Flow × List Flow) → Life → Life
unfolding answer_ended
answer_picked answer none s = s
answer_picked answer (some (f, fs)) s =
    if is_sent f then answer_ended f answer (record s { flows = fs }) else s

unfoldable pub timer_picked : Option (ℕ × List ℕ) → Life → Life
unfolding on_timer
timer_picked none s = s
timer_picked (some (delay, ts)) s = on_timer (record s { timers = ts })

unfoldable pub step : Event → Life → Life
unfolding register unregister connect_picked answer_picked timer_picked on_beat on_close is_sent
step (registers p) s = register p s
step unregisters s = unregister s
step calls s = if s.connected then await calling s else s
step (connects n made) s = connect_picked made (pick n s.flows) s
step (answers n answer) s = answer_picked answer (pick n s.flows) s
step (timer n) s = timer_picked (pick n s.timers) s
step beat s = on_beat s
step closes s = on_close s

unfoldable pub run : List Event → Life → Life
unfolding step
run [] s = s
run (e ∷ es) s = run es (step e s)
