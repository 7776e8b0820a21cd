-- ===== src/Codex/Bus.antt =====
-- The control requests of adapters/codex-pty/wrapper.js: how the bus is turned on and off, with the
-- wait for a thread before the sidecar starts.
pub mod Settling
pub mod Progress
pub mod Overtaken
pub mod Resume
use inter_agent_bus.Base.{
  ℕ, Bool, true, false, not, ◌&&◌, Option, none, some, List, [], ◌∷◌, ◌++◌, Text, codes,
  if◌then◌else◌, pick,
}
use inter_agent_bus.Value.{Value, get_prop, is_nullish, is_text, obj, end}
use inter_agent_bus.Wrapper.{Profile, update_registration_profile}

-- What goes on when something has ended: a request behind the stop of the sidecar, which knows
-- whether a thread was there when it came, a request behind the start, and the watch for a thread
-- behind the start that it asked for.
pub data Task : Type 0 where
  stop_to_update : Bool → Task
  stop_to_disable wait_to_enable wait_to_disable wait_of_watch : Task

-- `threadWatchPromise`: unset, waiting for a thread, or waiting for the start.
pub data Watch : Type 0 where
  no_watch waiting starting_up : Watch

-- `starting` says that `enablePromise` is set. What does not change, and the time of the last
-- transition, are left out.
pub record Bus : Type 0 where
  pub sidecar_started : Bool
  pub desired_enabled : Bool
  pub starting : Bool
  pub watch : Watch
  pub last_error : Option Text
  pub profile : Profile
  pub tasks : List Task

pub data Status : Type 0 where
  enabled disabled pending awaiting_thread : Status
  failed : Option Text → Status

-- What is answered: to a request to turn the bus on or off, and to the other requests.
pub data Answer : Type 0 where
  turned : Status → Answer
  ok : Status → Answer
  identity : Text → Answer
  bus_disabled bus_not_ready unknown_type threw : Answer
  reason : Text → Answer

abbrev pub Answers : Type 0
Answers = List Answer

abbrev pub put_off : Task → Bus → Bus × Answers
put_off t b = (record b { tasks = b.tasks ++ t ∷ [] }, [])

-- The state that `buildStatus` shows; `ready` says that the thread file has an id.
unfoldable pub status_of : Bool → Bus → Status
status_of ready b =
    if b.sidecar_started
    then enabled
    else if not b.desired_enabled
    then disabled
    else if not ready
    then awaiting_thread
    else elim b.last_error [ none ↦ pending | some e ↦ failed (some e) ]

-- `startSidecarNow`, for the request or the watch that goes on behind the start.
unfoldable pub start_sidecar_now : Task → Bus → Bus × Answers
start_sidecar_now t b = put_off t (record b { starting = true })

-- `ensureThreadWatch`
unfoldable pub ensure_thread_watch : Watch → Watch
ensure_thread_watch no_watch = waiting
ensure_thread_watch w = w

-- The end of `enableBus`, when the sidecar is stopped.
unfoldable pub start_when_ready : Bool → Bus → Bus × Answers
unfolding start_sidecar_now ensure_thread_watch
start_when_ready true b = start_sidecar_now wait_to_enable b
start_when_ready false b = (
  record b { last_error = none; watch = ensure_thread_watch b.watch },
  turned awaiting_thread ∷ [],
)

unfoldable pub enable_started : Bool → Bool → Bus → Bus × Answers
enable_started ready true b = put_off (stop_to_update ready) b
enable_started ready false b = (b, turned enabled ∷ [])

unfoldable pub enable_bus : Bool → Value → Bus → Bus × Answers
unfolding enable_started start_when_ready
enable_bus ready req b =
    let (profile, changed) = update_registration_profile req b.profile in
    let b' = record b { profile = profile; desired_enabled = true } in
    if b.sidecar_started then enable_started ready changed b' else start_when_ready ready b'

unfoldable pub stop_or_done : Bus → Bus × Answers
stop_or_done b = if b.sidecar_started then put_off stop_to_disable b else (b, turned disabled ∷ [])

unfoldable pub disable_bus : Bus → Bus × Answers
unfolding stop_or_done
disable_bus b =
    let b' = record b { desired_enabled = false } in
    if b.starting then put_off wait_to_disable b' else stop_or_done b'

-- `sidecar.stop()` has ended, for the request that called it.
unfoldable pub stop_ended : Task → Option Text → Bus → Bus × Answers
unfolding start_when_ready
stop_ended (stop_to_update ready) none b =
    start_when_ready ready (record b { sidecar_started = false; last_error = none })
stop_ended stop_to_disable none b =
    (record b { sidecar_started = false; last_error = none }, turned disabled ∷ [])
stop_ended _ (some e) b = (record b { last_error = some e }, turned (failed (some e)) ∷ [])
stop_ended _ none b = (b, [])

unfoldable pub is_stop : Task → Bool
is_stop (stop_to_update ready) = true
is_stop stop_to_disable = true
is_stop _ = false

-- What is answered behind a start.
unfoldable pub start_answer : Bus → Answer
start_answer b = if b.sidecar_started then turned enabled else turned (failed b.last_error)

-- One that waited for the start goes on.
unfoldable pub resume_one : Task → Bus → Bus × Answers
unfolding stop_or_done start_answer
resume_one wait_to_enable b = (b, start_answer b ∷ [])
resume_one wait_to_disable b = stop_or_done b
resume_one wait_of_watch b = (record b { watch = no_watch }, [])
resume_one t b = put_off t b

-- The start is over: those that wait for it go on, one after the other.
unfoldable pub resume : List Task → Bus → Bus × Answers
unfolding resume_one
resume [] b = (b, [])
resume (t ∷ ts) b =
    let (b', answers) = resume_one t b in let (b'', more) = resume ts b' in (b'', answers ++ more)

-- `sidecar.start()` has ended.
unfoldable pub start_ended : Option Text → Bus → Bus × Answers
unfolding resume
start_ended none b =
    resume b.tasks
      (record b { sidecar_started = true; last_error = none; starting = false; tasks = [] })
start_ended (some e) b =
    resume b.tasks (record b { last_error = some e; starting = false; tasks = [] })

abbrev thread_id_not_available : Text
thread_id_not_available = codes "thread_id_not_available"

-- The wait for a thread has ended.
unfoldable pub thread_found : Option Text → Bus → Bus × Answers
unfolding start_sidecar_now
thread_found none b =
    if b.desired_enabled
    then (record b { last_error = some thread_id_not_available; watch = no_watch }, [])
    else (record b { watch = no_watch }, [])
thread_found (some id) b =
    if b.desired_enabled && not b.sidecar_started
    then start_sidecar_now wait_of_watch (record b { watch = starting_up })
    else (record b { watch = no_watch }, [])

unfoldable pub thread_over : Watch → Option Text → Bus → Bus × Answers
unfolding thread_found
thread_over waiting found b = thread_found found b
thread_over _ found b = (b, [])

unfoldable pub end_picked : Option Text → Option (Task × List Task) → Bus → Bus × Answers
unfolding stop_ended is_stop
end_picked failure none b = (b, [])
end_picked failure (some (t, ts)) b =
    if is_stop t then stop_ended t failure (record b { tasks = ts }) else (b, [])

-- `whoami`, with the participant's id that the sidecar has.
unfoldable pub who_am_i : Option Text → Bus → Answer
who_am_i (some (c ∷ id)) b =
    if b.sidecar_started
    then identity (c ∷ id)
    else if b.desired_enabled
    then elim b.last_error [ none ↦ bus_not_ready | some e ↦ reason e ]
    else bus_disabled
who_am_i _ b =
    if b.desired_enabled
    then elim b.last_error [ none ↦ bus_not_ready | some e ↦ reason e ]
    else bus_disabled

-- What happens to a wrapper: a request, with what the thread file and the sidecar say then, the end
-- of a start, of the `n`th task if it is a stop, and of the wait for a thread.
pub data Event : Type 0 where
  control : Bool → Option Text → Value → Event
  start_over : Option Text → Event
  stop_over : ℕ → Option Text → Event
  watch_over : Option Text → Event

-- `handleControlRequest`, which throws on `null`.
unfoldable pub handle_control_request : Bool → Option Text → Value → Bus → Bus × Answers
unfolding enable_bus disable_bus status_of who_am_i
handle_control_request ready id req b =
    let type = get_prop "type" req in
    if is_nullish req
    then (b, threw ∷ [])
    else if is_text "status" type
    then (b, ok (status_of ready b) ∷ [])
    else if is_text "enable" type
    then enable_bus ready req b
    else if is_text "disable" type
    then disable_bus b
    else if is_text "whoami" type
    then (b, who_am_i id b ∷ [])
    else (b, unknown_type ∷ [])

unfoldable pub step : Event → Bus → Bus × Answers
unfolding handle_control_request start_ended end_picked thread_over
step (control ready id req) b = handle_control_request ready id req b
step (start_over failure) b = if b.starting then start_ended failure b else (b, [])
step (stop_over n failure) b = end_picked failure (pick n b.tasks) b
step (watch_over found) b = thread_over b.watch found b

unfoldable pub run : List Event → Bus → Bus × Answers
unfolding step
run [] b = (b, [])
run (e ∷ es) b =
    let (b', answers) = step e b in let (b'', more) = run es b' in (b'', answers ++ more)

-- The wrapper when it begins, with `AUTO_ENABLE` and what the thread file says then.
unfoldable pub launch : Bool → Bool → Profile → Bus
unfolding enable_bus
launch auto_enable ready profile =
    let b : Bus = record {
      sidecar_started = false;
      desired_enabled = auto_enable;
      starting = false;
      watch = no_watch;
      last_error = none;
      profile = profile;
      tasks = [];
    } in
    if auto_enable then (enable_bus ready (obj end) b).0 else b
