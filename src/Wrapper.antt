-- ===== src/Wrapper.antt =====
-- The control requests of the PTY wrappers (adapters/claude-pty/wrapper.js and, with the wait for a
-- thread, adapters/codex-pty/wrapper.js): the registration profile, and how the sidecar is started
-- and stopped.
pub mod Field
pub mod Exclusive
pub mod Sequential
pub mod Session
mod Tests
use inter_agent_bus.Base.{
  ℕ, zero, suc, Bool, true, false, not, ◌&&◌, ◌||◌, Option, none, some, List, [], ◌∷◌, ◌++◌, Text,
  codes, ◌==◌, take, if◌then◌else◌, pick,
}
use inter_agent_bus.Value.{
  Value, undefined, null, bool, num, str, arr, obj, Fields, field, end, get_prop, is_text,
  of_option,
}
use inter_agent_bus.Strings.{collapse}

abbrev pub display_name_max : ℕ
display_name_max = 64

abbrev pub description_max : ℕ
description_max = 200

unfoldable pub cut_field : ℕ → Text → Option Text
cut_field max_length [] = none
cut_field max_length (c ∷ s) = some (take max_length (c ∷ s))

unfoldable pub normalize_registration_field : Value → ℕ → Option Text
unfolding cut_field
normalize_registration_field (str s) max_length = cut_field max_length (collapse s)
normalize_registration_field _ max_length = none

pub record Profile : Type 0 where
  pub display_name : Option Text
  pub description : Option Text

unfoldable pub same_field : Option Text → Option Text → Bool
same_field none none = true
same_field (some s) (some t) = s == t
same_field _ _ = false

-- `hasOwnProperty` on a request.
unfoldable pub has_field : Text → Fields → Bool
has_field k end = false
has_field k (field j v fs) = if j == k then true else has_field k fs

unfoldable pub has_own : Text → Value → Bool
unfolding has_field
has_own k (obj fs) = has_field k fs
has_own k _ = false

-- The new value of a field, and whether it changed.
unfoldable pub update_field : Bool → Option Text → Option Text → Option Text × Bool
update_field given next old =
    if given && not (same_field old next) then (next, true) else (old, false)

unfoldable pub update_registration_profile : Value → Profile → Profile × Bool
unfolding update_field
update_registration_profile req profile =
    let (name, name_changed) =
      update_field (has_own (codes "displayName") req)
        (normalize_registration_field (get_prop "displayName" req) display_name_max)
        profile.display_name in
    let (text, text_changed) =
      update_field (has_own (codes "description") req)
        (normalize_registration_field (get_prop "description" req) description_max)
        profile.description in
    (record { display_name = name; description = text }, name_changed || text_changed)

-- What a request waits for: the sidecar to stop, before it starts with a new profile or for good,
-- or the start that is under way.
pub data Task : Type 0 where
  stop_to_update stop_to_disable wait_to_enable wait_to_disable : Task

-- `starting` says that `enablePromise` is set; the request that set it waits for it like those that
-- come later. `last_transition_at` and what does not change are left out.
pub record Wrapper : Type 0 where
  pub sidecar_started : Bool
  pub desired_enabled : Bool
  pub starting : Bool
  pub last_error : Option Text
  pub profile : Profile
  pub tasks : List Task

pub data Status : Type 0 where
  enabled disabled pending : Status
  failed : Option Text → Status

-- The answers that are written at a step.
abbrev pub Answers : Type 0
Answers = List Status

-- A request waits.
abbrev pub put_off : Task → Wrapper → Wrapper × Answers
put_off t w = (record w { tasks = w.tasks ++ t ∷ [] }, [])

-- `enablePromise` is set, unless it is.
unfoldable pub start_or_wait : Wrapper → Wrapper × Answers
start_or_wait w = put_off wait_to_enable (record w { starting = true })

enable_started : Bool → Wrapper → Wrapper × Answers
enable_started true w = put_off stop_to_update w
enable_started false w = (w, enabled ∷ [])

unfoldable pub enable_bus : Value → Wrapper → Wrapper × Answers
unfolding enable_started
enable_bus req w =
    let (profile, changed) = update_registration_profile req w.profile in
    let w' = record w { profile = profile; desired_enabled = true } in
    if w.sidecar_started then enable_started changed w' else start_or_wait w'

unfoldable pub stop_or_done : Wrapper → Wrapper × Answers
stop_or_done w = if w.sidecar_started then put_off stop_to_disable w else (w, disabled ∷ [])

unfoldable pub disable_bus : Wrapper → Wrapper × Answers
disable_bus w =
    let w' = record w { desired_enabled = false } in
    if w.starting then put_off wait_to_disable w' else stop_or_done w'

-- `buildStatus`
unfoldable pub status_of : Wrapper → Status
status_of w =
    if w.sidecar_started
    then enabled
    else if w.desired_enabled
    then elim w.last_error [ none ↦ pending | some e ↦ failed (some e) ]
    else disabled

-- What an `enable` answers behind a start.
unfoldable pub start_answer : Wrapper → Status
start_answer w = if w.sidecar_started then enabled else failed w.last_error

-- `sidecar.stop()` has ended, for the request that called it.
stop_ended : Task → Option Text → Wrapper → Wrapper × Answers
stop_ended stop_to_update none w =
    start_or_wait (record w { sidecar_started = false; last_error = none })
stop_ended stop_to_disable none w =
    (record w { sidecar_started = false; last_error = none }, disabled ∷ [])
stop_ended _ (some e) w = (record w { last_error = some e }, failed (some e) ∷ [])
stop_ended _ none w = (w, [])

is_stop : Task → Bool
is_stop stop_to_update = true
is_stop stop_to_disable = true
is_stop _ = false

-- The start is over: those that wait for it go on, one after the other.
resume : List Task → Wrapper → Wrapper × Answers
resume [] w = (w, [])
resume (stop_to_update ∷ ts) w =
    let (w', answers) = resume ts (put_off stop_to_update w).0 in (w', answers)
resume (stop_to_disable ∷ ts) w =
    let (w', answers) = resume ts (put_off stop_to_disable w).0 in (w', answers)
resume (wait_to_enable ∷ ts) w = let (w', answers) = resume ts w in (w', start_answer w ∷ answers)
resume (wait_to_disable ∷ ts) w =
    let (w', answer) = stop_or_done w in
    let (w'', answers) = resume ts w' in (w'', answer ++ answers)

-- `sidecar.start()` has ended.
start_ended : Option Text → Wrapper → Wrapper × Answers
unfolding resume
start_ended none w =
    resume w.tasks
      (record w { sidecar_started = true; last_error = none; starting = false; tasks = [] })
start_ended (some e) w =
    resume w.tasks (record w { last_error = some e; starting = false; tasks = [] })

-- What happens to a wrapper: a request, the end of a start, and the end of the `n`th task that
-- waits, if it is a stop; each may end with an error.
pub data Event : Type 0 where
  enable : Value → Event
  disable : Event
  start_over : Option Text → Event
  stop_over : ℕ → Option Text → Event

end_picked : Option Text → Option (Task × List Task) → Wrapper → Wrapper × Answers
unfolding stop_ended
end_picked failure none w = (w, [])
end_picked failure (some (t, ts)) w =
    if is_stop t then stop_ended t failure (record w { tasks = ts }) else (w, [])

pub step : Event → Wrapper → Wrapper × Answers
step (enable req) w = enable_bus req w
step disable w = disable_bus w
step (start_over failure) w = if w.starting then start_ended failure w else (w, [])
step (stop_over n failure) w = end_picked failure (pick n w.tasks) w

pub run : List Event → Wrapper → Wrapper × Answers
run [] w = (w, [])
run (e ∷ es) w =
    let (w', answers) = step e w in let (w'', more) = run es w' in (w'', answers ++ more)
