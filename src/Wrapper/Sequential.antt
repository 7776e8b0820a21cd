-- ===== src/Wrapper/Sequential.antt =====
-- Requests that do not overlap do what they say, and what happens to two that do.
use inter_agent_bus.Base.{
  Bool, List, Option, Text, [], ap, false, if◌then◌else◌, none, refl, true, ◌++◌, ◌∙◌, ◌∷◌, ◌≡◌,
  pick,
}
use inter_agent_bus.Wrapper.{
  Answers, Event, Profile, Wrapper, disable, disable_bus, disabled, enable, enable_bus,
  enable_started, enabled, end_picked, is_stop, pending, resume, run, start_answer, start_ended,
  start_or_wait, start_over, status_of, step, stop_ended, stop_or_done, stop_over,
  update_registration_profile,
}
use inter_agent_bus.Value.{Value}

-- A wrapper with nothing under way.
abbrev pub idle : Bool → Bool → Option Text → Profile → Wrapper
idle started desired error profile = record {
  sidecar_started = started;
  desired_enabled = desired;
  starting = false;
  last_error = error;
  profile = profile;
  tasks = [];
}

-- What a request may set off ends well: a start, or a stop with a start behind it.
abbrev pub completed : List Event
completed = start_over none ∷ stop_over 0 none ∷ start_over none ∷ []

-- Only an `enable` with nothing to do leaves the last error.
abbrev error_kept : Option Text → Bool → Bool → Option Text
error_kept error true false = error
error_kept error _ _ = none

run-enable :
    (started desired changed : Bool) (error : Option Text) (p profile : Profile) (req : Value)
    → update_registration_profile req p ≡ (profile, changed)
    → run (enable req ∷ completed) (idle started desired error p)
      ≡ (idle true true (error_kept error started changed) profile, enabled ∷ [])
unfolding run step enable_bus enable_started start_or_wait end_picked pick is_stop stop_ended
    start_ended resume start_answer
run-enable true desired true error p profile req h = rw h refl
run-enable true desired false error p profile req h = rw h refl
run-enable false desired true error p profile req h = rw h refl
run-enable false desired false error p profile req h = rw h refl

run-disable :
    (started desired : Bool) (error : Option Text) (p : Profile)
    → run (disable ∷ completed) (idle started desired error p)
      ≡ (idle false false (if started then none else error) p, disabled ∷ [])
unfolding run step disable_bus stop_or_done end_picked pick is_stop stop_ended
run-disable true desired error p = refl
run-disable false desired error p = refl

-- A request that is served before the next one comes.
pub data Request : Type 0 where
  to_enable : Value → Request
  to_disable : Request

abbrev event_of : Request → Event
event_of (to_enable req) = enable req
event_of to_disable = disable

unfoldable pub serve_all : List Request → Wrapper → Wrapper × Answers
serve_all [] w = (w, [])
serve_all (r ∷ rs) w =
    let (w', answers) = run (event_of r ∷ completed) w in
    let (w'', more) = serve_all rs w' in (w'', answers ++ more)

-- What the requests ask for: whether the bus is on, with which profile, and the answers.
unfoldable pub asked : List Request → Bool → Profile → Bool × Profile × Answers
asked [] on p = (on, p, [])
asked (to_enable req ∷ rs) on p =
    let (on', p', more) = asked rs true (update_registration_profile req p).0 in
    (on', p', enabled ∷ more)
asked (to_disable ∷ rs) on p = let (on', p', more) = asked rs false p in (on', p', disabled ∷ more)

abbrev served : List Request → Wrapper × Answers → Wrapper × Answers
served rs r = ((serve_all rs r.0).0, r.1 ++ (serve_all rs r.0).1)

-- Requests to enable and to disable that are served one after the other, each with the starts and
-- stops that it sets off going well, leave a wrapper in which nothing is under way, on exactly as
-- the last of them asked, with the profile that the requests to enable make up, and each is
-- answered by what it asked for.
pub serve_all-asked :
    (rs : List Request) (on : Bool) (error : Option Text) (p : Profile)
    → let (on', p', answers) = asked rs on p in
      (error' : Option Text) × (serve_all rs (idle on on error p)
        ≡ (idle on' on' error' p', answers))
unfolding serve_all asked
serve_all-asked [] on error p = (error, refl)
serve_all-asked (to_enable req ∷ rs) on error p =
    let (profile, changed) = update_registration_profile req p in
    let (error', same) = serve_all-asked rs true (error_kept error on changed) profile in
    (
      error',
      ap (served rs) (run-enable on on changed error p profile req refl)
          ∙ ap (λ (r : Wrapper × Answers). (r.0, enabled ∷ r.1)) same,
    )
serve_all-asked (to_disable ∷ rs) on error p =
    let (error', same) = serve_all-asked rs false (if on then none else error) p in
    (
      error',
      ap (served rs) (run-disable on on error p)
          ∙ ap (λ (r : Wrapper × Answers). (r.0, disabled ∷ r.1)) same,
    )

-- A request to enable that comes while the stop of a `disable` is under way, and leaves the profile
-- as it is, is answered at once as enabled, but the bus is off when the stop is over, and nothing
-- is under way that would turn it on.
pub run-overlap :
    (desired : Bool) (error : Option Text) (p : Profile) (req : Value)
    → update_registration_profile req p ≡ (p, false)
    → let (w, answers) =
        run (disable ∷ enable req ∷ stop_over 0 none ∷ []) (idle true desired error p) in
      (answers ≡ enabled ∷ disabled ∷ []) × (w ≡ idle false true none p) × (status_of w ≡ pending)
unfolding run step enable_bus enable_started disable_bus stop_or_done end_picked pick is_stop
    stop_ended status_of
run-overlap desired error p req h = rw h (refl, refl, refl)
