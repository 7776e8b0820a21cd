-- ===== src/Codex/Bus/Overtaken.antt =====
-- A request to turn the bus off that overtakes a change of the profile.
use inter_agent_bus.Base.{
  true, false, Option, none, Text, List, [], ◌∷◌, ◌≡◌, refl, codes, ◌==◌, pick, any,
}
use inter_agent_bus.Value.{
  Value, Fields, obj, field, end, str, get_prop, is_text, is_nullish, lookup,
}
use inter_agent_bus.Wrapper.{Profile, update_registration_profile}
use inter_agent_bus.Codex.Bus.{
  Bus, Event, control, stop_over, start_over, no_watch, turned, enabled, disabled, run, step,
  handle_control_request, enable_bus, enable_started, disable_bus, stop_or_done, end_picked,
  stop_ended, start_when_ready, start_sidecar_now, start_ended, resume, resume_one, start_answer,
  is_stop,
}
use inter_agent_bus.Codex.Bus.Progress.{is_quiet}
use inter_agent_bus.Codex.Bus.Settling.{is_coming, is_going, is_waiting, is_failed}
use inter_agent_bus.Codex.Bus.Resume.{is_stop_to_disable, is_wait_to_disable}

abbrev pub off_request : Value
off_request = obj (field (codes "type") (str (codes "disable")) end)

abbrev pub on_request : Fields → Value
on_request fields = obj (field (codes "type") (str (codes "enable")) fields)

-- The bus is on, and nothing is under way.
abbrev pub turned_on : Option Text → Profile → Bus
turned_on error profile = record {
  sidecar_started = true;
  desired_enabled = true;
  starting = false;
  watch = no_watch;
  last_error = error;
  profile = profile;
  tasks = [];
}

-- A request that changes the profile, one to turn the bus off before the sidecar has stopped, and
-- then both stops and the start, all of which go well.
abbrev pub overtaken : Fields → List Event
overtaken fields =
    control true none (on_request fields)
    ∷ control true none off_request
    ∷ stop_over 0 none
    ∷ stop_over 0 none
    ∷ start_over none
    ∷ []

-- If a request to turn the bus off comes while the sidecar stops for a new profile, it is answered
-- as turned off, and then the bus comes on although it is not wanted, with nothing under way.
pub run-overtaken :
    (error : Option Text) (p q : Profile) (fields : Fields)
    → update_registration_profile (on_request fields) p ≡ (q, true)
    → let (b, answers) = run (overtaken fields) (turned_on error p) in
      (answers ≡ turned disabled ∷ turned enabled ∷ [])
      × (b.sidecar_started ≡ true)
      × (b.desired_enabled ≡ false)
      × (is_quiet b ≡ true)
unfolding run step handle_control_request enable_bus enable_started disable_bus stop_or_done
    end_picked stop_ended start_when_ready start_sidecar_now start_ended resume resume_one
    start_answer is_stop is_quiet get_prop lookup is_text is_nullish ◌==◌ pick any is_coming
    is_going is_waiting is_failed is_stop_to_disable is_wait_to_disable
run-overtaken error p q fields changed = rw changed (refl, refl, refl, refl)
