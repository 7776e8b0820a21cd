-- ===== src/Codex/Tests.antt =====
-- The codex wrapper's theorems at short histories.
use inter_agent_bus.Wrapper.{
  has_own, normalize_registration_field, update_registration_profile, same_field, Profile,
}
use inter_agent_bus.Strings.{is_space, collapse}
use inter_agent_bus.Strings.Runs.{strip, squeeze}
use inter_agent_bus.Value.{get_prop, lookup, is_text, obj, field, end, str}
use inter_agent_bus.Base.{
  ◌==◌, Text, ℕ, ◌<◌, ◌+◌, ◌*◌, true, false, Option, none, some, List, [], ◌∷◌, ◌≡◌, ◌||◌, refl,
  codes, arith, any, eqb, if◌then◌else◌,
}
use inter_agent_bus.Codex.Bus.{
  step, Event, control, start_over, stop_over, watch_over, launch, run, disabled, enabled, turned,
}
use inter_agent_bus.Codex.Thread.{Poll, deadline, wait_for_thread_id}
use inter_agent_bus.Codex.Thread.Ends.{IsPaced, IsQuiet, EndsWith, rounds, wait_for_thread_id-ends}
use inter_agent_bus.Codex.Bus.Settling.{is_coming, is_going, is_failed}
use inter_agent_bus.Codex.Bus.Progress.{in_order, is_in_order, is_quiet, run-settles}
use inter_agent_bus.Codex.Bus.Overtaken.{off_request, overtaken, turned_on, run-overtaken}

-- The thread appears in the third round.
abbrev poll : ℕ → Poll
poll n = record {
  now = 7 + n * 1000;
  file = if eqb n 2 then some (obj (field (codes "thread_id") (str (codes "t")) end)) else none;
  is_alive = true;
}

poll-IsPaced : IsPaced 7 poll
poll-IsPaced = (omega arith, λ n. omega arith)

wait_for_thread_id-ends_example :
    (r : Option Text) × (n : ℕ) × (wait_for_thread_id 6 (some 5) 4711 7 poll ≡ some r)
    × (n < rounds (some 5))
    × ((k : ℕ) → k < n → IsQuiet 4711 (deadline 7 (some 5)) poll k)
    × EndsWith 4711 (deadline 7 (some 5)) poll n r
wait_for_thread_id-ends_example =
    wait_for_thread_id-ends 6 4711 7 (some 5) poll (omega arith) poll-IsPaced

abbrev profile : Profile
profile = record { display_name = none; description = none }

-- The bus is turned on before there is a thread, and off again behind the start.
abbrev history : List Event
history =
    watch_over (some (codes "t"))
    ∷ start_over none
    ∷ control true none off_request
    ∷ stop_over 0 none
    ∷ []

run-settles_example :
    let b = (run history (launch true false profile)).0 in
    (b.desired_enabled ≡ true → b.sidecar_started ≡ false → is_coming b ≡ true)
    × (b.desired_enabled ≡ false
        → b.sidecar_started ≡ true
        → (is_going b || is_failed b.last_error) ≡ true)
    × (is_quiet b ≡ true → b.sidecar_started ≡ b.desired_enabled)
unfolding in_order is_in_order is_text get_prop lookup ◌==◌ any step launch
run-settles_example = run-settles true false profile history refl

run-overtaken_example :
    let (b, answers) =
      run
        (overtaken (field (codes "displayName") (str (codes "ada")) end))
        (turned_on none profile) in
    (answers ≡ turned disabled ∷ turned enabled ∷ [])
    × (b.sidecar_started ≡ true)
    × (b.desired_enabled ≡ false)
    × (is_quiet b ≡ true)
unfolding update_registration_profile has_own ◌==◌ same_field normalize_registration_field get_prop
    lookup collapse strip squeeze is_space
run-overtaken_example =
    run-overtaken none profile (record { display_name = some (codes "ada"); description = none })
      (field (codes "displayName") (str (codes "ada")) end) refl
