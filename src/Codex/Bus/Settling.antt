-- ===== src/Codex/Bus/Settling.antt =====
-- What holds of a bus between two events when requests come in order: a bus that is wanted gets on,
-- and one that is not wanted gets off.
use inter_agent_bus.Base.{
  Bool, true, false, ◌||◌, ◌&&◌, List, Option, none, some, [], ◌∷◌, ◌++◌, ◌≡◌, refl, arith, any,
  any-append, any-pick, pick, if◌then◌else◌, ◌∙◌, Bool-cases, Option-cases, inl, inr, Text, ℕ,
  subst, sym,
}
use inter_agent_bus.Value.{Value}
use inter_agent_bus.Wrapper.{update_registration_profile}
use inter_agent_bus.Codex.Bus.{
  Bus, Task, Watch, no_watch, waiting, starting_up, stop_to_update, stop_to_disable, wait_to_enable,
  wait_to_disable, wait_of_watch, stop_or_done, enable_bus, enable_started, start_when_ready,
  start_sidecar_now, ensure_thread_watch, disable_bus, stop_ended, is_stop, start_ended,
  thread_found, thread_over, end_picked,
}
use inter_agent_bus.Codex.Bus.Resume.{
  is_update, is_stop_to_disable, is_wait_to_disable, is_watcher, resume-Resumed,
}

unfoldable pub is_waiting : Watch → Bool
is_waiting waiting = true
is_waiting _ = false

unfoldable pub is_starting_up : Watch → Bool
is_starting_up starting_up = true
is_starting_up _ = false

unfoldable pub is_failed : Option Text → Bool
is_failed none = false
is_failed (some e) = true

-- Something is under way that turns the bus on, or the last attempt failed.
unfoldable pub is_coming : Bus → Bool
is_coming b = b.starting || is_waiting b.watch || is_failed b.last_error

-- A request to turn the bus off is under way.
unfoldable pub is_going : Bus → Bool
is_going b = any is_stop_to_disable b.tasks || any is_wait_to_disable b.tasks

pub record IsSettling (b : Bus) : Type 0 where
  pub exclusive : (b.starting && b.sidecar_started) ≡ false
  pub coming : b.desired_enabled ≡ true → b.sidecar_started ≡ false → is_coming b ≡ true
  pub no_disable : b.desired_enabled ≡ true → is_going b ≡ false
  pub no_update : b.desired_enabled ≡ false → any is_update b.tasks ≡ false
  pub off_starting :
      b.desired_enabled ≡ false → b.starting ≡ true → any is_wait_to_disable b.tasks ≡ true
  pub off_started :
      b.desired_enabled ≡ false
      → b.sidecar_started ≡ true
      → (any is_stop_to_disable b.tasks || is_failed b.last_error) ≡ true
  pub watcher : is_starting_up b.watch ≡ true → (b.starting && any is_watcher b.tasks) ≡ true

put_off-any :
    (p : Task → Bool) (t : Task) (ts : List Task) → any p (ts ++ t ∷ []) ≡ (any p ts || p t)
unfolding any
put_off-any p t ts = any-append p ts (t ∷ []) ∙ ground arith

pub start_ended-IsSettling :
    (failure : Option Text) (b : Bus)
    → b.starting ≡ true
    → IsSettling b
    → IsSettling (start_ended failure b).0
unfolding start_ended is_coming is_going is_waiting is_starting_up is_failed any
start_ended-IsSettling none b on h = ground (
  arith,
  resume-Resumed b.tasks
      (record b { sidecar_started = true; last_error = none; starting = false; tasks = [] }),
)
start_ended-IsSettling (some e) b on h =
    ground (
      arith,
      resume-Resumed b.tasks (record b { last_error = some e; starting = false; tasks = [] }),
    )

start_when_ready-IsSettling :
    (ready : Bool) (b : Bus)
    → b.sidecar_started ≡ false
    → (b.desired_enabled ≡ true → is_going b ≡ false)
    → b.desired_enabled ≡ true
    → (is_starting_up b.watch ≡ true → (b.starting && any is_watcher b.tasks) ≡ true)
    → IsSettling (start_when_ready ready b).0
unfolding start_when_ready start_sidecar_now ensure_thread_watch is_coming is_going is_waiting
    is_starting_up is_failed any is_update is_stop_to_disable is_wait_to_disable is_watcher
start_when_ready-IsSettling true b off quiet on watched = ground (
  arith,
  put_off-any is_update wait_to_enable b.tasks,
  put_off-any is_stop_to_disable wait_to_enable b.tasks,
  put_off-any is_wait_to_disable wait_to_enable b.tasks,
  put_off-any is_watcher wait_to_enable b.tasks,
)
start_when_ready-IsSettling false b off quiet on watched = ground arith

enable_started-IsSettling :
    (ready changed : Bool) (b : Bus)
    → b.sidecar_started ≡ true
    → b.desired_enabled ≡ true
    → is_going b ≡ false
    → b.starting ≡ false
    → (is_starting_up b.watch ≡ true → (b.starting && any is_watcher b.tasks) ≡ true)
    → IsSettling (enable_started ready changed b).0
unfolding enable_started is_coming is_going is_update is_stop_to_disable is_wait_to_disable
    is_watcher
enable_started-IsSettling ready true b started on quiet rest watched = ground (
  arith,
  put_off-any is_update (stop_to_update ready) b.tasks,
  put_off-any is_stop_to_disable (stop_to_update ready) b.tasks,
  put_off-any is_wait_to_disable (stop_to_update ready) b.tasks,
  put_off-any is_watcher (stop_to_update ready) b.tasks,
)
enable_started-IsSettling ready false b started on quiet rest watched = ground arith

pub enable_bus-IsSettling :
    (ready : Bool) (req : Value) (b : Bus)
    → is_going b ≡ false
    → IsSettling b
    → IsSettling (enable_bus ready req b).0
unfolding enable_bus is_going
enable_bus-IsSettling ready req b quiet h =
    let (profile, changed) = update_registration_profile req b.profile in
    let b' = record b { profile = profile; desired_enabled = true } in
    let chosen = λ (started : Bool).
      IsSettling
        (if started then enable_started ready changed b' else start_when_ready ready b').0 in
    elim (Bool-cases b.sidecar_started) [
      | inl e ↦ subst chosen (sym e) (
          enable_started-IsSettling ready changed b' e refl quiet (ground (arith, h.exclusive))
            h.watcher)
      | inr e ↦
          subst chosen (sym e) (start_when_ready-IsSettling ready b' e (λ _. quiet) refl h.watcher)
    ]

pub disable_bus-IsSettling :
    (b : Bus) → any is_update b.tasks ≡ false → IsSettling b → IsSettling (disable_bus b).0
unfolding disable_bus stop_or_done is_coming is_going is_update is_stop_to_disable
    is_wait_to_disable is_watcher
disable_bus-IsSettling b quiet h = ground (
  arith,
  put_off-any is_update wait_to_disable b.tasks,
  put_off-any is_stop_to_disable wait_to_disable b.tasks,
  put_off-any is_wait_to_disable wait_to_disable b.tasks,
  put_off-any is_watcher wait_to_disable b.tasks,
  put_off-any is_update stop_to_disable b.tasks,
  put_off-any is_stop_to_disable stop_to_disable b.tasks,
  put_off-any is_wait_to_disable stop_to_disable b.tasks,
  put_off-any is_watcher stop_to_disable b.tasks,
)

stop_ended-IsSettling :
    (t : Task) (failure : Option Text) (b : Bus) (ts : List Task)
    → is_stop t ≡ true
    → ((p : Task → Bool) → any p b.tasks ≡ (p t || any p ts))
    → IsSettling b
    → IsSettling (stop_ended t failure (record b { tasks = ts })).0
unfolding stop_ended is_stop is_coming is_going is_update is_stop_to_disable is_wait_to_disable
    is_watcher is_failed
stop_ended-IsSettling (stop_to_update ready) none b ts k split h =
    start_when_ready-IsSettling ready
      (record b { tasks = ts; sidecar_started = false; last_error = none }) refl
      (λ on. ground (arith, split is_stop_to_disable, split is_wait_to_disable, h.no_disable on))
      (ground (arith, split is_update, h.no_update))
      (λ up. ground (arith, split is_watcher, h.watcher up))
stop_ended-IsSettling (stop_to_update ready) (some e) b ts k split h =
    ground
      (arith, split is_update, split is_stop_to_disable, split is_wait_to_disable, split is_watcher)
stop_ended-IsSettling stop_to_disable none b ts k split h =
    ground
      (arith, split is_update, split is_stop_to_disable, split is_wait_to_disable, split is_watcher)
stop_ended-IsSettling stop_to_disable (some e) b ts k split h =
    ground
      (arith, split is_update, split is_stop_to_disable, split is_wait_to_disable, split is_watcher)
stop_ended-IsSettling wait_to_enable failure b ts k split h = cc
stop_ended-IsSettling wait_to_disable failure b ts k split h = cc
stop_ended-IsSettling wait_of_watch failure b ts k split h = cc

pub end_picked-IsSettling :
    (n : ℕ) (failure : Option Text) (b : Bus)
    → IsSettling b
    → IsSettling (end_picked failure (pick n b.tasks) b).0
unfolding end_picked
end_picked-IsSettling n failure b h = elim (Option-cases (pick n b.tasks)) [
  | inl e ↦ rw (e, end_picked) h
  | inr ((t, ts), e) ↦ elim (Bool-cases (is_stop t)) [
    | inl k ↦
        rw (e, end_picked, k)
          (stop_ended-IsSettling t failure b ts k (λ p. any-pick p n b.tasks ts t e) h)
    | inr k ↦ rw (e, end_picked, k) h
  ]
]

pub thread_over-IsSettling :
    (w : Watch) (found : Option Text) (b : Bus)
    → b.watch ≡ w
    → IsSettling b
    → IsSettling (thread_over w found b).0
unfolding thread_over thread_found start_sidecar_now is_coming is_going is_update is_stop_to_disable
    is_wait_to_disable is_watcher is_failed is_waiting is_starting_up
thread_over-IsSettling no_watch found b e h = h
thread_over-IsSettling starting_up found b e h = h
thread_over-IsSettling waiting none b e h = ground arith
thread_over-IsSettling waiting (some id) b e h = ground (
  arith,
  put_off-any is_update wait_of_watch b.tasks,
  put_off-any is_stop_to_disable wait_of_watch b.tasks,
  put_off-any is_wait_to_disable wait_of_watch b.tasks,
  put_off-any is_watcher wait_of_watch b.tasks,
)
