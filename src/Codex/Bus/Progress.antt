-- ===== src/Codex/Bus/Progress.antt =====
-- A bus that is wanted gets on, and one that is not wanted gets off.
use inter_agent_bus.Base.{
  Bool, true, false, ◌||◌, ◌&&◌, not, List, Option, [], ◌∷◌, ◌≡◌, refl, arith, any, if◌then◌else◌,
  Bool-cases, inl, inr, Text, if-both,
}
use inter_agent_bus.Value.{Value, get_prop, is_text, is_nullish}
use inter_agent_bus.Wrapper.{Profile}
use inter_agent_bus.Codex.Bus.{
  Bus, Answers, Event, control, start_over, stop_over, watch_over, enable_bus, start_when_ready,
  start_sidecar_now, ensure_thread_watch, handle_control_request, step, run, launch,
}
use inter_agent_bus.Codex.Bus.Resume.{is_update, is_stop_to_disable, is_wait_to_disable, is_watcher}
use inter_agent_bus.Codex.Bus.Settling.{
  is_waiting, is_starting_up, is_failed, is_coming, is_going, IsSettling, start_ended-IsSettling,
  enable_bus-IsSettling, disable_bus-IsSettling, end_picked-IsSettling, thread_over-IsSettling,
}

-- A request to turn the bus on does not come while one to turn it off is under way, nor one to turn
-- it off while the sidecar stops for a new profile.
unfoldable pub is_in_order : Event → Bus → Bool
is_in_order (control ready id req) b =
    let type = get_prop "type" req in
    if is_text "enable" type
    then not (is_going b)
    else if is_text "disable" type
    then not (any is_update b.tasks)
    else true
is_in_order _ b = true

unfoldable pub in_order : List Event → Bus → Bool
in_order [] b = true
in_order (e ∷ es) b = is_in_order e b && in_order es (step e b).0

control-IsSettling :
    (ready : Bool) (id : Option Text) (req : Value) (b : Bus)
    → is_in_order (control ready id req) b ≡ true
    → IsSettling b
    → IsSettling (handle_control_request ready id req b).0
unfolding handle_control_request is_in_order
control-IsSettling ready id req b o h = elim (Bool-cases (is_nullish req)) [
  | inl e ↦ simp e h
  | inr e ↦ elim (Bool-cases (is_text "status" (get_prop "type" req))) [
    | inl s ↦ simp (e, s) h
    | inr s ↦ elim (Bool-cases (is_text "enable" (get_prop "type" req))) [
      | inl on ↦ simp (e, s, on) (enable_bus-IsSettling ready req b (ground arith) h)
      | inr on ↦ elim (Bool-cases (is_text "disable" (get_prop "type" req))) [
        | inl off ↦ simp (e, s, on, off) (disable_bus-IsSettling b (ground arith) h)
        | inr off ↦
            simp (e, s, on, off)
              (if-both (λ (r : Bus × Answers). IsSettling r.0)
                (is_text "whoami" (get_prop "type" req)) _ _ h h)
      ]
    ]
  ]
]

step-IsSettling :
    (e : Event) (b : Bus) → is_in_order e b ≡ true → IsSettling b → IsSettling (step e b).0
unfolding step
step-IsSettling (control ready id req) b o h = control-IsSettling ready id req b o h
step-IsSettling (start_over failure) b o h = elim (Bool-cases b.starting) [
  | inl e ↦ simp e (start_ended-IsSettling failure b e h)
  | inr e ↦ simp e h
]
step-IsSettling (stop_over n failure) b o h = end_picked-IsSettling n failure b h
step-IsSettling (watch_over found) b o h = thread_over-IsSettling b.watch found b refl h

pub run-IsSettling :
    (es : List Event) (b : Bus) → in_order es b ≡ true → IsSettling b → IsSettling (run es b).0
unfolding run in_order
run-IsSettling [] b o h = h
run-IsSettling (e ∷ es) b o h =
    run-IsSettling es (step e b).0 (ground arith) (step-IsSettling e b (ground arith) h)

launch-IsSettling :
    (auto_enable ready : Bool) (p : Profile) → IsSettling (launch auto_enable ready p)
unfolding launch is_coming is_going is_update is_stop_to_disable is_wait_to_disable is_watcher
    is_failed is_waiting is_starting_up enable_bus start_when_ready start_sidecar_now
    ensure_thread_watch any
launch-IsSettling true true p = ground arith
launch-IsSettling true false p = ground arith
launch-IsSettling false ready p = ground arith

-- Nothing is under way and nothing failed.
unfoldable pub is_quiet : Bus → Bool
unfolding is_coming is_going
is_quiet b = not (is_coming b || is_going b)

-- After any requests, starts, stops and waits for a thread, whatever fails, where none to turn the
-- bus on came while one to turn it off was under way and none to turn it off while the sidecar
-- stopped for a new profile: if the bus is wanted but off, it is starting, waiting for a thread, or
-- an error is shown; if it is not wanted but on, a request to turn it off is under way or an error
-- is shown; and where nothing is under way and no error is shown it is on exactly if it is wanted.
pub run-settles :
    (auto_enable ready : Bool) (p : Profile) (es : List Event)
    → in_order es (launch auto_enable ready p) ≡ true
    → let b = (run es (launch auto_enable ready p)).0 in
      (b.desired_enabled ≡ true → b.sidecar_started ≡ false → is_coming b ≡ true)
      × (b.desired_enabled ≡ false
          → b.sidecar_started ≡ true
          → (is_going b || is_failed b.last_error) ≡ true)
      × (is_quiet b ≡ true → b.sidecar_started ≡ b.desired_enabled)
unfolding is_coming is_going is_quiet is_failed
run-settles auto_enable ready p es o =
    let h =
      run-IsSettling es (launch auto_enable ready p) o (launch-IsSettling auto_enable ready p) in
    (h.coming, λ off on. ground (arith, h.off_started off on), ground (arith, h))
