-- ===== src/Wrapper/Exclusive.antt =====
-- No start is under way while the sidecar counts as started.
use inter_agent_bus.Base.{
  Bool, Bool-cases, List, Option, Text, [], arith, false, if◌then◌else◌, inl, inr, none, refl, some,
  subst, sym, true, ◌&&◌, ◌∷◌, ◌≡◌, pick,
}
use inter_agent_bus.Wrapper.{
  Event, Task, Wrapper, disable, disable_bus, enable, enable_bus, enable_started, end_picked,
  is_stop, resume, run, start_ended, start_or_wait, start_over, step, stop_ended, stop_or_done,
  stop_over, stop_to_disable, stop_to_update, update_registration_profile, wait_to_disable,
  wait_to_enable,
}
use inter_agent_bus.Value.{Value}

abbrev pub IsExclusive : Wrapper → Type 0
IsExclusive w = (w.starting && w.sidecar_started) ≡ false

resume-IsExclusive : (ts : List Task) (w : Wrapper) → IsExclusive w → IsExclusive (resume ts w).0
unfolding resume stop_or_done
resume-IsExclusive [] w h = h
resume-IsExclusive (stop_to_update ∷ ts) w h = resume-IsExclusive ts _ h
resume-IsExclusive (stop_to_disable ∷ ts) w h = resume-IsExclusive ts _ h
resume-IsExclusive (wait_to_enable ∷ ts) w h = resume-IsExclusive ts w h
resume-IsExclusive (wait_to_disable ∷ ts) w h =
    resume-IsExclusive ts (stop_or_done w).0 (ground arith)

stop_ended-IsExclusive :
    (t : Task) (failure : Option Text) (w : Wrapper)
    → IsExclusive w
    → IsExclusive (stop_ended t failure w).0
unfolding stop_ended start_or_wait
stop_ended-IsExclusive stop_to_update none w h = ground arith
stop_ended-IsExclusive stop_to_disable none w h = ground arith
stop_ended-IsExclusive wait_to_enable none w h = h
stop_ended-IsExclusive wait_to_disable none w h = h
stop_ended-IsExclusive stop_to_update (some e) w h = h
stop_ended-IsExclusive stop_to_disable (some e) w h = h
stop_ended-IsExclusive wait_to_enable (some e) w h = h
stop_ended-IsExclusive wait_to_disable (some e) w h = h

end_picked-IsExclusive :
    (failure : Option Text) (o : Option (Task × List Task)) (w : Wrapper)
    → IsExclusive w
    → IsExclusive (end_picked failure o w).0
unfolding end_picked
end_picked-IsExclusive failure none w h = h
end_picked-IsExclusive failure (some (t, ts)) w h = elim (Bool-cases (is_stop t)) [
  | inl e ↦ rw e (stop_ended-IsExclusive t failure (record w { tasks = ts }) h)
  | inr e ↦ rw e h
]

start_ended-IsExclusive :
    (failure : Option Text) (w : Wrapper) → IsExclusive (start_ended failure w).0
unfolding start_ended
start_ended-IsExclusive none w = resume-IsExclusive w.tasks _ refl
start_ended-IsExclusive (some e) w = resume-IsExclusive w.tasks _ refl

enable_started-IsExclusive :
    (b : Bool) (w : Wrapper) → IsExclusive w → IsExclusive (enable_started b w).0
unfolding enable_started
enable_started-IsExclusive true w h = h
enable_started-IsExclusive false w h = h

start_or_wait-IsExclusive :
    (w : Wrapper) → w.sidecar_started ≡ false → IsExclusive (start_or_wait w).0
unfolding start_or_wait
start_or_wait-IsExclusive w e = e

enable_bus-IsExclusive :
    (req : Value) (w : Wrapper) → IsExclusive w → IsExclusive (enable_bus req w).0
unfolding enable_bus
enable_bus-IsExclusive req w h =
    let (profile, changed) = update_registration_profile req w.profile in
    let w' = record w { profile = profile; desired_enabled = true } in
    elim (Bool-cases w.sidecar_started) [
      | inl e ↦
          subst (λ b. IsExclusive (if b then enable_started changed w' else start_or_wait w').0)
            (sym e) (enable_started-IsExclusive changed w' h)
      | inr e ↦
          subst (λ b. IsExclusive (if b then enable_started changed w' else start_or_wait w').0)
            (sym e) (start_or_wait-IsExclusive w' e)
    ]

step-IsExclusive : (e : Event) (w : Wrapper) → IsExclusive w → IsExclusive (step e w).0
unfolding step
step-IsExclusive (enable req) w h = enable_bus-IsExclusive req w h
step-IsExclusive disable w h = unfold disable_bus in unfold stop_or_done in ground arith
step-IsExclusive (start_over failure) w h = elim (Bool-cases w.starting) [
  | inl e ↦ simp e (start_ended-IsExclusive failure w)
  | inr e ↦ simp e refl
]
step-IsExclusive (stop_over n failure) w h = end_picked-IsExclusive failure (pick n w.tasks) w h

-- Whatever requests, starts and stops come, with whatever errors and in whatever order, no start
-- of the sidecar is under way while it counts as started.
pub run-IsExclusive : (es : List Event) (w : Wrapper) → IsExclusive w → IsExclusive (run es w).0
unfolding run
run-IsExclusive [] w h = h
run-IsExclusive (e ∷ es) w h = run-IsExclusive es (step e w).0 (step-IsExclusive e w h)
