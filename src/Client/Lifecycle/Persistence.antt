-- ===== src/Client/Lifecycle/Persistence.antt =====
-- A registered client never gives up, and one that is not registered never connects by itself.
use inter_agent_bus.Base.{
  ℕ, true, false, ◌&&◌, Option, none, some, List, [], ◌∷◌, ◌≡◌, refl, any, arith, if-cases,
}
use inter_agent_bus.Value.{Value, truthy}
use inter_agent_bus.Client.Lifecycle.{
  connecting_to_register, registering, calling, Life, new, register, release, unregister, is_sent,
  await, on_beat, Event, registers, unregisters, calls, connects, answers, timer, beat, closes,
  step, run,
}
use inter_agent_bus.Client.Lifecycle.Persistent.{
  is_connecting_again, is_registering_again, is_unregistering, has_some, is_registered, is_trying,
  is_reconnecting, IsPersistent, closed-IsPersistent, await-IsPersistent,
}
use inter_agent_bus.Client.Lifecycle.Ends.{
  on_close-IsPersistent, connect_picked-IsPersistent, answer_picked-IsPersistent,
  timer_picked-IsPersistent,
}

call-IsPersistent :
    (s : Life) → s.connected ≡ true → IsPersistent s → IsPersistent (await calling s)
unfolding is_connecting_again is_registering_again is_unregistering
call-IsPersistent s on h = await-IsPersistent calling s h (λ _. on) (λ e. cc) (λ _. refl)

register-IsPersistent : (p : Value) (s : Life) → IsPersistent s → IsPersistent (register p s)
unfolding register is_sent is_connecting_again is_registering_again is_unregistering
register-IsPersistent p s h =
    if-cases IsPersistent s.connected (await (registering p) s) (await (connecting_to_register p) s)
      (λ on. await-IsPersistent (registering p) s h (λ _. on) (λ e. cc) (λ _. refl))
      (λ off. await-IsPersistent (connecting_to_register p) s h (λ e. cc) (λ e. cc) (λ _. refl))

on_beat-IsPersistent :
    (o : Option ℕ) (s : Life) → s.heartbeat ≡ o → IsPersistent s → IsPersistent (on_beat s)
unfolding on_beat
on_beat-IsPersistent none s e h = rw (e, on_beat) h
on_beat-IsPersistent (some period) s e h =
    rw (e, on_beat)
      (if-cases IsPersistent (s.connected && truthy s.lease_token) (await calling s) s
        (λ on. call-IsPersistent s (ground arith) h) (λ off. h))

step-IsPersistent : (e : Event) (s : Life) → IsPersistent s → IsPersistent (step e s)
unfolding step register unregister release on_beat
step-IsPersistent (registers p) s h = register-IsPersistent p s h
step-IsPersistent unregisters s h = closed-IsPersistent (unregister s) (ground arith)
step-IsPersistent calls s h =
    if-cases IsPersistent s.connected (await calling s) s (λ on. call-IsPersistent s on h)
      (λ off. h)
step-IsPersistent (connects n made) s h = connect_picked-IsPersistent n made s h
step-IsPersistent (answers n o) s h = answer_picked-IsPersistent n o s h
step-IsPersistent (timer n) s h = timer_picked-IsPersistent n s h
step-IsPersistent beat s h = on_beat-IsPersistent s.heartbeat s refl h
step-IsPersistent closes s h = on_close-IsPersistent s h

run-IsPersistent : (es : List Event) (s : Life) → IsPersistent s → IsPersistent (run es s)
unfolding run
run-IsPersistent [] s h = h
run-IsPersistent (e ∷ es) s h = run-IsPersistent es (step e s) (step-IsPersistent e s h)

new-IsPersistent : IsPersistent new
unfolding any is_trying is_reconnecting is_registered has_some
new-IsPersistent = ground arith

-- Whatever its user, the broker and the network do, a client that has not been closed keeps at it:
-- once the broker has accepted it, it is connected, or a timer or an attempt to connect again is
-- under way; and before the broker has accepted it, it never connects again by itself.
pub run-keeps_on :
    (es : List Event)
    → let s = run es new in
      s.closed ≡ false
      → (is_registered s ≡ true → is_trying s ≡ true)
        × (is_registered s ≡ false → is_reconnecting s ≡ false)
run-keeps_on es c =
    let h = run-IsPersistent es new new-IsPersistent in (h.trying c, λ r. ground (arith, h.asked c))
