-- ===== src/Client/Lifecycle/Ends.antt =====
-- The ends of what a client awaits keep it at it.
use inter_agent_bus.Base.{
  ℕ, Bool, true, false, ◌||◌, Option, Option-cases, none, some, List, [], ◌∷◌, ◌≡◌, refl, any,
  any-pick, pick, arith, Bool-cases, inl, inr, ◌-◌, if-cases, ◌∙◌,
}
use inter_agent_bus.Value.{Value}
use inter_agent_bus.Client.{reconnect_delay}
use inter_agent_bus.Client.Lifecycle.{
  Flow, connecting_to_register, registering, connecting_again, registering_again, unregistering,
  calling, Life, schedule_reconnect, commit, release, connected_for, connect_ended, answer_ended,
  is_sent, reject_all, reconnect_if_registered, on_close, on_timer, connect_picked, answer_picked,
  timer_picked,
}
use inter_agent_bus.Client.Lifecycle.Persistent.{
  is_connecting_again, is_registering_again, is_unregistering, has_some, is_registered, is_trying,
  is_reconnecting, IsPersistent, has_some-append, closed-IsPersistent, await-any,
  await-IsPersistent, schedule_reconnect-IsPersistent,
}

-- A flow that is over without an answer.
answer_none-IsPersistent :
    (f : Flow) (s : Life)
    → s.closed ≡ false
    → IsPersistent s
    → ((is_connecting_again f || is_registering_again f) ≡ true → is_registered s ≡ true)
    → is_unregistering f ≡ false
    → IsPersistent (answer_ended f none s)
      × ((answer_ended f none s).closed ≡ false)
      × (is_registered (answer_ended f none s) ≡ is_registered s)
unfolding answer_ended is_sent is_registered is_connecting_again is_registering_again
    is_unregistering schedule_reconnect
answer_none-IsPersistent (connecting_to_register p) s c h asked stays =
    (await-IsPersistent (connecting_to_register p) s h (λ e. cc) asked (λ _. stays), c, refl)
answer_none-IsPersistent (registering p) s c h asked stays = (h, c, refl)
answer_none-IsPersistent connecting_again s c h asked stays =
    (await-IsPersistent connecting_again s h (λ e. cc) asked (λ _. stays), c, refl)
answer_none-IsPersistent registering_again s c h asked stays =
    (schedule_reconnect-IsPersistent s h (asked refl), ground arith, ground arith)
answer_none-IsPersistent unregistering s c h asked stays = cc
answer_none-IsPersistent calling s c h asked stays = (h, c, refl)

reject_all-IsPersistent :
    (fs : List Flow) (s : Life)
    → s.closed ≡ false
    → IsPersistent s
    → ((any is_connecting_again fs || any is_registering_again fs) ≡ true → is_registered s ≡ true)
    → any is_unregistering fs ≡ false
    → IsPersistent (reject_all fs s)
unfolding reject_all any
reject_all-IsPersistent [] s c h asked stays = h
reject_all-IsPersistent (f ∷ fs) s c h asked stays =
    let (h', c', same) =
      answer_none-IsPersistent f s c h (λ e. asked (ground arith)) (ground arith) in
    reject_all-IsPersistent fs (answer_ended f none s) c' h' (λ e. same ∙ asked (ground arith))
      (ground arith)

answer_ended-closed :
    (f : Flow) (o : Option Value) (s : Life) → s.closed ≡ true → (answer_ended f o s).closed ≡ true
unfolding answer_ended schedule_reconnect release commit
answer_ended-closed (connecting_to_register p) o s c = c
answer_ended-closed (registering p) none s c = c
answer_ended-closed (registering p) (some v) s c = c
answer_ended-closed connecting_again o s c = c
answer_ended-closed registering_again none s c = ground arith
answer_ended-closed registering_again (some v) s c = c
answer_ended-closed unregistering o s c = c
answer_ended-closed calling o s c = c

reject_all-closed : (fs : List Flow) (s : Life) → s.closed ≡ true → (reject_all fs s).closed ≡ true
unfolding reject_all
reject_all-closed [] s c = c
reject_all-closed (f ∷ fs) s c =
    reject_all-closed fs (answer_ended f none s) (answer_ended-closed f none s c)

abbrev cut_off : Life → Life
cut_off s = record s { connected = false; sockets = s.sockets - 1; flows = [] }

reconnect-IsPersistent :
    (o : Option Value) (s : Life)
    → s.closed ≡ false
    → s.participant ≡ o
    → IsPersistent s
    → IsPersistent (reconnect_if_registered o (cut_off s))
      × ((reconnect_if_registered o (cut_off s)).closed ≡ false)
      × (is_registered (reconnect_if_registered o (cut_off s)) ≡ is_registered s)
unfolding reconnect_if_registered schedule_reconnect is_trying is_reconnecting is_registered any
reconnect-IsPersistent none s c e h = (ground arith, ground arith, ground arith)
reconnect-IsPersistent (some p) s c e h =
    let timed = has_some-append s.timers (reconnect_delay s.attempts) in
    (ground (arith, timed), ground arith, ground arith)

pub on_close-IsPersistent : (s : Life) → IsPersistent s → IsPersistent (on_close s)
unfolding on_close is_reconnecting
on_close-IsPersistent s h =
    if-cases (λ (u : Life). IsPersistent (reject_all s.flows u)) s.closed (cut_off s)
      (reconnect_if_registered s.participant (cut_off s))
      (λ c.
        closed-IsPersistent (reject_all s.flows (cut_off s))
          (reject_all-closed s.flows (cut_off s) c))
      (λ c.
        let (h', c', same) = reconnect-IsPersistent s.participant s c refl h in
        reject_all-IsPersistent s.flows (reconnect_if_registered s.participant (cut_off s)) c' h'
          (λ e. same ∙ ground (arith, h.asked c)) (h.leaving c))

-- A flow is taken off, and what it was stays known.
taken-IsPersistent :
    (f : Flow) (fs : List Flow) (s : Life)
    → IsPersistent s
    → ((p : Flow → Bool) → any p s.flows ≡ (p f || any p fs))
    → is_connecting_again f ≡ false
    → IsPersistent (record s { flows = fs })
unfolding is_trying is_reconnecting is_registered
taken-IsPersistent f fs s h split other = ground (
  arith,
  split is_sent,
  split is_connecting_again,
  split is_registering_again,
  split is_unregistering,
)

connect_ended-IsPersistent :
    (f : Flow) (made : Bool) (fs : List Flow) (s : Life)
    → is_sent f ≡ false
    → IsPersistent s
    → ((p : Flow → Bool) → any p s.flows ≡ (p f || any p fs))
    → IsPersistent (connect_ended f made (record s { flows = fs }))
unfolding connect_ended connected_for schedule_reconnect is_sent is_connecting_again
    is_registering_again is_unregistering is_trying is_reconnecting is_registered
connect_ended-IsPersistent (connecting_to_register p) true fs s k h split = ground (
  arith,
  split is_sent,
  split is_connecting_again,
  split is_registering_again,
  split is_unregistering,
  await-any is_sent (registering p) fs,
  await-any is_connecting_again (registering p) fs,
  await-any is_registering_again (registering p) fs,
  await-any is_unregistering (registering p) fs,
)
connect_ended-IsPersistent (connecting_to_register p) false fs s k h split =
    taken-IsPersistent (connecting_to_register p) fs s h split refl
connect_ended-IsPersistent connecting_again true fs s k h split = ground (
  arith,
  split is_sent,
  split is_connecting_again,
  split is_registering_again,
  split is_unregistering,
  await-any is_sent registering_again fs,
  await-any is_connecting_again registering_again fs,
  await-any is_registering_again registering_again fs,
  await-any is_unregistering registering_again fs,
)
connect_ended-IsPersistent connecting_again false fs s k h split = ground (
  arith,
  split is_sent,
  split is_connecting_again,
  split is_registering_again,
  split is_unregistering,
  has_some-append s.timers (reconnect_delay s.attempts),
)
connect_ended-IsPersistent (registering p) made fs s k h split = cc
connect_ended-IsPersistent registering_again made fs s k h split = cc
connect_ended-IsPersistent unregistering made fs s k h split = cc
connect_ended-IsPersistent calling made fs s k h split = cc

answer_ended-IsPersistent :
    (f : Flow) (o : Option Value) (fs : List Flow) (s : Life)
    → is_sent f ≡ true
    → IsPersistent s
    → ((p : Flow → Bool) → any p s.flows ≡ (p f || any p fs))
    → IsPersistent (answer_ended f o (record s { flows = fs }))
unfolding answer_ended commit schedule_reconnect release is_sent is_connecting_again
    is_registering_again is_unregistering is_trying is_reconnecting is_registered
answer_ended-IsPersistent (registering p) none fs s k h split =
    taken-IsPersistent (registering p) fs s h split refl
answer_ended-IsPersistent (registering p) (some v) fs s k h split = ground (
  arith,
  split is_sent,
  split is_connecting_again,
  split is_registering_again,
  split is_unregistering,
)
answer_ended-IsPersistent registering_again none fs s k h split = ground (
  arith,
  split is_sent,
  split is_connecting_again,
  split is_registering_again,
  split is_unregistering,
  has_some-append s.timers (reconnect_delay s.attempts),
)
answer_ended-IsPersistent registering_again (some v) fs s k h split = ground (
  arith,
  split is_sent,
  split is_connecting_again,
  split is_registering_again,
  split is_unregistering,
)
answer_ended-IsPersistent unregistering o fs s k h split = ground (arith, split is_unregistering)
answer_ended-IsPersistent calling o fs s k h split = taken-IsPersistent calling fs s h split refl
answer_ended-IsPersistent (connecting_to_register p) o fs s k h split = cc
answer_ended-IsPersistent connecting_again o fs s k h split = cc

pub connect_picked-IsPersistent :
    (n : ℕ) (made : Bool) (s : Life)
    → IsPersistent s
    → IsPersistent (connect_picked made (pick n s.flows) s)
unfolding connect_picked
connect_picked-IsPersistent n made s h = elim (Option-cases (pick n s.flows)) [
  | inl e ↦ rw (e, connect_picked) h
  | inr ((f, fs), e) ↦ elim (Bool-cases (is_sent f)) [
    | inl k ↦ rw (e, connect_picked, k) h
    | inr k ↦
        rw (e, connect_picked, k)
          (connect_ended-IsPersistent f made fs s k h (λ p. any-pick p n s.flows fs f e))
  ]
]

pub answer_picked-IsPersistent :
    (n : ℕ) (o : Option Value) (s : Life)
    → IsPersistent s
    → IsPersistent (answer_picked o (pick n s.flows) s)
unfolding answer_picked
answer_picked-IsPersistent n o s h = elim (Option-cases (pick n s.flows)) [
  | inl e ↦ rw (e, answer_picked) h
  | inr ((f, fs), e) ↦ elim (Bool-cases (is_sent f)) [
    | inl k ↦
        rw (e, answer_picked, k)
          (answer_ended-IsPersistent f o fs s k h (λ p. any-pick p n s.flows fs f e))
    | inr k ↦ rw (e, answer_picked, k) h
  ]
]

pick-has_some {ℓ} :
    {A : Type ℓ} (n : ℕ) (xs : List A) (y : A × List A) → pick n xs ≡ some y → has_some xs ≡ true
unfolding pick has_some
pick-has_some n [] y e = cc
pick-has_some n (x ∷ xs) y e = refl

on_timer-IsPersistent :
    (s : Life) (ts : List ℕ)
    → has_some s.timers ≡ true
    → IsPersistent s
    → IsPersistent (on_timer (record s { timers = ts }))
unfolding on_timer is_trying is_reconnecting is_registered is_sent is_connecting_again
    is_registering_again is_unregistering
on_timer-IsPersistent s ts t h = ground (
  arith,
  await-any is_sent connecting_again s.flows,
  await-any is_connecting_again connecting_again s.flows,
  await-any is_registering_again connecting_again s.flows,
  await-any is_unregistering connecting_again s.flows,
)

pub timer_picked-IsPersistent :
    (n : ℕ) (s : Life) → IsPersistent s → IsPersistent (timer_picked (pick n s.timers) s)
unfolding timer_picked
timer_picked-IsPersistent n s h = elim (Option-cases (pick n s.timers)) [
  | inl e ↦ rw (e, timer_picked) h
  | inr ((delay, ts), e) ↦
      rw (e, timer_picked) (on_timer-IsPersistent s ts (pick-has_some n s.timers (delay, ts) e) h)
]
