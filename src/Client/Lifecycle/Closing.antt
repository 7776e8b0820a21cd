-- ===== src/Client/Lifecycle/Closing.antt =====
-- A client that unregisters stays away, unless a reconnect is under way.
use inter_agent_bus.Base.{
  ◌-◌, Bool, true, false, ◌&&◌, ◌||◌, Option, Option-cases, none, some, List, [], ◌∷◌, ◌≡◌, refl,
  any, any-pick, pick, arith, inl, inr, if-cases,
}
use inter_agent_bus.Value.{Value, null, truthy, get_prop}
use inter_agent_bus.Client.Lifecycle.{
  Flow, connecting_to_register, registering, connecting_again, registering_again, unregistering,
  calling, Life, await, commit, period_of, release, unregister, connected_for, connect_ended,
  answer_ended, is_sent, reject_all, reconnect_if_registered, on_close, on_timer, on_beat, Event,
  registers, unregisters, calls, connects, answers, timer, beat, closes, connect_picked,
  answer_picked, timer_picked, step, run,
}
use inter_agent_bus.Client.Lifecycle.Persistent.{is_unregistering, await-any}

-- The flow leads to a registration.
unfoldable pub is_opening : Flow → Bool
is_opening (connecting_to_register p) = true
is_opening (registering p) = true
is_opening connecting_again = true
is_opening registering_again = true
is_opening _ = false

-- There is no connection, no lease and nothing to register again.
pub record IsReleased (s : Life) : Type 0 where
  pub off : s.connected ≡ false
  pub no_lease : s.lease_token ≡ null
  pub no_id : s.participant_id ≡ null
  pub no_participant : s.participant ≡ none

-- The client is closed, and gone once no answer to `unregister` is waited for.
pub record IsGone (s : Life) : Type 0 where
  pub is_closed : s.closed ≡ true
  pub no_heartbeat : s.heartbeat ≡ none
  pub no_opening : any is_opening s.flows ≡ false
  pub left : any is_unregistering s.flows ≡ false → IsReleased s

unregister-IsGone : (s : Life) → any is_opening s.flows ≡ false → IsGone (unregister s)
unfolding unregister release is_opening is_unregistering
unregister-IsGone s h =
    if-cases IsGone (s.connected && truthy s.lease_token)
      (await unregistering (record s { closed = true; heartbeat = none }))
      (release (record s { closed = true; heartbeat = none }))
      (λ _. ground (
        arith,
        await-any is_opening unregistering s.flows,
        await-any is_unregistering unregistering s.flows,
      ))
      (λ _. ground arith)

calling-IsGone : (s : Life) → IsGone s → s.connected ≡ true → IsGone (await calling s)
unfolding is_opening is_unregistering
calling-IsGone s h on =
    ground (arith, await-any is_opening calling s.flows, await-any is_unregistering calling s.flows)

answer_ended-IsGone :
    (f : Flow) (o : Option Value) (fs : List Flow) (s : Life)
    → IsGone s
    → is_sent f ≡ true
    → ((p : Flow → Bool) → any p s.flows ≡ (p f || any p fs))
    → IsGone (answer_ended f o (record s { flows = fs }))
unfolding answer_ended release is_sent is_opening is_unregistering
answer_ended-IsGone unregistering o fs s h k split = ground (arith, split is_opening)
answer_ended-IsGone calling o fs s h k split =
    ground (arith, split is_opening, split is_unregistering)
answer_ended-IsGone (registering p) o fs s h k split = ground (arith, split is_opening)
answer_ended-IsGone registering_again o fs s h k split = ground (arith, split is_opening)
answer_ended-IsGone (connecting_to_register p) o fs s h k split = cc
answer_ended-IsGone connecting_again o fs s h k split = cc

not_connecting :
    (f : Flow) (fs : List Flow) (s : Life)
    → IsGone s
    → ((p : Flow → Bool) → any p s.flows ≡ (p f || any p fs))
    → is_sent f ≡ true
unfolding is_sent is_opening
not_connecting (connecting_to_register p) fs s h split = ground (arith, split is_opening)
not_connecting connecting_again fs s h split = ground (arith, split is_opening)
not_connecting (registering p) fs s h split = refl
not_connecting registering_again fs s h split = refl
not_connecting unregistering fs s h split = refl
not_connecting calling fs s h split = refl

-- The calls of a closed client are rejected.
reject_all-IsGone :
    (fs : List Flow) (s : Life)
    → s.closed ≡ true
    → s.heartbeat ≡ none
    → s.flows ≡ []
    → any is_opening fs ≡ false
    → (any is_unregistering fs ≡ false → IsReleased s)
    → s.connected ≡ false
    → IsGone (reject_all fs s)
unfolding reject_all any answer_ended release is_opening is_unregistering
reject_all-IsGone [] s c b e o l off = ground arith
reject_all-IsGone (unregistering ∷ fs) s c b e o l off =
    reject_all-IsGone fs (release s) c b e o (λ _. ground arith) refl
reject_all-IsGone (calling ∷ fs) s c b e o l off = reject_all-IsGone fs s c b e o l off
reject_all-IsGone (connecting_to_register p ∷ fs) s c b e o l off = cc
reject_all-IsGone (registering p ∷ fs) s c b e o l off = cc
reject_all-IsGone (connecting_again ∷ fs) s c b e o l off = cc
reject_all-IsGone (registering_again ∷ fs) s c b e o l off = cc

-- A registration that the user asks for.
unfoldable pub is_registration : Event → Bool
is_registration (registers p) = true
is_registration _ = false

step-IsGone : (e : Event) (s : Life) → is_registration e ≡ false → IsGone s → IsGone (step e s)
unfolding step is_registration on_close
step-IsGone (registers p) s k h = cc
step-IsGone unregisters s k h = unregister-IsGone s h.no_opening
step-IsGone calls s k h =
    if-cases IsGone s.connected (await calling s) s (calling-IsGone s h) (λ _. h)
step-IsGone (connects n made) s k h = elim (Option-cases (pick n s.flows)) [
  | inl e ↦ rw (e, connect_picked) h
  | inr ((f, fs), e) ↦
      rw (e, connect_picked, not_connecting f fs s h (λ p. any-pick p n s.flows fs f e)) h
]
step-IsGone (answers n o) s k h = elim (Option-cases (pick n s.flows)) [
  | inl e ↦ rw (e, answer_picked) h
  | inr ((f, fs), e) ↦
      let sent = not_connecting f fs s h (λ p. any-pick p n s.flows fs f e) in
      rw (e, answer_picked, sent)
        (answer_ended-IsGone f o fs s h sent (λ p. any-pick p n s.flows fs f e))
]
step-IsGone (timer n) s k h = elim (Option-cases (pick n s.timers)) [
  | inl e ↦ rw (e, timer_picked) h
  | inr ((delay, ts), e) ↦ rw (e, timer_picked) (unfold on_timer in ground arith)
]
step-IsGone beat s k h = rw (h.no_heartbeat, on_beat) h
step-IsGone closes s k h =
    let s' = record s { connected = false; sockets = s.sockets - 1; flows = [] } in
    if-cases (λ (u : Life). IsGone (reject_all s.flows u)) s.closed s'
      (reconnect_if_registered s.participant s')
      (λ c.
        reject_all-IsGone s.flows s' c h.no_heartbeat refl h.no_opening
          (λ e. ground (arith, h.left e)) refl)
      (λ c. absurd (ground (arith, h.is_closed)))

run-IsGone :
    (es : List Event) (s : Life) → any is_registration es ≡ false → IsGone s → IsGone (run es s)
unfolding run any
run-IsGone [] s k h = h
run-IsGone (e ∷ es) s k h =
    run-IsGone es (step e s) (ground arith) (step-IsGone e s (ground arith) h)

-- A client that unregisters while neither a registration nor a reconnect is under way stays closed
-- without a heartbeat whatever comes, as long as its user does not register it again; no reconnect
-- begins, and once no answer to `unregister` is waited for it has no connection, no lease and no
-- participant.
pub run-stays_away :
    (es : List Event) (s : Life)
    → any is_opening s.flows ≡ false
    → any is_registration es ≡ false
    → IsGone (run es (unregister s))
run-stays_away es s h k = run-IsGone es (unregister s) k (unregister-IsGone s h)

-- An attempt to connect again is under way.
abbrev pub reconnecting : Life → Life
reconnecting s = record s { closed = false; connected = false; flows = connecting_again ∷ [] }

-- If the client is closed while its attempt to connect again is under way, and the connection is
-- made and the broker accepts it, the closed client has a connection, a heartbeat and the lease,
-- which its heartbeat goes on to renew if the lease is no empty value.
pub run-outlived :
    (s : Life) (response : Value)
    → truthy (get_prop "leaseToken" response) ≡ true
    → let u =
        run (unregisters ∷ connects 0 true ∷ answers 0 (some response) ∷ []) (reconnecting s) in
      (u.closed ≡ true)
      × (u.connected ≡ true)
      × (u.lease_token ≡ get_prop "leaseToken" response)
      × (u.heartbeat ≡ some (period_of (get_prop "heartbeatIntervalSec" response) s.heartbeat_ms))
      × (step beat u ≡ await calling u)
unfolding run step unregister release connect_picked connect_ended connected_for answer_picked
    answer_ended commit is_sent pick on_beat
run-outlived s response h = (refl, refl, refl, refl, rw h refl)
