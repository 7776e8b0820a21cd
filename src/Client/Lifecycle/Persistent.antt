-- ===== src/Client/Lifecycle/Persistent.antt =====
-- What holds of a client between two events: a registered one keeps at it.
use inter_agent_bus.Base.{
  Bool, true, false, ◌||◌, none, some, List, [], ◌∷◌, ◌++◌, ◌≡◌, refl, any, any-append, arith,
}
use inter_agent_bus.Client.{reconnect_delay}
use inter_agent_bus.Client.Lifecycle.{
  Flow, connecting_again, registering_again, unregistering, Life, schedule_reconnect, is_sent,
}

unfoldable pub is_connecting_again : Flow → Bool
is_connecting_again connecting_again = true
is_connecting_again _ = false

unfoldable pub is_registering_again : Flow → Bool
is_registering_again registering_again = true
is_registering_again _ = false

unfoldable pub is_unregistering : Flow → Bool
is_unregistering unregistering = true
is_unregistering _ = false

unfoldable pub has_some {ℓ} : {A : Type ℓ} → List A → Bool
has_some [] = false
has_some (x ∷ xs) = true

unfoldable pub is_registered : Life → Bool
is_registered s = elim s.participant [ none ↦ false | some p ↦ true ]

-- The client is connected, or will be: a timer runs, or an attempt to connect is under way.
unfoldable pub is_trying : Life → Bool
is_trying s = s.connected || has_some s.timers || any is_connecting_again s.flows

-- The client connects again by itself.
unfoldable pub is_reconnecting : Life → Bool
is_reconnecting s =
    has_some s.timers || any is_connecting_again s.flows || any is_registering_again s.flows

pub record IsPersistent (s : Life) : Type 0 where
  pub trying : s.closed ≡ false → is_registered s ≡ true → is_trying s ≡ true
  pub sent : s.closed ≡ false → any is_sent s.flows ≡ true → s.connected ≡ true
  pub leaving : s.closed ≡ false → any is_unregistering s.flows ≡ false
  pub asked : s.closed ≡ false → is_reconnecting s ≡ true → is_registered s ≡ true

pub has_some-append {ℓ} : {A : Type ℓ} (xs : List A) (x : A) → has_some (xs ++ x ∷ []) ≡ true
unfolding has_some
has_some-append [] x = refl
has_some-append (y ∷ ys) x = refl

-- A closed client needs nothing.
pub closed-IsPersistent : (s : Life) → s.closed ≡ true → IsPersistent s
closed-IsPersistent s c = ground arith

pub await-any :
    (p : Flow → Bool) (f : Flow) (fs : List Flow) → any p (fs ++ f ∷ []) ≡ (any p fs || p f)
unfolding any
await-any p f fs = ground (arith, any-append p fs (f ∷ []))

-- A flow that does not unregister is awaited, where the client is connected if the flow is a call
-- that is sent, and registered if the flow is that of a reconnect.
pub await-IsPersistent :
    (f : Flow) (s : Life)
    → IsPersistent s
    → (is_sent f ≡ true → s.connected ≡ true)
    → ((is_connecting_again f || is_registering_again f) ≡ true → is_registered s ≡ true)
    → (s.closed ≡ false → is_unregistering f ≡ false)
    → IsPersistent (record s { flows = s.flows ++ f ∷ [] })
unfolding is_trying is_reconnecting is_registered
await-IsPersistent f s h sent asked stays = ground (
  arith,
  await-any is_sent f s.flows,
  await-any is_connecting_again f s.flows,
  await-any is_registering_again f s.flows,
  await-any is_unregistering f s.flows,
)

pub schedule_reconnect-IsPersistent :
    (s : Life) → IsPersistent s → is_registered s ≡ true → IsPersistent (schedule_reconnect s)
unfolding schedule_reconnect is_trying is_reconnecting is_registered
schedule_reconnect-IsPersistent s h r =
    ground (arith, has_some-append s.timers (reconnect_delay s.attempts))
