-- ===== src/Client/Backoff.antt =====
-- The delays before a client connects again.
use inter_agent_bus.Base.{ℕ, zero, suc, ◌+◌, ◌*◌, ◌^◌, ◌≤◌, ◌≡◌, arith}
use inter_agent_bus.Client.{reconnect_base_ms, reconnect_cap_ms, reconnect_delay}

pow-suc : (n : ℕ) → 2 ^ suc n ≡ 2 * 2 ^ n
pow-suc n = omega arith

pow-positive : (n : ℕ) → 1 ≤ 2 ^ n
pow-positive zero = omega arith
pow-positive (suc n) = omega (arith, pow-suc n, pow-positive n)

pow-high : (n : ℕ) → 32 ≤ 2 ^ (5 + n)
pow-high zero = omega arith
pow-high (suc n) =
    let shift : 5 + suc n ≡ suc (5 + n) = omega arith in
    rw (shift) (omega (arith, pow-suc (5 + n), pow-high n))

-- Every delay is between the base and the cap, none is shorter than the one before it, and from
-- the sixth attempt on each is the cap.
pub reconnect_delay-bounds :
    (n : ℕ)
    → (reconnect_base_ms ≤ reconnect_delay n)
      × (reconnect_delay n ≤ reconnect_cap_ms)
      × (reconnect_delay n ≤ reconnect_delay (suc n))
      × (reconnect_delay (5 + n) ≡ reconnect_cap_ms)
unfolding reconnect_delay
reconnect_delay-bounds n = (
  omega (arith, pow-positive n),
  omega arith,
  omega (arith, pow-suc n),
  omega (arith, pow-high n),
)
