-- ===== src/Abuse/RateLimit.antt =====
-- abuse/rate-limit.ts: the token bucket and the progressive cooldown. Tokens are counted in
-- hundred-thousandths and rates in hundredths of a token a second, so that a millisecond adds
-- `rate` units and every value of the program's tiers is exact.
pub mod Bounds
pub mod Cooldown
use the_room_backend.Base.{ℕ, ◌+◌, ◌-◌, ◌*◌, ◌/◌, ◌^◌, min, ltb, leb, if◌then◌else◌}

abbrev pub unit : ℕ
unit = 100000

pub record Tier : Type 0 where
  pub capacity : ℕ
  pub rate : ℕ

pub record TokenBucket : Type 0 where
  pub tier : Tier
  pub open tier use *
  pub tokens : ℕ
  pub last : ℕ

unfoldable pub new_bucket : Tier → (now : ℕ) → TokenBucket
new_bucket tier now = record { tier = tier; tokens = tier.capacity * unit; last = now }

unfoldable pub refill : (now : ℕ) → TokenBucket → TokenBucket
refill now b = record b {
  tokens = min (b.capacity * unit) (b.tokens + (now - b.last) * b.rate);
  last = now;
}

unfoldable pub reconfigure : Tier → (now : ℕ) → TokenBucket → TokenBucket
unfolding refill
reconfigure tier now b =
    let b' = refill now b in
    record { tier = tier; tokens = min b'.tokens (tier.capacity * unit); last = b'.last }

-- `Math.ceil((short / rate) * 1000)`, as the floating-point numbers have it: the milliseconds in
-- which what is short comes in at the rate.
abbrev pub Waits : Type 0
Waits = (short rate : ℕ) → ℕ

-- 0 if allowed, otherwise the milliseconds until `cost` tokens are there.
spend : Waits → (cost : ℕ) → TokenBucket → ℕ × TokenBucket
spend waits cost b =
    if leb (cost * unit) b.tokens
    then (0, record b { tokens = b.tokens - cost * unit })
    else (waits (cost * unit - b.tokens) b.rate, b)

unfoldable pub take_tokens : Waits → (now cost : ℕ) → TokenBucket → ℕ × TokenBucket
unfolding refill spend
take_tokens waits now cost b = spend waits cost (refill now b)

abbrev pub normal : Tier
normal = record { capacity = 10; rate = 100 }

abbrev pub throttled : Tier
throttled = record { capacity = 5; rate = 33 }

abbrev pub restricted : Tier
restricted = record { capacity = 2; rate = 10 }

unfoldable pub violation_cooldown_ms : (strikes : ℕ) → ℕ
violation_cooldown_ms strikes = if ltb strikes 3 then 0 else min 60000 (1000 * 2 ^ (strikes - 2))
