-- ===== src/Abuse/RateLimit/Bounds.antt =====
-- abuse/rate-limit.ts: how many requests a bucket lets through.
use the_room_backend.Base.{
  ℕ, ◌+◌, ◌-◌, ◌*◌, ◌≤◌, ◌<◌, ◌≡◌, List, [], ◌∷◌, arith, leb, eqb, if◌then◌else◌,
}
use the_room_backend.Abuse.RateLimit.{TokenBucket, Waits, unit, refill, spend, take_tokens}

-- What is used of the rounding: where something is short, it is waited for.
abbrev pub WaitsForTokens : Waits → Type 0
WaitsForTokens waits = (short rate : ℕ) → 0 < short → 0 < rate → 0 < waits short rate

abbrev pub sum : List ℕ → ℕ
sum [] = 0
sum (d ∷ ds) = d + sum ds

-- Requests of one token each, by the milliseconds between them: how many are granted.
abbrev pub granted : Waits → List ℕ → TokenBucket → ℕ
granted waits [] b = 0
granted waits (d ∷ ds) b =
    let (wait, b') = take_tokens waits (b.last + d) 1 b in
    (if eqb wait 0 then 1 else 0) + granted waits ds b'

-- A cost is free exactly where the tokens are there.
spend-eq-zero :
    (waits : Waits) (cost : ℕ) (b : TokenBucket)
    → WaitsForTokens waits
    → 0 < b.rate
    → eqb (spend waits cost b).0 0 ≡ leb (cost * unit) b.tokens
unfolding spend
spend-eq-zero waits cost b pos h = ground (arith, pos (cost * unit - b.tokens) b.rate)

spend_pays :
    (waits : Waits) (d : ℕ) (b : TokenBucket)
    → WaitsForTokens waits
    → 0 < b.rate
    → let (wait, b') = take_tokens waits (b.last + d) 1 b in
      ((if eqb wait 0 then 1 else 0) * unit + b'.tokens ≤ b.tokens + d * b.rate)
      × (b'.rate ≡ b.rate)
unfolding take_tokens refill spend
spend_pays waits d b pos h = ground (arith, spend-eq-zero waits 1 (refill (b.last + d) b) pos h)

-- Over any run of requests no more is granted than the tokens at its start and what its whole time
-- adds, where a token that is short is waited for, however the wait is rounded.
pub granted_bound :
    (waits : Waits)
    → WaitsForTokens waits
    → (ds : List ℕ) (b : TokenBucket) → 0 < b.rate
    → granted waits ds b * unit ≤ b.tokens + sum ds * b.rate
granted_bound waits pos [] b h = omega arith
granted_bound waits pos (d ∷ ds) b h =
    let b' = (take_tokens waits (b.last + d) 1 b).1 in
    let (paid, same) = spend_pays waits d b pos h in
    let rest = granted_bound waits pos ds b' (rw same h) in omega (arith, paid, rw same at rest)
