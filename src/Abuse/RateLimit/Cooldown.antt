-- ===== src/Abuse/RateLimit/Cooldown.antt =====
-- abuse/rate-limit.ts: the cooldown after repeated violations.
use native.Mathlib.Nat.{pow-suc}
use native.Mathlib.Numerals.{towards_suc}
use the_room_backend.Base.{
  ℕ, zero, suc, ◌+◌, ◌-◌, ◌*◌, ◌^◌, ◌<◌, ◌≡◌, refl, arith, ltb, if◌then◌else◌, min,
}
use the_room_backend.Abuse.RateLimit.{violation_cooldown_ms}

pow-pos : (n : ℕ) → 0 < 2 ^ n
pow-pos zero = omega arith
pow-pos (suc n) = rw pow-suc (omega (arith, pow-pos n))

six_doublings : (n : ℕ) → 2 ^ (n + 6) ≡ 64 * 2 ^ n
six_doublings n = simp towards_suc (omega arith)

-- Two strikes are free, the third costs two seconds, and each further one doubles the cooldown
-- until it is a minute.
pub violation_cooldown_doubles :
    (n : ℕ)
    → (violation_cooldown_ms (n + 3) ≡ (if ltb n 5 then 2000 * 2 ^ n else 60000))
      × (violation_cooldown_ms (min n 2) ≡ 0)
unfolding violation_cooldown_ms
violation_cooldown_doubles zero = (refl, refl)
violation_cooldown_doubles (suc zero) = (refl, refl)
violation_cooldown_doubles (suc (suc zero)) = (refl, refl)
violation_cooldown_doubles (suc (suc (suc zero))) = (refl, refl)
violation_cooldown_doubles (suc (suc (suc (suc zero)))) = (refl, refl)
violation_cooldown_doubles (suc (suc (suc (suc (suc n))))) =
    let e : suc (suc (suc (suc (suc n)))) + 3 - 2 ≡ n + 6 = omega arith in
    (rw e (ground (arith, six_doublings n, pow-pos n)), ground arith)
