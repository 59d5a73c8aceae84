-- ===== src/Examples/Scored.antt =====
-- The theorems on abuse/ at concrete values.
use the_room_backend.Base.{
  ℕ, ◌+◌, ◌*◌, ◌/◌, ◌≤◌, ◌<◌, refl, true, false, [], ◌∷◌, arith, ltb, if◌then◌else◌,
}
use the_room_backend.Base.Int.{pos}
use the_room_backend.Abuse.RateLimit.{TokenBucket, unit, normal, Waits}
use the_room_backend.Abuse.RateLimit.Bounds.{granted, granted_bound}
use the_room_backend.Abuse.Suspicion.{
  IsDecay, half_life_ms, SuspicionScore, fresh_score, value, add, verification_failed, points,
  new_timing,
}
use the_room_backend.Abuse.Suspicion.Thresholds
use the_room_backend.Abuse.Suspicion.Decay.{single_signal_lt_challenge, add_bounds}
use the_room_backend.Abuse.Suspicion.Cadence.{fires, fires_bound}

abbrev drained : TokenBucket
drained = record { tier = normal; tokens = 0; last = 0 }

-- The next whole number of milliseconds.
abbrev rounded_up : Waits
rounded_up short rate = short / rate + 1

granted_bound_example : granted rounded_up (0 ∷ 1000 ∷ []) drained * unit ≤ 0 + 1000 * 100
granted_bound_example =
    granted_bound rounded_up (λ short rate h h'. omega arith) (0 ∷ 1000 ∷ []) drained (omega arith)

-- A score that stays until a half-life is over, and is half of it then.
abbrev step_decay : ℕ → ℕ → ℕ
step_decay v t = if ltb t half_life_ms then v else v / 2

step_decay-IsDecay : IsDecay step_decay
step_decay-IsDecay = record {
  at_once = λ v. ground arith;
  falls = λ v t u h. ground arith;
  grows = λ v w t h. ground arith;
  halves = λ v. ground arith;
}

abbrev scored : SuspicionScore
scored = record { score = 40000; at = 100 }

single_signal_lt_challenge_example :
    value step_decay 900 (add step_decay (pos 25000) 500 false fresh_score) < Thresholds.challenge
unfolding points
single_signal_lt_challenge_example =
    single_signal_lt_challenge step_decay-IsDecay verification_failed 500 900 false fresh_score
      (unfold value in refl)

add_bounds_example :
    ((add step_decay (pos 25000) 500 false scored).score ≤ Thresholds.most)
    × ((add step_decay (pos 25000) 500 true scored).score ≤ value step_decay 500 scored + 12500)
    × ((add step_decay (pos 25000) 500 true scored).score
        ≤ (add step_decay (pos 25000) 500 false scored).score)
add_bounds_example = add_bounds step_decay 25000 500 (pos 25000) false scored

fires_bound_example : fires (100 ∷ 600 ∷ 1100 ∷ []) new_timing * 10 ≤ 3
fires_bound_example = fires_bound (100 ∷ 600 ∷ 1100 ∷ []) new_timing (omega arith)
