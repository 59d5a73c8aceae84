-- ===== src/Abuse/Suspicion/Decay.antt =====
-- abuse/suspicion.ts: how a score rises and falls.
use the_room_backend.Base.{ℕ, ◌+◌, ◌-◌, ◌/◌, ◌≤◌, ◌<◌, ◌≡◌, Bool, true, false, arith}
use the_room_backend.Base.Int.{ℤ, pos}
use the_room_backend.Abuse.Suspicion.{Signal, points, SuspicionScore, IsDecay, value, add, snapshot}
use the_room_backend.Abuse.Suspicion.Thresholds

points_bound : (g : Signal) → points g ≤ 25000
unfolding points
points_bound g = ground arith

module _ {decay : ℕ → ℕ → ℕ} (d : IsDecay decay) where
  decay-le : (v t : ℕ) → decay v t ≤ v
  decay-le v t = omega (arith, d.at_once v, d.falls v 0 t (omega arith))

  value-le_score : (now : ℕ) (s : SuspicionScore) → value decay now s ≤ s.score
  unfolding value
  value-le_score now s = ground (arith, decay-le s.score (now - s.at))

  score_after :
      (g : Signal) (now : ℕ) (trusted : Bool) (s : SuspicionScore)
      → value decay now s ≡ 0
      → (add decay (pos (points g)) now trusted s).score < Thresholds.challenge
  unfolding add
  score_after g now trusted s h = ground (arith, h, points_bound g)

  -- No signal reaches the challenge threshold on its own: of a score that had gone, one signal makes
  -- one that stays under the threshold.
  pub single_signal_lt_challenge :
      (g : Signal) (now later : ℕ) (trusted : Bool) (s : SuspicionScore)
      → value decay now s ≡ 0
      → value decay later (add decay (pos (points g)) now trusted s) < Thresholds.challenge
  unfolding add
  single_signal_lt_challenge g now later trusted s h = omega (
    arith,
    value-le_score later (add decay (pos (points g)) now trusted s),
    score_after g now trusted s h,
  )

-- Whatever is added, a score stays within 0 and the maximum; points of a trusted session count at
-- most half, and never more than those of another.
pub add_bounds :
    (decay : ℕ → ℕ → ℕ) (n now : ℕ) (p : ℤ) (trusted : Bool) (s : SuspicionScore)
    → ((add decay p now trusted s).score ≤ Thresholds.most)
      × ((add decay (pos n) now true s).score ≤ value decay now s + n / 2)
      × ((add decay (pos n) now true s).score ≤ (add decay (pos n) now false s).score)
unfolding add
add_bounds decay n now p trusted s = ground arith

-- What is persisted is within a twentieth of a point of the score.
pub snapshot-near :
    (decay : ℕ → ℕ → ℕ) (now : ℕ) (s : SuspicionScore)
    → (snapshot decay now s ≤ value decay now s + 50)
      × (value decay now s < snapshot decay now s + 51)
unfolding snapshot
snapshot-near decay now s = omega arith
