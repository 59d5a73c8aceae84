-- ===== src/Abuse/Suspicion.antt =====
-- abuse/suspicion.ts: the decaying score and the cadence analyser. Points are counted in
-- thousandths. The power `0.5 ** (elapsed / HALF_LIFE_MS)` has no integer value: `decay` stands
-- for it, a score and an elapsed time to what is left of the score.
pub mod Thresholds
pub mod Decay
pub mod Cadence
use the_room_backend.Base.{
  ℕ, ◌+◌, ◌-◌, ◌*◌, ◌/◌, ◌≤◌, ◌≡◌, min, max, Bool, true, false, List, [], ◌∷◌, ◌++◌, ltb, leb, eqb,
  if◌then◌else◌, length, drop,
}
use the_room_backend.Base.Int.{ℤ, pos, negsuc, add_clipped}

pub data Signal : Type 0 where
  automation_user_agent missing_origin verification_missing verification_failed : Signal
  many_new_sessions_from_network reconnect_churn : Signal
  malformed_frame binary_frame send_before_join ping_flood : Signal
  rate_limit_hit ignored_cooldown network_flood machine_regular_timing : Signal
  instant_after_join own_duplicate cross_session_duplicate : Signal

unfoldable pub points : Signal → ℕ
points automation_user_agent = 22000
points missing_origin = 12000
points verification_missing = 8000
points verification_failed = 25000
points many_new_sessions_from_network = 20000
points reconnect_churn = 10000
points malformed_frame = 10000
points binary_frame = 15000
points send_before_join = 6000
points ping_flood = 6000
points rate_limit_hit = 7000
points ignored_cooldown = 4000
points network_flood = 8000
points machine_regular_timing = 18000
points instant_after_join = 6000
points own_duplicate = 3000
points cross_session_duplicate = 12000

abbrev pub half_life_ms : ℕ
half_life_ms = 240000

-- What the program relies on of the power of one half: nothing is lost at once, what is left
-- falls with time and grows with the score, and a half-life takes half.
pub record IsDecay (decay : ℕ → ℕ → ℕ) : Type 0 where
  pub at_once : (v : ℕ) → decay v 0 ≡ v
  pub falls : (v t u : ℕ) → t ≤ u → decay v u ≤ decay v t
  pub grows : (v w t : ℕ) → v ≤ w → decay v t ≤ decay w t
  pub halves : (v : ℕ) → decay v half_life_ms ≡ v / 2

pub record SuspicionScore : Type 0 where
  pub score : ℕ
  pub at : ℕ

abbrev pub fresh_score : SuspicionScore
fresh_score = record { score = 0; at = 0 }

-- `trusted ? TRUSTED_FACTOR : 1`, on the points in thousandths.
weigh : Bool → ℤ → ℤ
weigh false p = p
weigh true (pos n) = pos (n / 2)
weigh true (negsuc n) = negsuc (n / 2)

module _ (decay : ℕ → ℕ → ℕ) where
  unfoldable pub value : (now : ℕ) → SuspicionScore → ℕ
  value now s =
      if leb s.score 0
      then 0
      else let decayed = decay s.score (now - s.at) in if ltb decayed 500 then 0 else decayed

  unfoldable pub add : ℤ → (now : ℕ) → (trusted : Bool) → SuspicionScore → SuspicionScore
  unfolding weigh
  add p now trusted s = record {
    score = min Thresholds.most (add_clipped (value now s) (weigh trusted p));
    at = now;
  }

  -- Rounded to a tenth of a point.
  unfoldable pub snapshot : (now : ℕ) → SuspicionScore → ℕ
  snapshot now s = (value now s + 50) / 100 * 100

unfoldable pub reset : (now : ℕ) → SuspicionScore → SuspicionScore
reset now s = record { score = 0; at = now }

pub record TimingAnalyzer : Type 0 where
  pub window : ℕ
  pub gaps : List ℕ
  pub last : ℕ

abbrev pub new_timing : TimingAnalyzer
new_timing = record { window = 10; gaps = []; last = 0 }

abbrev pub sum : List ℕ → ℕ
sum [] = 0
sum (g ∷ gs) = g + sum gs

-- (a - b)²
square_gap : ℕ → ℕ → ℕ
square_gap a b = (max a b - min a b) * (max a b - min a b)

-- With n gaps of sum S the mean is S / n: this is n² times the sum of (g - mean)².
sum_squares : (n total : ℕ) → List ℕ → ℕ
sum_squares n total [] = 0
sum_squares n total (g ∷ gs) = square_gap (n * g) total + sum_squares n total gs

-- `mean <= 20_000 && sqrt(variance) / max(1, mean) < 0.08`, both sides squared and multiplied by
-- 10000 n² n.
unfoldable pub looks_regular : List ℕ → Bool
unfolding square_gap sum_squares
looks_regular gaps =
    let n = length gaps in
    let total = sum gaps in
    let scale = max n total in
    if ltb (20000 * n) total
    then false
    else ltb (10000 * sum_squares n total gaps) (64 * n * (scale * scale))

push_gap : (now : ℕ) → TimingAnalyzer → TimingAnalyzer
push_gap now t =
    if eqb t.last 0
    then record t { last = now }
    else let gaps = t.gaps ++ (now - t.last) ∷ [] in
      record t { gaps = if ltb t.window (length gaps) then drop 1 gaps else gaps; last = now }

judge : TimingAnalyzer → Bool × TimingAnalyzer
judge t =
    if ltb (length t.gaps) t.window
    then (false, t)
    else if looks_regular t.gaps
    then (true, record t { gaps = [] })
    else (false, t)

unfoldable pub record_message : (now : ℕ) → TimingAnalyzer → Bool × TimingAnalyzer
unfolding push_gap judge
record_message now t = judge (push_gap now t)
