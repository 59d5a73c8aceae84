-- ===== src/Room/Day/Fixed.antt =====
-- room/day.ts: the daily room in a timezone without daylight saving, on either side of Greenwich.
use the_room_backend.Base.{ℕ, ◌+◌, ◌-◌, ◌*◌, ◌≤◌, ◌<◌, ◌≡◌, arith}
use the_room_backend.Base.Int.{sub_ℕ, sub_clipped}
use the_room_backend.Room.Day.{
  Zone, day_ms, parts_at, date_utc, midnight_of, whole_seconds, offset_at, midnight_utc, day_number,
  date_after, room_at,
}
use the_room_backend.Room.Day.Calendar.{IsDate, date_after-IsDate}

-- What is used of the timezone database: from 2 January 1970 on, the wall clock shows a date and a
-- time of day, and differs by the same time at every instant, by less than a day.
pub record IsFixed (ahead behind : ℕ) (tz : Zone) : Type 0 where
  pub ahead_lt : ahead < day_ms
  pub behind_lt : behind < day_ms
  pub is_date :
      (ts : ℕ) → day_ms ≤ ts → IsDate (parts_at ts tz).y (parts_at ts tz).m (parts_at ts tz).d
  pub in_day :
      (ts : ℕ)
      → day_ms ≤ ts
      → ((parts_at ts tz).hh * 60 + (parts_at ts tz).mm) * 60 + (parts_at ts tz).ss < 86400
  pub shifted :
      (ts : ℕ) → day_ms ≤ ts → date_utc (parts_at ts tz) + behind ≡ whole_seconds ts + ahead

sub_clipped-sub_ℕ : (n a b : ℕ) → sub_clipped n (sub_ℕ a b) ≡ n + b - a
sub_clipped-sub_ℕ n a b = ground arith

module _ {ahead behind : ℕ} {tz : Zone} (fixed : IsFixed ahead behind tz) where
  local_time : (n ts : ℕ) → day_ms ≤ ts → sub_clipped n (offset_at ts tz) ≡ n + behind - ahead
  unfolding offset_at
  local_time n ts le = omega (
    arith,
    sub_clipped-sub_ℕ n (date_utc (parts_at ts tz)) (whole_seconds ts),
    fixed.shifted ts le,
  )

  midnight_utc-fixed :
      (y m d : ℕ)
      → 2 ≤ day_number y m d
      → midnight_utc y m d tz ≡ day_number y m d * day_ms + behind - ahead
  unfolding midnight_utc
  midnight_utc-fixed y m d later =
      let naive = date_utc (midnight_of y m d) in
      let same : naive ≡ day_number y m d * day_ms = midnight_lem in
      let first = local_time naive naive (omega (arith, same, later)) in
      let second =
        local_time naive (sub_clipped naive (offset_at naive tz))
          (omega (arith, first, same, later, fixed.ahead_lt)) in
      omega (arith, second, same)
    where
      midnight_lem : date_utc (midnight_of y m d) ≡ day_number y m d * day_ms
      midnight_lem = unfold date_utc in omega arith

  clock_lem :
      (ts : ℕ)
      → day_ms ≤ ts
      → let p = parts_at ts tz in
        day_number p.y p.m p.d * day_ms + ((p.hh * 60 + p.mm) * 60 + p.ss) * 1000 + behind
        ≡ whole_seconds ts + ahead
  unfolding date_utc
  clock_lem ts le = fixed.shifted ts le

  -- Where the wall clock differs from UTC by the same time at every instant, ahead or behind, and
  -- from 4 January 1970 on: the room of an instant has begun by then and has not ended, and it lasts
  -- 24 hours.
  pub room_at-contains :
      (ts : ℕ) (epoch : ℕ × ℕ × ℕ)
      → 3 * day_ms ≤ ts
      → let r = room_at ts tz epoch in
        (r.starts_at ≤ ts) × (ts < r.ends_at) × (r.ends_at ≡ r.starts_at + day_ms)
  unfolding room_at
  room_at-contains ts epoch late =
      let p = parts_at ts tz in
      let le : day_ms ≤ ts = omega (arith, late) in
      let later = (date_after-IsDate p.y p.m p.d (fixed.is_date ts le)).1 in
      let next = date_after p.y p.m p.d in
      let clock = clock_lem ts le in
      let in_day = fixed.in_day ts le in
      let high : 2 ≤ day_number p.y p.m p.d = omega (arith, clock, in_day, late, fixed.behind_lt) in
      let starts = midnight_utc-fixed p.y p.m p.d high in
      let ends = midnight_utc-fixed next.0 next.1 next.2 (omega (arith, later, high)) in
      (
        omega (arith, starts, clock, in_day),
        omega (arith, ends, later, clock, in_day),
        omega (arith, starts, ends, later, high, fixed.ahead_lt),
      )
