-- ===== src/Examples/Dated.antt =====
-- The theorems on room/day.ts at concrete values, in UTC.
use the_room_backend.Base.{ℕ, ◌+◌, ◌*◌, ◌/◌, ◌%◌, ◌≤◌, ◌<◌, ◌≡◌, refl, arith}
use the_room_backend.Base.{some, ◌-◌}
use the_room_backend.Room.Clock.{now, sync, new_clock}
use the_room_backend.Room.Clock.Drift.{now-sync}
use the_room_backend.Room.Day.{
  Zone, Parts, day_ms, parts_at, date_utc, whole_seconds, date_of, room_at,
}
use the_room_backend.Room.Day.Calendar.{date_of-IsDate}
use the_room_backend.Room.Day.Fixed.{IsFixed, room_at-contains}

abbrev clock_of : (y m d : ℕ) → (ts : ℕ) → Parts
clock_of y m d ts = record {
  y = y;
  m = m;
  d = d;
  hh = ts / 3600000 % 24;
  mm = ts / 60000 % 60;
  ss = ts / 1000 % 60;
}

abbrev utc : Zone
utc ts = let (y, m, d) = date_of (ts / day_ms) in clock_of y m d ts

clock_lem :
    (n ts : ℕ)
    → n ≡ ts / day_ms
    → n * day_ms + (((ts / 3600000 % 24) * 60 + ts / 60000 % 60) * 60 + ts / 1000 % 60) * 1000
      ≡ whole_seconds ts
clock_lem n ts e = omega (arith, e)

-- Eight hours behind.
abbrev behind : ℕ
behind = 28800000

abbrev pacific : Zone
pacific ts = utc (ts - behind)

pacific-IsFixed : IsFixed 0 behind pacific
unfolding parts_at date_utc
pacific-IsFixed = record {
  ahead_lt = omega arith;
  behind_lt = omega arith;
  is_date = λ ts le. (date_of-IsDate ((ts - behind) / day_ms)).0;
  in_day = λ ts le. ground arith;
  shifted = λ ts le.
      let back : whole_seconds (ts - behind) + behind ≡ whole_seconds ts + 0 = omega (arith, le) in
      ground (
        arith,
        back,
        clock_lem ((ts - behind) / day_ms) (ts - behind) refl,
        (date_of-IsDate ((ts - behind) / day_ms)).1,
      );
}

room_at-contains_example :
    let r = room_at 300000000 pacific (2024, 1, 1) in
    (r.starts_at ≤ 300000000) × (300000000 < r.ends_at) × (r.ends_at ≡ r.starts_at + day_ms)
room_at-contains_example = room_at-contains pacific-IsFixed 300000000 (2024, 1, 1) (omega arith)

now-sync_example :
    let estimate = now 1000 (sync 100 140 (some 170) new_clock) in
    (2 * (estimate + 0) ≤ 2 * (1000 + 50) + (140 - 100) + 1)
    × (2 * (1000 + 50) ≤ 2 * (estimate + 0) + (140 - 100) + 1)
now-sync_example =
    now-sync 100 120 140 1000 50 0 170 new_clock (omega arith) (omega arith) (omega arith) refl
