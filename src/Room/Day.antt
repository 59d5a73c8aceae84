-- ===== src/Room/Day.antt =====
-- room/day.ts: calendar math for the daily room. The wall clock of a timezone comes from `Intl`, a
-- library with a database: `Zone` is its answer at an instant. Instants are milliseconds since
-- 1970; `Date.UTC` and the calendar fields of a `Date` are written out for days from 1970 on.
pub mod Calendar
pub mod Fixed
use the_room_backend.Base.{
  ℕ, zero, suc, ◌+◌, ◌-◌, ◌*◌, ◌/◌, ◌%◌, Bool, ◌&&◌, String, ltb, leb, eqb, if◌then◌else◌, not,
  ◌||◌,
}
use the_room_backend.Base.Int.{ℤ, sub_ℕ, sub_clipped}
use the_room_backend.Base.Text.{◌^^◌, decimal}

abbrev pub day_ms : ℕ
day_ms = 86400000

pub record Parts : Type 0 where
  pub y : ℕ
  pub m : ℕ
  pub d : ℕ
  pub hh : ℕ
  pub mm : ℕ
  pub ss : ℕ

-- `formatter(tz).formatToParts(ts)`, the parts as numbers.
abbrev pub Zone : Type 0
Zone = ℕ → Parts

-- `partsAt`: some platforms write midnight as hour 24.
unfoldable pub parts_at : (ts : ℕ) → Zone → Parts
parts_at ts tz = let p = tz ts in record p { hh = if eqb p.hh 24 then 0 else p.hh }

abbrev pub is_leap : ℕ → Bool
is_leap y = (eqb (y % 4) 0 && not (eqb (y % 100) 0)) || eqb (y % 400) 0

-- Days in the years before `y`, from year 0 on.
days_before_year : ℕ → ℕ
days_before_year y = 365 * y + (y + 3) / 4 - (y + 99) / 100 + (y + 399) / 400

-- Days of the year before month `m`, from 1.
days_before_month : Bool → ℕ → ℕ
days_before_month leap m = common + (if leap && leb 3 m then 1 else 0)
  where
    common : ℕ
    common =
        if leb m 1
        then 0
        else if eqb m 2
        then 31
        else if eqb m 3
        then 59
        else if eqb m 4
        then 90
        else if eqb m 5
        then 120
        else if eqb m 6
        then 151
        else if eqb m 7
        then 181
        else if eqb m 8
        then 212
        else if eqb m 9
        then 243
        else if eqb m 10
        then 273
        else if eqb m 11
        then 304
        else 334

-- Days from 1 January 1970 to the date; the day of the month may run over.
unfoldable pub day_number : (y m d : ℕ) → ℕ
unfolding days_before_year days_before_month
day_number y m d =
    days_before_year y + days_before_month (is_leap y) m + d - 1 - days_before_year 1970

-- `Date.UTC(y, m - 1, d, hh, mm, ss)`
unfoldable pub date_utc : Parts → ℕ
unfolding day_number
date_utc p = day_number p.y p.m p.d * day_ms + ((p.hh * 60 + p.mm) * 60 + p.ss) * 1000

abbrev pub midnight_of : (y m d : ℕ) → Parts
midnight_of y m d = record { y = y; m = m; d = d; hh = 0; mm = 0; ss = 0 }

-- `Math.floor(ts / 1000) * 1000`
abbrev pub whole_seconds : ℕ → ℕ
whole_seconds ts = ts / 1000 * 1000

unfoldable pub offset_at : (ts : ℕ) → Zone → ℤ
unfolding parts_at date_utc
offset_at ts tz = sub_ℕ (date_utc (parts_at ts tz)) (whole_seconds ts)

unfoldable pub midnight_utc : (y m d : ℕ) → Zone → ℕ
unfolding offset_at date_utc
midnight_utc y m d tz =
    let naive = date_utc (midnight_of y m d) in
    let guess = sub_clipped naive (offset_at naive tz) in sub_clipped naive (offset_at guess tz)

-- `String(n).padStart(2, "0")`
pad2 : ℕ → String
pad2 n = if ltb n 10 then "0" ^^ decimal n else decimal n

unfoldable pub room_date_at : (ts : ℕ) → Zone → String
unfolding parts_at pad2
room_date_at ts tz =
    let p = parts_at ts tz in decimal p.y ^^ ("-" ^^ (pad2 p.m ^^ ("-" ^^ pad2 p.d)))

pub record DailyRoom : Type 0 where
  pub room_id : String
  pub day : ℤ
  pub starts_at : ℕ
  pub ends_at : ℕ

-- The days of month `m`.
abbrev pub month_length : Bool → ℕ → ℕ
month_length leap m =
    if eqb m 2
    then (if leap then 29 else 28)
    else if eqb m 4 || eqb m 6 || eqb m 9 || eqb m 11
    then 30
    else 31

-- The day after a day of the calendar.
unfoldable pub next_date : ℕ × ℕ × ℕ → ℕ × ℕ × ℕ
next_date (y, m, d) =
    if ltb d (month_length (is_leap y) m)
    then (y, m, d + 1)
    else if ltb m 12
    then (y, m + 1, 1)
    else (y + 1, 1, 1)

-- The fields of a `Date`, by its days since 1 January 1970.
unfoldable pub date_of : ℕ → ℕ × ℕ × ℕ
unfolding next_date
date_of zero = (1970, 1, 1)
date_of (suc n) = next_date (date_of n)

-- The fields of `new Date(Date.UTC(y, m - 1, d + 1))`.
unfoldable pub date_after : (y m d : ℕ) → ℕ × ℕ × ℕ
unfolding date_of day_number
date_after y m d = date_of (day_number y m (d + 1))

-- The epoch date is given by its year, month and day.
unfoldable pub room_at : (ts : ℕ) → Zone → (epoch : ℕ × ℕ × ℕ) → DailyRoom
unfolding parts_at midnight_utc date_after day_number room_date_at
room_at ts tz epoch =
    let p = parts_at ts tz in
    let next = date_after p.y p.m p.d in
    record {
      room_id = room_date_at ts tz;
      day = sub_ℕ (day_number p.y p.m p.d + 1) (day_number epoch.0 epoch.1 epoch.2);
      starts_at = midnight_utc p.y p.m p.d tz;
      ends_at = midnight_utc next.0 next.1 next.2 tz;
    }
