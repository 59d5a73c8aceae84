-- ===== src/Room/Day/Calendar.antt =====
-- room/day.ts: the calendar arithmetic under `roomAt`.
use the_room_backend.Base.{
  ℕ, zero, suc, ◌+◌, ◌≤◌, ◌<◌, ◌≡◌, refl, ap, Bool, true, false, arith, ltb, if◌then◌else◌,
  Bool-cases, inl, inr, ltb→lt,
}
use the_room_backend.Room.Day.{
  is_leap, days_before_year, days_before_month, day_number, month_length, next_date, date_of,
  date_after,
}

-- A date of the calendar from 1970 on.
pub record IsDate (y m d : ℕ) : Type 0 where
  pub since_epoch : 1970 ≤ y
  pub first_month : 1 ≤ m
  pub last_month : m ≤ 12
  pub first_day : 1 ≤ d
  pub last_day : d ≤ month_length (is_leap y) m

days_before_year-suc :
    (y : ℕ) → days_before_year (y + 1) ≡ days_before_year y + 365 + (if is_leap y then 1 else 0)
unfolding days_before_year
days_before_year-suc y = ground arith

days_before_month-suc :
    (leap : Bool) (m : ℕ)
    → 1 ≤ m
    → m < 12
    → days_before_month leap (m + 1) ≡ days_before_month leap m + month_length leap m
unfolding days_before_month
days_before_month-suc leap m h h' = ground arith

days_before_year-ge : (y : ℕ) → 1970 ≤ y → days_before_year 1970 ≤ days_before_year y
unfolding days_before_year
days_before_year-ge y h = omega (arith, h)

month_length-pos : (leap : Bool) (m : ℕ) → 1 ≤ month_length leap m
month_length-pos leap m = ground arith

day_number_lem :
    (y m d : ℕ)
    → 1970 ≤ y
    → 1 ≤ d
    → day_number y m d + 1 + days_before_year 1970
      ≡ days_before_year y + days_before_month (is_leap y) m + d
unfolding day_number
day_number_lem y m d h hd = omega (arith, days_before_year-ge y h, hd)

-- The days of a whole year, by its months.
december_lem :
    (leap : Bool)
    → (days_before_month leap 12 + 31 ≡ 365 + (if leap then 1 else 0))
      × (days_before_month leap 1 ≡ 0)
unfolding days_before_month
december_lem true = (refl, refl)
december_lem false = (refl, refl)

same_month :
    (y m d : ℕ)
    → IsDate y m d
    → d < month_length (is_leap y) m
    → IsDate y m (d + 1) × (day_number y m (d + 1) ≡ day_number y m d + 1)
same_month y m d h lt = (
  record {
    since_epoch = h.since_epoch;
    first_month = h.first_month;
    last_month = h.last_month;
    first_day = omega arith;
    last_day = omega (arith, lt);
  },
  omega (
    arith,
    day_number_lem y m d h.since_epoch h.first_day,
    day_number_lem y m (d + 1) h.since_epoch (omega arith),
  ),
)

next_month :
    (y m d : ℕ)
    → IsDate y m d
    → month_length (is_leap y) m ≤ d
    → m < 12
    → IsDate y (m + 1) 1 × (day_number y (m + 1) 1 ≡ day_number y m d + 1)
next_month y m d h le lt = (
  record {
    since_epoch = h.since_epoch;
    first_month = omega arith;
    last_month = omega (arith, lt);
    first_day = omega arith;
    last_day = month_length-pos (is_leap y) (m + 1);
  },
  omega (
    arith,
    le,
    h.last_day,
    day_number_lem y m d h.since_epoch h.first_day,
    day_number_lem y (m + 1) 1 h.since_epoch (omega arith),
    days_before_month-suc (is_leap y) m h.first_month lt,
  ),
)

next_year :
    (y m d : ℕ)
    → IsDate y m d
    → month_length (is_leap y) m ≤ d
    → 12 ≤ m
    → IsDate (y + 1) 1 1 × (day_number (y + 1) 1 1 ≡ day_number y m d + 1)
next_year y m d h le ge =
    let december : m ≡ 12 = omega (arith, ge, h.last_month) in
    let all_months : days_before_month (is_leap y) m ≡ days_before_month (is_leap y) 12 =
      ap (λ n. days_before_month (is_leap y) n) december in
    let last : month_length (is_leap y) m ≡ 31 = ap (λ n. month_length (is_leap y) n) december in
    (
      record {
        since_epoch = omega (arith, h.since_epoch);
        first_month = omega arith;
        last_month = omega arith;
        first_day = omega arith;
        last_day = month_length-pos (is_leap (y + 1)) 1;
      },
      omega (
        arith,
        le,
        h.last_day,
        last,
        all_months,
        (december_lem (is_leap y)).0,
        (december_lem (is_leap (y + 1))).1,
        days_before_year-suc y,
        day_number_lem y m d h.since_epoch h.first_day,
        day_number_lem (y + 1) 1 1 (omega (arith, h.since_epoch)) (omega arith),
      ),
    )

next_date-IsDate :
    (y m d : ℕ)
    → IsDate y m d
    → let (y', m', d') = next_date (y, m, d) in
      IsDate y' m' d' × (day_number y' m' d' ≡ day_number y m d + 1)
unfolding next_date
next_date-IsDate y m d h = elim (Bool-cases (ltb d (month_length (is_leap y) m))) [
  | inl e ↦ rw e (same_month y m d h (ltb→lt _ _ e))
  | inr e ↦ elim (Bool-cases (ltb m 12)) [
    | inl e' ↦ rw (e, e') (next_month y m d h (not_ltb e) (ltb→lt _ _ e'))
    | inr e' ↦ rw (e, e') (next_year y m d h (not_ltb e) (not_ltb e'))
  ]
]
  where
    not_ltb : {a b : ℕ} → ltb a b ≡ false → b ≤ a
    not_ltb e = ground (arith, e)

pub date_of-IsDate : (n : ℕ) → let (y, m, d) = date_of n in IsDate y m d × (day_number y m d ≡ n)
unfolding date_of
date_of-IsDate zero = (
  record {
    since_epoch = omega arith;
    first_month = omega arith;
    last_month = omega arith;
    first_day = omega arith;
    last_day = omega arith;
  },
  unfold day_number in refl,
)
date_of-IsDate (suc n) =
    let (y, m, d) = date_of n in
    let before = date_of-IsDate n in
    let after = next_date-IsDate y m d before.0 in (after.0, omega (arith, after.1, before.1))

-- Of a date of the calendar, the day after is a date again, one day later.
pub date_after-IsDate :
    (y m d : ℕ)
    → IsDate y m d
    → let (y', m', d') = date_after y m d in
      IsDate y' m' d' × (day_number y' m' d' ≡ day_number y m d + 1)
unfolding date_after
date_after-IsDate y m d h =
    let after = date_of-IsDate (day_number y m (d + 1)) in
    (
      after.0,
      omega (
        arith,
        after.1,
        day_number_lem y m d h.since_epoch h.first_day,
        day_number_lem y m (d + 1) h.since_epoch (omega arith),
      ),
    )
