-- ===== src/Logging/Time/Civil.antt =====
-- The dates that loom/crates/loom-core/src/logging/time.rs computes are those of the calendar.
use wrapix.Prelude.{
  ℕ, suc, ◌+◌, ◌-◌, ◌*◌, ◌/◌, ◌%◌, ◌^◌, ◌≤◌, ◌<◌, ◌≡◌, ◌⊎◌, refl, sym, subst, inl, inr, leb,
  if◌then◌else◌, arith,
}
use native.Mathlib.Numerals.{add-three}
use wrapix.Logging.Time.{year_of_era, day_of_year, month_of, civil_from_days, utc_parts}
use wrapix.Prelude.Int.{pos, as_i32}
use wrapix.Logging.Time.Calendar.{
  leap_day, year_start, days_in_month, month_start, ordinal, march_month, march_first, month_days,
  next_year_start, leap_next, first_months, leap_day-le,
}

-- A date of the calendar, `n` days behind the first day of the year 0.
abbrev pub Dates : ℕ × ℕ × ℕ → ℕ → Type 0
Dates (y, m, d) n = (1 ≤ m) × (m ≤ 12) × (1 ≤ d) × (d ≤ days_in_month y m) × (ordinal y m d ≡ n)

-- The days of the years of an era, which begin in March, before its year `n`.
abbrev era_start : ℕ → ℕ
era_start n = 365 * n + n / 4 + n / 400 - n / 100

year_of_era_bounds :
    (doe : ℕ)
    → doe < 146097
    → (year_of_era doe ≤ 399)
      × (era_start (year_of_era doe) ≤ doe)
      × (doe < era_start (year_of_era doe + 1))
unfolding year_of_era
year_of_era_bounds doe h = omega arith

ordinal_lem : (y m d : ℕ) → ordinal y m d ≡ year_start y + month_start y m + (d - 1)
unfolding ordinal
ordinal_lem y m d = refl

-- From March on: the month `mp`, in which the day `doy` of the year lies.
early :
    (y mp doy : ℕ)
    → mp ≤ 9
    → (153 * mp + 2) / 5 ≤ doy
    → doy < (153 * (mp + 1) + 2) / 5
    → Dates (y, mp + 3, doy - (153 * mp + 2) / 5 + 1) (year_start y + 59 + leap_day y + doy)
early y mp doy small from below = rw add-three (
  omega arith,
  omega arith,
  omega arith,
  omega (arith, month_days y mp small),
  omega (
    arith,
    march_month y mp small,
    ordinal_lem y (suc (suc (suc mp))) (doy - (153 * mp + 2) / 5 + 1),
  ),
)

-- January and February are of the next year.
january :
    (y doy : ℕ)
    → 306 ≤ doy
    → doy < 337
    → Dates (y + 1, 1, doy - 306 + 1) (year_start y + 59 + leap_day y + doy)
january y doy from below = (
  omega arith,
  omega arith,
  omega arith,
  omega (arith, (first_months (y + 1)).0),
  omega (arith, next_year_start y, ordinal_lem (y + 1) 1 (doy - 306 + 1), (first_months (y + 1)).2),
)

february :
    (y doy : ℕ)
    → 337 ≤ doy
    → doy < 365 + leap_day (y + 1)
    → Dates (y + 1, 2, doy - 337 + 1) (year_start y + 59 + leap_day y + doy)
february y doy from below = (
  omega arith,
  omega arith,
  omega arith,
  omega (arith, (first_months (y + 1)).1),
  omega (arith, next_year_start y, ordinal_lem (y + 1) 2 (doy - 337 + 1), (first_months (y + 1)).3),
)

-- The date of a day of a year that begins in March.
abbrev date_of : ℕ → ℕ → ℕ → ℕ × ℕ × ℕ
date_of y doy mp =
    let d = doy - (153 * mp + 2) / 5 + 1 in
    let m = month_of mp in (if leb m 2 then y + 1 else y, m, d)

date_early : (y doy mp : ℕ) → mp ≤ 9 → date_of y doy mp ≡ (y, mp + 3, doy - (153 * mp + 2) / 5 + 1)
unfolding month_of
date_early y doy mp h = ground arith

date_january : (y doy mp : ℕ) → mp ≡ 10 → date_of y doy mp ≡ (y + 1, 1, doy - 306 + 1)
unfolding month_of
date_january y doy mp h = rw h

date_february : (y doy mp : ℕ) → mp ≡ 11 → date_of y doy mp ≡ (y + 1, 2, doy - 337 + 1)
unfolding month_of
date_february y doy mp h = rw h

month_cases : (mp : ℕ) → mp ≤ 11 → (mp ≤ 9) ⊎ ((mp ≡ 10) ⊎ (mp ≡ 11))
month_cases mp h = grind arith

date_of-Dates :
    (y doy mp : ℕ)
    → mp ≡ (5 * doy + 2) / 153
    → doy < 365 + leap_day (y + 1)
    → Dates (date_of y doy mp) (year_start y + 59 + leap_day y + doy)
date_of-Dates y doy mp e below = elim (month_cases mp (omega (arith, leap_day-le (y + 1)))) [
  | inl h ↦
      subst (λ t. Dates t (year_start y + 59 + leap_day y + doy)) (sym (date_early y doy mp h))
        (early y mp doy h (omega arith) (omega arith))
  | inr late ↦ elim late [
    | inl h ↦
        subst (λ t. Dates t (year_start y + 59 + leap_day y + doy)) (sym (date_january y doy mp h))
          (january y doy (omega arith) (omega arith))
    | inr h ↦
        subst (λ t. Dates t (year_start y + 59 + leap_day y + doy)) (sym (date_february y doy mp h))
          (february y doy (omega arith) below)
  ]
]

-- The date that is computed for a day since the epoch is one of the calendar: its month and its day
-- are in their ranges, and it lies as many days behind 1970-01-01, which is day 719528 of the
-- calendar.
pub civil_from_days-Dates : (days : ℕ) → Dates (civil_from_days days) (days + 719528)
unfolding civil_from_days
civil_from_days-Dates days =
    subst (Dates (civil_from_days days)) (omega (arith, march_first era yoe small)) (
      date_of-Dates (yoe + era * 400) (day_of_year doe yoe) _ refl
        (omega (arith, leap_next era yoe small)))
  where
    era : ℕ
    era = (days + 719468) / 146097

    doe : ℕ
    doe = (days + 719468) % 146097

    yoe : ℕ
    yoe = year_of_era doe

    bounds : (yoe ≤ 399) × (era_start yoe ≤ doe) × (doe < era_start (yoe + 1))
    bounds = year_of_era_bounds doe (omega arith)

    small : yoe ≤ 399
    small = bounds.0

pub year_small : (days : ℕ) → days < 2 ^ 39 → (civil_from_days days).0 < 2 ^ 31
unfolding civil_from_days
year_small days h = ground (arith, (year_of_era_bounds ((days + 719468) % 146097) (omega arith)).0)

pub as_i32_small : (n : ℕ) → n < 2 ^ 31 → as_i32 n ≡ pos n
unfolding as_i32
as_i32_small n h = ground arith

-- For a time up to 2 ^ 55 seconds, that is more than a thousand million years: the parts are those of
-- the calendar and of the clock. The year, the month and the day are a date, which lies as many days
-- behind 1970-01-01 (day 719528 from the start of the year 0) as the time has whole days; and the
-- hours, minutes and seconds are in their ranges and make up the rest of the day.
pub utc_parts-Dates :
    (secs : ℕ)
    → secs < 2 ^ 55
    → let p = utc_parts secs in
      (y : ℕ) × (p.year ≡ pos y)
      × Dates (y, p.month, p.day) (secs / 86400 + 719528)
      × (p.hour < 24)
      × (p.minute < 60)
      × (p.second < 60)
      × (p.hour * 3600 + p.minute * 60 + p.second ≡ secs % 86400)
unfolding utc_parts
utc_parts-Dates secs h = (
  (civil_from_days (secs / 86400)).0,
  as_i32_small _ (year_small (secs / 86400) (omega arith)),
  civil_from_days-Dates (secs / 86400),
  omega arith,
  omega arith,
  omega arith,
  omega arith,
)
