-- ===== src/Logging/Time/Calendar.antt =====
-- The Gregorian calendar, from the year 0 on: what loom/crates/loom-core/src/logging/time.rs is
-- compared with.
use native.Mathlib.Numerals.{add-one}
use wrapix.Prelude.{
  ℕ, zero, suc, ◌+◌, ◌-◌, ◌*◌, ◌/◌, ◌%◌, ◌≤◌, ◌≡◌, refl, Bool, ◌&&◌, ◌||◌, not, ◌==◌, if◌then◌else◌,
  arith,
}

unfoldable pub is_leap : ℕ → Bool
is_leap y = y % 4 == 0 && (not (y % 100 == 0) || y % 400 == 0)

unfoldable pub days_in_year : ℕ → ℕ
unfolding is_leap
days_in_year y = if is_leap y then 366 else 365

-- The days of the years before `y`.
unfoldable pub year_start : ℕ → ℕ
unfolding days_in_year
year_start zero = 0
year_start (suc y) = year_start y + days_in_year y

unfoldable pub days_in_month : ℕ → ℕ → ℕ
unfolding is_leap
days_in_month y m =
    if m == 2
    then if is_leap y then 29 else 28
    else if m == 4 || m == 6 || m == 9 || m == 11
    then 30
    else 31

-- The days of the months of the year before the month `m`.
unfoldable pub month_start : ℕ → ℕ → ℕ
unfolding days_in_month
month_start y zero = 0
month_start y (suc zero) = 0
month_start y (suc (suc m)) = month_start y (suc m) + days_in_month y (suc m)

-- The days from the first day of the year 0 to a date.
unfoldable pub ordinal : ℕ → ℕ → ℕ → ℕ
unfolding year_start month_start
ordinal y m d = year_start y + month_start y m + (d - 1)

year_start_lem : (y : ℕ) → year_start y ≡ 365 * y + (y + 3) / 4 + (y + 399) / 400 - (y + 99) / 100
unfolding year_start
year_start_lem zero = omega arith
year_start_lem (suc y) = ground (arith, year_start_lem y)

-- One more than February has else, in a leap year.
abbrev pub leap_day : ℕ → ℕ
leap_day y = if is_leap y then 1 else 0

-- The months from March on, of which the `mp`-th begins (153 mp + 2) / 5 days behind March 1.
pub month_days :
    (y mp : ℕ)
    → mp ≤ 9
    → days_in_month y (suc (suc (suc mp))) ≡ (153 * (mp + 1) + 2) / 5 - (153 * mp + 2) / 5
unfolding days_in_month
month_days y zero h = refl
month_days y (suc zero) h = refl
month_days y (suc (suc zero)) h = refl
month_days y (suc (suc (suc zero))) h = refl
month_days y (suc (suc (suc (suc zero)))) h = refl
month_days y (suc (suc (suc (suc (suc zero))))) h = refl
month_days y (suc (suc (suc (suc (suc (suc zero)))))) h = refl
month_days y (suc (suc (suc (suc (suc (suc (suc zero))))))) h = refl
month_days y (suc (suc (suc (suc (suc (suc (suc (suc zero)))))))) h = refl
month_days y (suc (suc (suc (suc (suc (suc (suc (suc (suc zero))))))))) h = refl
month_days y (suc (suc (suc (suc (suc (suc (suc (suc (suc (suc mp)))))))))) h = absurd (omega arith)

month_start-suc :
    (y m : ℕ) → month_start y (suc (suc m)) ≡ month_start y (suc m) + days_in_month y (suc m)
unfolding month_start
month_start-suc y m = refl

march_start : (y : ℕ) → month_start y 3 ≡ 59 + leap_day y
unfolding month_start
march_start y = ground arith

pub march_month :
    (y mp : ℕ) → mp ≤ 9 → month_start y (suc (suc (suc mp))) ≡ 59 + leap_day y + (153 * mp + 2) / 5
march_month y zero h = omega (arith, march_start y)
march_month y (suc mp) h = omega (
  arith,
  march_month y mp (omega arith),
  month_start-suc y (suc (suc mp)),
  month_days y mp (omega arith),
)

-- March 1 of a year.
pub march_first :
    (era yoe : ℕ)
    → yoe ≤ 399
    → year_start (yoe + era * 400) + 59 + leap_day (yoe + era * 400)
      ≡ 146097 * era + (365 * yoe + yoe / 4 - yoe / 100) + 60
unfolding is_leap
march_first era yoe h = ground (arith, year_start_lem (yoe + era * 400))

pub next_year_start : (y : ℕ) → year_start (y + 1) ≡ year_start y + 365 + leap_day y
unfolding year_start
next_year_start y = rw add-one (ground arith)

pub leap_next :
    (era yoe : ℕ)
    → yoe ≤ 399
    → 365 * (yoe + 1) + (yoe + 1) / 4 + (yoe + 1) / 400 - (yoe + 1) / 100
      ≤ 365 * yoe + yoe / 4 + yoe / 400 - yoe / 100 + 365 + leap_day (yoe + era * 400 + 1)
unfolding is_leap
leap_next era yoe h = ground arith

pub first_months :
    (y : ℕ)
    → (days_in_month y 1 ≡ 31)
      × (days_in_month y 2 ≡ 28 + leap_day y)
      × (month_start y 1 ≡ 0)
      × (month_start y 2 ≡ 31)
unfolding month_start
first_months y = (refl, ground arith, refl, refl)

pub leap_day-le : (y : ℕ) → leap_day y ≤ 1
leap_day-le y = ground arith
