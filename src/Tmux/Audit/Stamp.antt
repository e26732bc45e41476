-- ===== src/Tmux/Audit/Stamp.antt =====
-- The timestamps of lib/mcp/tmux/tmux-mcp/src/audit.rs. The time is the number of seconds since the
-- epoch, or none before it.
pub mod Dates
pub mod Search
use wrapix.Prelude.{
  ℕ, zero, suc, ◌+◌, ◌-◌, ◌*◌, ◌/◌, ◌%◌, ◌^◌, Bool, not, ◌==◌, ◌&&◌, ◌||◌, Option, none, some, List,
  [], ◌∷◌, ◌++◌, ltb, if◌then◌else◌,
}
use wrapix.Prelude.Text.{Str, codes}
use wrapix.Prelude.Int.{ℤ, pos, negsuc, as_i32}
use wrapix.Logging.Time.{padded}

unfoldable pub is_leap_year : ℕ → Bool
is_leap_year year = year % 4 == 0 && not (year % 100 == 0) || year % 400 == 0

unfoldable pub year_days : ℕ → ℕ
unfolding is_leap_year
year_days year = if is_leap_year year then 366 else 365

-- The loop over the years: the year, and the days that remain in it.
unfoldable pub find_year : ℕ → ℕ → ℕ → Option (ℕ × ℕ)
unfolding year_days
find_year zero year remaining_days = none
find_year (suc fuel) year remaining_days =
    let later = find_year fuel (suc year) (remaining_days - year_days year) in
    if ltb remaining_days (year_days year) then some (year, remaining_days) else later

-- The loop over the months.
unfoldable pub find_month : List ℕ → ℕ → ℕ → ℕ × ℕ
find_month [] month remaining_days = (month, remaining_days)
find_month (days_in_month ∷ rest) month remaining_days =
    let later = find_month rest (suc month) (remaining_days - days_in_month) in
    if ltb remaining_days days_in_month then (month, remaining_days) else later

unfoldable pub days_in_months : Bool → List ℕ
days_in_months leap =
    31 ∷ (if leap then 29 else 28) ∷ 31 ∷ 30 ∷ 31 ∷ 30 ∷ 31 ∷ 31 ∷ 30 ∷ 31 ∷ 30 ∷ 31 ∷ []

pub record Parts : Type 0 where
  pub year : ℕ  -- i32
  pub month : ℕ
  pub day : ℕ
  pub hour : ℕ
  pub min : ℕ
  pub sec : ℕ

abbrev pub month_and_day : ℕ → ℕ × ℕ → Option (ℕ × ℕ × ℕ)
month_and_day year (month, remaining_days) = some (year, month, remaining_days + 1)

abbrev pub in_year : Option (ℕ × ℕ) → Option (ℕ × ℕ × ℕ)
in_year none = none
in_year (some (year, remaining_days)) =
    month_and_day year (find_month (days_in_months (is_leap_year year)) 1 remaining_days)

-- A negative number of days ends both loops at once; the day is cast to u32.
unfoldable pub date_from : ℕ → ℤ → Option (ℕ × ℕ × ℕ)
unfolding find_year find_month days_in_months is_leap_year
date_from fuel (pos days) = in_year (find_year fuel 1970 days)
date_from fuel (negsuc n) = some (1970, 1, (2 ^ 32 - n) % 2 ^ 32)

abbrev pub at_time : ℕ → Option (ℕ × ℕ × ℕ) → Option Parts
at_time day_secs none = none
at_time day_secs (some (year, month, day)) = some (record {
  year = year;
  month = month;
  day = day;
  hour = day_secs / 3600;
  min = day_secs % 3600 / 60;
  sec = day_secs % 60;
})

-- Each round of the loop over the years takes a day at least.
unfoldable pub timestamp_parts : ℕ → Option Parts
unfolding date_from as_i32
timestamp_parts secs =
    at_time (secs % 86400) (date_from (suc (secs / 86400)) (as_i32 (secs / 86400)))

abbrev pub show_stamp : Option Parts → Option Str
show_stamp none = none
show_stamp (some p) = some (
    padded 4 p.year
    ++ (codes "-"
        ++ (padded 2 p.month
            ++ (codes "-"
                ++ (padded 2 p.day
                    ++ (codes "T"
                        ++ (padded 2 p.hour
                            ++ (codes ":"
                                ++ (padded 2 p.min
                                    ++ (codes ":" ++ (padded 2 p.sec ++ codes "Z")))))))))))

abbrev pub or_zero : Option ℕ → ℕ
or_zero none = 0
or_zero (some secs) = secs

unfoldable pub timestamp : Option ℕ → Option Str
unfolding timestamp_parts padded
timestamp now = show_stamp (timestamp_parts (or_zero now))
