-- ===== src/Logging/Time.antt =====
-- loom/crates/loom-core/src/logging/time.rs: the UTC timestamp in the name of a log file. A
-- `SystemTime` is the number of seconds since the epoch, or none before it.
pub mod Calendar
pub mod Civil
pub mod Unique
use wrapix.Prelude.{
  ℕ, zero, suc, ◌+◌, ◌-◌, ◌*◌, ◌/◌, ◌%◌, ◌≡◌, refl, Option, none, some, List, [], ◌∷◌, ◌++◌, length,
  ltb, leb, if◌then◌else◌,
}
use wrapix.Prelude.Text.{Str, codes}
use wrapix.Prelude.Decimal.{to_string}
use wrapix.Prelude.Int.{ℤ, pos, negsuc, as_i32}

-- The parts of `civil_from_days`: the day of the era, the year of the era, the day of that year,
-- which begins in March, and the month in it.
unfoldable pub year_of_era : ℕ → ℕ
year_of_era doe = (doe - doe / 1460 + doe / 36524 - doe / 146096) / 365

unfoldable pub day_of_year : ℕ → ℕ → ℕ
day_of_year doe yoe = doe - (365 * yoe + yoe / 4 - yoe / 100)

unfoldable pub month_of : ℕ → ℕ
month_of mp = if ltb mp 10 then mp + 3 else mp - 9

-- The year before it is cast to i32, the month and the day.
unfoldable pub civil_from_days : ℕ → ℕ × ℕ × ℕ
unfolding year_of_era day_of_year month_of
civil_from_days days_since_epoch =
    let z = days_since_epoch + 719468 in
    let era = z / 146097 in
    let doe = z % 146097 in
    let yoe = year_of_era doe in
    let y = yoe + era * 400 in
    let doy = day_of_year doe yoe in
    let mp = (5 * doy + 2) / 153 in
    let d = doy - (153 * mp + 2) / 5 + 1 in
    let m = month_of mp in (if leb m 2 then y + 1 else y, m, d)

pub record UtcParts : Type 0 where
  pub year : ℤ  -- i32
  pub month : ℕ
  pub day : ℕ
  pub hour : ℕ
  pub minute : ℕ
  pub second : ℕ

unfoldable pub utc_parts : ℕ → UtcParts
unfolding civil_from_days as_i32
utc_parts secs =
    let days = secs / 86400 in
    let time_of_day = secs % 86400 in
    let (year, month, day) = civil_from_days days in
    record {
      year = as_i32 year;
      month = month;
      day = day;
      hour = time_of_day / 3600;
      minute = time_of_day % 3600 / 60;
      second = time_of_day % 60;
    }

-- `{n:0w}` of a `format!` string
unfoldable pub replicate : ℕ → ℕ → Str
replicate zero c = []
replicate (suc n) c = c ∷ replicate n c

unfoldable pub padded : ℕ → ℕ → Str
unfolding to_string replicate
padded w n = let s = to_string n in replicate (w - length s) b'0' ++ s

unfoldable pub padded_int : ℕ → ℤ → Str
unfolding padded
padded_int w (pos n) = padded w n
padded_int w (negsuc n) = b'-' ∷ padded (w - 1) (n + 1)

abbrev since_epoch : Option ℕ → ℕ
since_epoch none = 0
since_epoch (some secs) = secs

abbrev pub show_parts : UtcParts → Str
show_parts p =
    padded_int 4 p.year
    ++ (padded 2 p.month
        ++ (padded 2 p.day
            ++ (b'T'
                ∷ (padded 2 p.hour ++ (padded 2 p.minute ++ (padded 2 p.second ++ codes "Z"))))))

unfoldable pub format_utc_timestamp : Option ℕ → Str
unfolding utc_parts padded_int
format_utc_timestamp t = show_parts (utc_parts (since_epoch t))
