-- ===== src/Tmux/Audit/Stamp/Dates.antt =====
-- The dates of lib/mcp/tmux/tmux-mcp/src/audit.rs are those of the calendar.
use wrapix.Prelude.{
  ℕ, suc, ◌+◌, ◌-◌, ◌/◌, ◌%◌, ◌^◌, ◌≤◌, ◌<◌, ◌≡◌, ◌⊎◌, refl, Option, some, ltb, Bool-cases, inl,
  inr, arith, ap, ◌∙◌,
}
use wrapix.Tmux.Audit.Stamp.Search.{find_year-Year, date_from-Dates}
use wrapix.Prelude.Text.{Str}
use wrapix.Prelude.Int.{ℤ, pos, negsuc, as_i32}
use wrapix.Logging.Time.{UtcParts, civil_from_days, utc_parts}
use wrapix.Logging.Time.Civil.{civil_from_days-Dates, year_small, as_i32_small}
use wrapix.Logging.Time.Unique.{Dates-unique}
use wrapix.Tmux.Audit.Stamp.{
  Parts, at_time, in_year, date_from, timestamp_parts, or_zero, show_stamp, timestamp,
}

abbrev utc_record : ℕ → ℤ → ℕ → ℕ → UtcParts
utc_record secs y m d = record {
  year = y;
  month = m;
  day = d;
  hour = secs % 86400 / 3600;
  minute = secs % 86400 % 3600 / 60;
  second = secs % 86400 % 60;
}

utc_parts_of :
    (secs y m d : ℕ)
    → civil_from_days (secs / 86400) ≡ (y, m, d)
    → utc_parts secs ≡ utc_record secs (as_i32 y) m d
unfolding utc_parts
utc_parts_of secs y m d e = ap (λ (t : ℕ × ℕ × ℕ). utc_record secs (as_i32 t.0) t.1 t.2) e

small_year :
    (secs y m d : ℕ)
    → secs / 86400 < 2 ^ 31
    → civil_from_days (secs / 86400) ≡ (y, m, d)
    → y < 2 ^ 31
small_year secs y m d h e =
    omega (arith, year_small (secs / 86400) (omega arith), ap (λ (t : ℕ × ℕ × ℕ). t.0) e)

-- For a time of fewer than 2 ^ 31 days, that is nearly six million years: the loops over the years and
-- the months end, and the timestamp of the audit log has the same parts as that of Loom's own logs,
-- which computes them by a closed formula.
pub timestamp_parts-utc_parts :
    (secs : ℕ)
    → secs / 86400 < 2 ^ 31
    → (p : Parts) × (timestamp_parts secs ≡ some p)
      × (utc_parts secs ≡ record {
        year = pos p.year;
        month = p.month;
        day = p.day;
        hour = p.hour;
        minute = p.min;
        second = p.sec;
      })
unfolding timestamp_parts
timestamp_parts-utc_parts secs h =
    let ((y, m, d), found, dates) = date_from-Dates (secs / 86400) in
    let same =
      Dates-unique (civil_from_days (secs / 86400)) (y, m, d) (secs / 86400 + 719528) (omega arith)
        (civil_from_days-Dates (secs / 86400)) dates in
    (
      record {
        year = y;
        month = m;
        day = d;
        hour = secs % 86400 / 3600;
        min = secs % 86400 % 3600 / 60;
        sec = secs % 86400 % 60;
      },
      ap (λ (days : ℤ). at_time (secs % 86400) (date_from (suc (secs / 86400)) days))
            (as_i32_small (secs / 86400) h)
          ∙ ap (at_time (secs % 86400)) found,
      utc_parts_of secs y m d same
          ∙ ap (λ (z : ℤ). utc_record secs z m d) (as_i32_small y (small_year secs y m d h same)),
    )

-- The cast gives no larger number.
as_i32-le : (n : ℕ) → ((m : ℕ) × (as_i32 n ≡ pos m) × (m ≤ n)) ⊎ ((m : ℕ) × (as_i32 n ≡ negsuc m))
unfolding as_i32
as_i32-le n = elim (Bool-cases (ltb (n % 2 ^ 32) (2 ^ 31))) [
  | inl e ↦ inl (n % 2 ^ 32, rw e refl, omega arith)
  | inr e ↦ inr (2 ^ 32 - n % 2 ^ 32 - 1, rw e refl)
]

date_from-some :
    (fuel n : ℕ) → n < fuel → (date : ℕ × ℕ × ℕ) × (date_from fuel (as_i32 n) ≡ some date)
unfolding date_from
date_from-some fuel n h = elim (as_i32-le n) [
  | inl (m, e, le) ↦
      let (y, r, found, hy, small, sum) = find_year-Year fuel 1970 m (omega arith) (omega arith) in
      (_, ap (date_from fuel) e ∙ ap in_year found)
  | inr (m, e) ↦ (_, ap (date_from fuel) e)
]

-- The loops end for every time, also where the cast of the days to i32 wraps.
pub timestamp-some : (now : Option ℕ) → (ts : Str) × (timestamp now ≡ some ts)
unfolding timestamp timestamp_parts
timestamp-some now =
    let (date, e) =
      date_from-some (suc (or_zero now / 86400)) (or_zero now / 86400) (omega arith) in
    (_, ap (λ (d : Option (ℕ × ℕ × ℕ)). show_stamp (at_time (or_zero now % 86400) d)) e)
