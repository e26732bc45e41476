-- ===== src/Logging/Tests.antt =====
-- Concrete times and sweeps.
use wrapix.Prelude.{ℕ, ◌+◌, ◌-◌, ◌*◌, ◌%◌, ◌/◌, ◌≡◌, ◌<◌, refl, none, some, [], ◌∷◌, arith}
use wrapix.Prelude.Text.{Str, codes}
use wrapix.Prelude.Int.{pos}
use wrapix.Prelude.Exec.{ok}
use wrapix.Logging.Time.{utc_parts, format_utc_timestamp}
use wrapix.Logging.Time.Civil.{Dates, utc_parts-Dates}
use wrapix.Logging.Retention.{
  FileEntry, Listing, listed, nil, directory, file, untyped, days_ns, sweep_retention_at,
}
use wrapix.Logging.Retention.Sweep.{SweptAt, sweep_retention_at-SweptAt}

-- The examples of the source.
at_2026_05_03 : format_utc_timestamp (some 1777811445) ≡ codes "20260503T123045Z"
unfolding format_utc_timestamp
at_2026_05_03 = refl

before_epoch : format_utc_timestamp none ≡ codes "19700101T000000Z"
unfolding format_utc_timestamp
before_epoch = refl

utc_parts-Dates_example :
    let p = utc_parts 1777811445 in
    (y : ℕ) × (p.year ≡ pos y)
    × Dates (y, p.month, p.day) (1777811445 / 86400 + 719528)
    × (p.hour < 24)
    × (p.minute < 60)
    × (p.second < 60)
    × (p.hour * 3600 + p.minute * 60 + p.second ≡ 1777811445 % 86400)
utc_parts-Dates_example = utc_parts-Dates 1777811445 (omega arith)

abbrev now : ℕ
now = days_ns 100

abbrev log_file : Str → ℕ → FileEntry
log_file path age = record { path = path; modified = ok (days_ns (100 - age)); removal = ok tt }

abbrev logs : Listing
logs = listed (
    directory (codes "alpha")
      (listed (file (log_file (codes "alpha/old") 20) (file (log_file (codes "alpha/new") 2) nil)))
      (untyped (codes "odd") 1 nil))

swept : (sweep_retention_at (codes "logs") (some logs) 14 now).1.deleted ≡ codes "alpha/old" ∷ []
unfolding sweep_retention_at
swept = refl

sweep_retention_at-SweptAt_example :
    SweptAt 14 now (some logs) (sweep_retention_at (codes "logs") (some logs) 14 now)
sweep_retention_at-SweptAt_example = sweep_retention_at-SweptAt (codes "logs") (some logs) 14 now
