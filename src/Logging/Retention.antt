-- ===== src/Logging/Retention.antt =====
-- loom/crates/loom-core/src/logging/retention.rs: the sweep of old logs. The directory is a tree of
-- what the file system answers; a time is a number of nanoseconds since the earliest time.
pub mod Sweep
use wrapix.Prelude.{
  ℕ, ◌+◌, ◌-◌, ◌*◌, ◌%◌, ◌^◌, ◌==◌, Bool, true, false, Option, none, some, List, [], ◌∷◌, ◌++◌, leb,
  ltb, if◌then◌else◌,
}
use wrapix.Prelude.Text.{Str}
use wrapix.Prelude.Exec.{Result, ok, err}

-- A regular file: its path, its mtime, and whether it can be removed. Errors are `io::ErrorKind`s,
-- as numbers.
pub record FileEntry : Type 0 where
  pub path : Str
  pub modified : Result ℕ ℕ
  pub removal : Result ℕ (Unit {0})

mutual
  -- What `read_dir` answers.
  pub data Listing : Type 0 where
    unreadable : ℕ → Listing
    listed : Entries → Listing

  pub data Entries : Type 0 where
    nil : Entries
    directory : Str → Listing → Entries → Entries
    file : FileEntry → Entries → Entries
    -- neither a directory nor a regular file
    special : Entries → Entries
    -- an entry whose type cannot be read
    untyped : Str → ℕ → Entries → Entries
    -- an entry that cannot be read, which `flatten` drops
    unread : Entries → Entries

pub record RetentionReport : Type 0 where
  pub deleted : List Str
  pub failed : List (Str × ℕ)
  pub skipped_recent : ℕ  -- u32

abbrev pub empty_report : RetentionReport
empty_report = record { deleted = []; failed = []; skipped_recent = 0 }

abbrev pub fail : Str → ℕ → RetentionReport → RetentionReport
fail path kind r = record r { failed = r.failed ++ (path, kind) ∷ [] }

abbrev pub delete : Str → RetentionReport → RetentionReport
delete path r = record r { deleted = r.deleted ++ path ∷ [] }

abbrev pub skip : RetentionReport → RetentionReport
skip r = record r { skipped_recent = (r.skipped_recent + 1) % 2 ^ 32 }

-- What is done about a file: whether it stays, and the report.
abbrev pub remove_file : FileEntry → Result ℕ (Unit {0}) → RetentionReport → Bool × RetentionReport
remove_file f (ok _) r = (false, delete f.path r)
remove_file f (err kind) r = (true, fail f.path kind r)

abbrev pub sweep_aged : ℕ → FileEntry → Result ℕ ℕ → RetentionReport → Bool × RetentionReport
sweep_aged cutoff f (err kind) r = (true, fail f.path kind r)
sweep_aged cutoff f (ok mtime) r =
    if leb cutoff mtime then (true, skip r) else remove_file f f.removal r

unfoldable pub sweep_file : ℕ → FileEntry → RetentionReport → Bool × RetentionReport
sweep_file cutoff f r = sweep_aged cutoff f f.modified r

abbrev pub keep_file : FileEntry → Entries × RetentionReport → Bool → Entries × RetentionReport
keep_file f (entries, r) true = (file f entries, r)
keep_file f (entries, r) false = (entries, r)

-- The directory after the sweep, and the report.
unfoldable mutual
  unfolding sweep_file

  pub walk_and_sweep : ℕ → Str → Listing → RetentionReport → Listing × RetentionReport
  walk_and_sweep cutoff dir (unreadable kind) r = (unreadable kind, fail dir kind r)
  walk_and_sweep cutoff dir (listed entries) r =
      let (entries', r') = walk_entries cutoff entries r in (listed entries', r')

  pub walk_entries : ℕ → Entries → RetentionReport → Entries × RetentionReport
  walk_entries cutoff nil r = (nil, r)
  walk_entries cutoff (directory path listing entries) r =
      let (listing', r') = walk_and_sweep cutoff path listing r in
      let (entries', r'') = walk_entries cutoff entries r' in
      (directory path listing' entries', r'')
  walk_entries cutoff (file f entries) r =
      let (stays, r') = sweep_file cutoff f r in keep_file f (walk_entries cutoff entries r') stays
  walk_entries cutoff (special entries) r =
      let (entries', r') = walk_entries cutoff entries r in (special entries', r')
  walk_entries cutoff (untyped path kind entries) r =
      let (entries', r') = walk_entries cutoff entries (fail path kind r) in
      (untyped path kind entries', r')
  walk_entries cutoff (unread entries) r =
      let (entries', r') = walk_entries cutoff entries r in (unread entries', r')

abbrev pub days_ns : ℕ → ℕ
days_ns days = days * 86400 * 10 ^ 9

abbrev sweep_root : ℕ → Option Listing → Str → Option Listing × RetentionReport
sweep_root cutoff none root = (none, empty_report)
sweep_root cutoff (some listing) root =
    let (listing', r) = walk_and_sweep cutoff root listing empty_report in (some listing', r)

-- `none` is a root that does not exist.
unfoldable pub sweep_retention_at : Str → Option Listing → ℕ → ℕ → Option Listing × RetentionReport
unfolding walk_and_sweep
sweep_retention_at root logs retention_days now =
    if retention_days == 0
    then (logs, empty_report)
    else if ltb now (days_ns retention_days)
    then (logs, empty_report)
    else sweep_root (now - days_ns retention_days) logs root
