-- ===== src/State/Companions.antt =====
-- loom/crates/loom-core/src/state/companions.rs: the paths of a spec's section of companions. The
-- warning about a line that is skipped is left out.
pub mod Section
use wrapix.Prelude.{
  ℕ, zero, suc, Bool, true, false, ◌==◌, ◌&&◌, Option, none, some, List, [], ◌∷◌, is_empty, filter,
  length, ltb, if◌then◌else◌,
}
use wrapix.Prelude.Text.{
  Str, codes, str_eq, starts_with, strip_prefix, trim_start, trim_start_by, split_once, lines,
}
use wrapix.Prelude.Exec.{Result, ok, err}

abbrev pub heading : Str
heading = codes "## Companions"

abbrev pub count_one : ℕ × Str → ℕ × Str
count_one (n, s) = (suc n, s)

-- How many bytes are `#`, and what is behind them.
unfoldable pub hashes : Str → ℕ × Str
hashes [] = (0, [])
hashes (c ∷ s) = let rest = count_one (hashes s) in if c == b'#' then rest else (0, c ∷ s)

abbrev pub starts_heading : ℕ × Str → Bool
starts_heading (n, s) = ltb 0 n && starts_with (b' ' ∷ []) s

unfoldable pub is_heading : Str → Bool
unfolding hashes trim_start starts_with
is_heading line = starts_heading (hashes (trim_start line))

abbrev pub is_backtick : ℕ → Bool
is_backtick c = c == b'`'

unfoldable pub normalize : Str → Str
unfolding trim_start_by
normalize raw = trim_start_by (λ c. c == b'/') raw

abbrev pub quoted_as : Option (Str × Str) → Result Str Str
quoted_as none = err (codes "no closing backtick")
quoted_as (some (raw, after)) =
    if is_empty raw then err (codes "empty path") else ok (normalize raw)

abbrev pub opened_as : Option (Str × Str) → Result Str Str
opened_as none = err (codes "no opening backtick")
opened_as (some (before, rest)) = quoted_as (split_once b'`' rest)

abbrev pub extract_counted : ℕ → Str → Result Str Str
extract_counted n body =
    if n == 0
    then err (codes "no backticks")
    else if n == 2
    then opened_as (split_once b'`' body)
    else err (codes "expected exactly one backticked path")

unfoldable pub extract_backtick_path : Str → Result Str Str
unfolding split_once normalize
extract_backtick_path body = extract_counted (length (filter is_backtick body)) body

abbrev pub add_path : Result Str Str → List Str → List Str
add_path (ok p) paths = p ∷ paths
add_path (err reason) paths = paths

-- A bullet, if the line is one, and the paths of the lines behind it.
abbrev pub add_bullet : Option Str → List Str → List Str
add_bullet none paths = paths
add_bullet (some body) paths = add_path (extract_backtick_path body) paths

abbrev pub unless_heading : Bool → List Str → List Str
unless_heading true paths = []
unless_heading false paths = paths

unfoldable pub collect : List Str → List Str
unfolding is_heading strip_prefix trim_start extract_backtick_path
collect [] = []
collect (line ∷ rest) =
    let paths = add_bullet (strip_prefix (codes "- ") (trim_start line)) (collect rest) in
    unless_heading (is_heading line) paths

-- The lines behind the first one that is the heading.
unfoldable pub section : List Str → Option (List Str)
unfolding str_eq
section [] = none
section (line ∷ rest) =
    let behind = section rest in if str_eq line heading then some rest else behind

abbrev pub collect_from : Option (List Str) → List Str
collect_from none = []
collect_from (some rest) = collect rest

unfoldable pub parse_companions : Str → List Str
unfolding collect section lines
parse_companions content = collect_from (section (lines content))
