-- ===== src/Msg/Target.antt =====
-- loom/crates/loom-workflow/src/msg/list.rs and context.rs: the list of outstanding clarifications,
-- and the bead that a number or an id names.
pub mod Rows
use wrapix.Prelude.{
  ℕ, suc, ◌+◌, ◌-◌, ◌^◌, ◌<◌, ◌≤◌, ◌≡◌, refl, ap, ◌∙◌, ◌==◌, ltb, ◌||◌, Bool, true, false, Option,
  none, some, is_some, List, [], ◌∷◌, is_empty, any, filter, find_map, length, get_elem?,
  if◌then◌else◌, arith,
}
use wrapix.Prelude.Text.{Str, str_eq}
use wrapix.Prelude.Exec.{Result, ok, err}
use wrapix.Core.BeadId.{BeadId}
use wrapix.Core.Label.{SpecLabel, is_clarify, spec_label}
use wrapix.Core.Bead.{Bead}
use wrapix.Msg.{MsgError, ambiguous_target, index_out_of_range, bead_not_found, target_required}
use wrapix.Msg.Options.{parse_options}

pub record ClarifyRow : Type 0 where
  pub index : ℕ  -- u32
  pub bead_id : Str
  pub spec : Option Str
  pub summary : Str

-- `l.spec_label().as_ref() == Some(label)`
abbrev labelled : SpecLabel → Option SpecLabel → Bool
labelled label none = false
labelled label (some s) = str_eq s label

abbrev of_spec : Option SpecLabel → Bead → Bool
of_spec none b = true
of_spec (some label) b = any (λ l. labelled label (spec_label l)) b.labels

unfoldable pub filter_clarifies : List Bead → Option SpecLabel → List Bead
unfolding is_clarify spec_label str_eq
filter_clarifies beads spec = filter (of_spec spec) (filter (λ b. any is_clarify b.labels) beads)

unfoldable pub spec_label_of : Bead → Option SpecLabel
unfolding spec_label
spec_label_of b = find_map spec_label b.labels

-- `u32::try_from`
abbrev pub try_u32 : ℕ → Option ℕ
try_u32 n = if ltb n (2 ^ 32) then some n else none

-- `.unwrap_or(u32::MAX)`
abbrev pub or_max : Option ℕ → ℕ
or_max (some n) = n
or_max none = 2 ^ 32 - 1

-- An em-dash stands for no label.
abbrev pub or_dash : Option SpecLabel → Str
or_dash (some s) = s
or_dash none = 0x2014 ∷ []

abbrev column : Option SpecLabel → Bead → Option Str
column (some label) b = none
column none b = some (or_dash (spec_label_of b))

abbrev pub row_of : Option SpecLabel → ℕ → Bead → ClarifyRow
row_of spec_filter i b = record {
  index = or_max (try_u32 (suc i));
  bead_id = b.id;
  spec = column spec_filter b;
  summary =
      if is_empty (parse_options b.description).summary
      then b.title
      else (parse_options b.description).summary;
}

unfoldable pub rows_from : Option SpecLabel → ℕ → List Bead → List ClarifyRow
unfolding parse_options spec_label_of
rows_from spec_filter i [] = []
rows_from spec_filter i (b ∷ beads) = row_of spec_filter i b ∷ rows_from spec_filter (suc i) beads

unfoldable pub build_rows : List Bead → Option SpecLabel → List ClarifyRow
unfolding rows_from
build_rows beads spec_filter = rows_from spec_filter 0 beads

-- What `-n` and `-i` name: a bead's id and its place.
abbrev pub Target : Type 0
Target = Result MsgError (BeadId × Option ℕ)

-- `beads[idx]`: `none` for an index out of range, where the source panics
abbrev pub bead_at : Option Bead → ℕ → Option Target
bead_at (some b) n = some (ok (b.id, some n))
bead_at none n = none

unfoldable pub find_id : Str → ℕ → List Bead → Target
unfolding str_eq
find_id target_id i [] = err (bead_not_found target_id)
find_id target_id i (b ∷ beads) =
    let rest = find_id target_id (suc i) beads in
    if str_eq b.id target_id then ok (b.id, try_u32 (suc i)) else rest

abbrev pub by_index : List Bead → ℕ → ℕ → Option Target
by_index beads total n =
    if n == 0 || ltb total n
    then some (err (index_out_of_range n total))
    else bead_at (get_elem? beads (n - 1)) n

unfoldable pub resolve_target : List Bead → Option ℕ → Option Str → Option Target
unfolding find_id
resolve_target beads (some n) (some id) = some (err ambiguous_target)
resolve_target beads (some n) none = by_index beads (or_max (try_u32 (length beads))) n
resolve_target beads none (some id) = some (find_id id 0 beads)
resolve_target beads none none = some (err target_required)
