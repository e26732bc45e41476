-- ===== src/Todo/Tests.antt =====
-- Concrete runs of loom/crates/loom-workflow/src/todo.
use wrapix.Prelude.{◌≡◌, refl, true, Option, none, some, [], ◌∷◌, ◌++◌}
use wrapix.Prelude.Text.{Str, codes, str_eq, lines}
use wrapix.Prelude.Exec.{ok}
use wrapix.Todo.Tier.{GitDiffSource, TierInputs, diff, compute_spec_diff}
use wrapix.Todo.Tier.Choice.{Means, compute_spec_diff-Means}
use wrapix.Todo.Tier.Fanout.{Fans, compute_spec_diff-Fans}
use wrapix.Todo.Exit.{blocked, parse_exit_signal}
use wrapix.Todo.Exit.Last.{Reports, parse_exit_signal-Reports}

-- A git with the commits "old" and "gone", the latter no ancestor of HEAD.
abbrev git : GitDiffSource
git = record {
  rev_exists = λ rev. true;
  is_ancestor_of_head = λ rev. str_eq rev (codes "old");
  changed_spec_files = λ base. codes "a" ∷ codes "b" ∷ [];
  diff_spec = λ base path. base ++ path;
}

abbrev inputs : TierInputs
inputs = record {
  label = codes "a";
  spec_path = codes "a";
  molecule = some (record { id = codes "m"; base_commit = some (codes "old") });
  since = none;
  sibling_base = λ label. some (codes "gone");
}

abbrev stem : Str → Option Str
stem path = some path

-- The sibling's base is no ancestor, so the anchor's base stands in.
fans_out :
    compute_spec_diff git stem inputs
    ≡ ok (
        diff (codes "old") (
          record {
            label = codes "a";
            spec_path = codes "a";
            effective_base = codes "old";
            diff = codes "olda";
          }
          ∷ record {
            label = codes "b";
            spec_path = codes "b";
            effective_base = codes "old";
            diff = codes "oldb";
          }
          ∷ []))
unfolding compute_spec_diff str_eq
fans_out = refl

compute_spec_diff-Means_example : Means git stem inputs (compute_spec_diff git stem inputs)
compute_spec_diff-Means_example = compute_spec_diff-Means git stem inputs

compute_spec_diff-Fans_example : Fans git stem inputs (compute_spec_diff git stem inputs)
compute_spec_diff-Fans_example = compute_spec_diff-Fans git stem inputs

abbrev output : Str
output = codes "LOOM_COMPLETE was the plan\nmissing schema\n LOOM_BLOCKED\n"

blocked_last : parse_exit_signal output ≡ some (blocked (codes "missing schema"))
unfolding parse_exit_signal
blocked_last = refl

parse_exit_signal-Reports_example : Reports [] (lines output) (parse_exit_signal output)
parse_exit_signal-Reports_example = parse_exit_signal-Reports output
