-- ===== src/Spec/Tests.antt =====
-- Concrete files for loom/crates/loom-workflow/src/spec: deps.rs and annotations.rs.
use wrapix.Prelude.{Option, none, some, List, ◌≡◌, refl, true, false, [], ◌∷◌}
use wrapix.Prelude.Text.{codes, Str, lines}
use wrapix.Spec.Deps.{has_command_use, scan_file_body}
use wrapix.Prelude.Exec.{Result, ok}
use wrapix.Prelude.Components.{PathBuf, components, normal}
use wrapix.Spec.Criteria.{verify, unannotated}
use wrapix.Spec.Annotations.{Annotation, parse_body}
use wrapix.Spec.Annotations.Reference.{visible, criteria_section, rows_of, unless_none}
use wrapix.Spec.Annotations.Rows.{parse_body-rows}
use wrapix.Spec.Deps.Collect.{collect_deps}
use wrapix.Spec.Deps.Collect.Found.{Collected, collect_deps-Collected}

-- The first place is no use, the second one is.
used : has_command_use (codes "mycurl x|curl -s") (codes "curl") ≡ true
unfolding has_command_use
used = refl

unused : has_command_use (codes "mycurl xcurl -s") (codes "curl") ≡ false
unfolding has_command_use
unused = refl

packages :
    scan_file_body (codes "jq .field\ncurl https://example.com | python3\n")
    ≡ codes "curl" ∷ codes "jq" ∷ codes "python3" ∷ []
unfolding scan_file_body
packages = refl

-- A link far behind its criterion, and a block of code.
abbrev spec : Str
spec =
    codes
      "# S\n## Success Criteria\n- [x] first\n\n(see below)\n  [verify](../tests/a.sh#run(1))\n```\n- [ ] no\n```\n- [ ] last\n## Next\n- [ ] no\n"

abbrev rows : List Annotation
rows =
    record {
      criterion = codes "first";
      kind = verify;
      file = some (normal (codes "tests") ∷ normal (codes "a.sh") ∷ []);
      function = some (codes "run(1)");
      checked = true;
    }
    ∷ record {
      criterion = codes "last";
      kind = unannotated;
      file = none;
      function = none;
      checked = false;
    }
    ∷ []

parses : parse_body spec (components (codes "specs")) ≡ some rows
unfolding parse_body components
parses = refl

parse_body-rows_example :
    parse_body spec (components (codes "specs"))
    ≡ unless_none
        (rows_of (components (codes "specs")) (criteria_section (visible false (lines spec))))
parse_body-rows_example = parse_body-rows spec (components (codes "specs"))

abbrev read : PathBuf → Option (Result Str Str)
read path = some (ok (codes "scp a b; ssh c"))

collected : collect_deps read (components (codes "/ws")) rows ≡ ok (codes "openssh" ∷ [])
unfolding collect_deps
collected = refl

collect_deps-Collected_example :
    Collected read
      (components (codes "/ws"))
      rows
      (collect_deps read (components (codes "/ws")) rows)
collect_deps-Collected_example = collect_deps-Collected read (components (codes "/ws")) rows
