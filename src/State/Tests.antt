-- ===== src/State/Tests.antt =====
-- A concrete spec for loom/crates/loom-core/src/state/companions.rs.
use wrapix.Prelude.{◌≡◌, refl, [], ◌∷◌, List, arith}
use wrapix.Prelude.Text.{Str, codes}
use wrapix.State.Companions.{parse_companions}
use wrapix.State.Companions.Section.{Line, bullet, other, paths_of, parse_companions-bullets}

abbrev spec : Str
spec =
    codes
      "# Spec\n## Companions\n\n- `/lib/sandbox/`\n- `lib/agent` (shared)\nSee above.\n## Next\n- `not/companion`\n"

abbrev companions : List Line
companions =
    other []
    ∷ bullet (record { slashes = 1; path = codes "lib/sandbox/"; remark = [] })
    ∷ bullet (record { slashes = 0; path = codes "lib/agent"; remark = codes " (shared)" })
    ∷ other (codes "See above.")
    ∷ []

parse_companions-bullets_example : parse_companions spec ≡ paths_of companions
unfolding parse_companions
parse_companions-bullets_example =
    parse_companions-bullets spec (codes "# Spec" ∷ []) companions
      (codes "## Next" ∷ codes "- `not/companion`" ∷ []) refl ((λ e. cc e), tt)
      (
        (refl, refl),
        (
          record {
            path_Relative = refl;
            path_Lacks = omega arith;
            some_path = refl;
            remark_Lacks = tt;
          },
          (
            record {
              path_Relative = refl;
              path_Lacks = omega arith;
              some_path = refl;
              remark_Lacks = omega arith;
            },
            ((refl, refl), tt),
          ),
        ),
      )
      refl

-- Lines that are no bullets, and bullets without one path, are skipped.
skipped :
    parse_companions
      (codes "## Companions\n\n- `ok/path/`\n- none\n- `two` `paths`\n- ``\ntext\n  - `/deep`\n")
    ≡ codes "ok/path/" ∷ codes "deep" ∷ []
unfolding parse_companions
skipped = refl
