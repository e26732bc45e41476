-- ===== src/Core/Tests.antt =====
-- Concrete bead ids of loom/crates/loom-core/src/identifier/bead.rs.
use wrapix.Prelude.{◌≡◌, ◌↔◌, refl}
use wrapix.Prelude.Text.{codes}
use wrapix.Prelude.Exec.{ok, err}
use wrapix.Core.BeadId.{invalid, new}
use wrapix.Core.BeadId.Grammar.{IsBeadId, new_iff}

no_digits : new (codes "wx-3hhwq.") ≡ err (invalid (codes "wx-3hhwq."))
unfolding new
no_digits = refl

new_iff_example :
    (new (codes "wx-3hhwq.20") ≡ ok (codes "wx-3hhwq.20"))
    ↔ ((codes "wx-3hhwq.20" ≡ codes "wx-3hhwq.20") × IsBeadId (codes "wx-3hhwq.20"))
new_iff_example = new_iff (codes "wx-3hhwq.20") (codes "wx-3hhwq.20")
