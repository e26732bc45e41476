-- ===== src/Core/Bead.antt =====
-- loom/crates/loom-core/src/bd/models.rs: `Bead`.
use wrapix.Prelude.{ℕ, List}
use wrapix.Prelude.Text.{Str}
use wrapix.Core.Label.{Label}
use wrapix.Core.BeadId.{BeadId}

pub record Bead : Type 0 where
  pub id : BeadId
  pub title : Str
  pub description : Str
  pub status : Str
  pub priority : ℕ  -- u8
  pub issue_type : Str
  pub labels : List Label
