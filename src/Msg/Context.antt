-- ===== src/Msg/Context.antt =====
-- loom/crates/loom-workflow/src/msg/context.rs: what the template of `loom msg` is given, whose types
-- are those of loom/crates/loom-templates/src/msg/mod.rs.
pub mod Shown
use wrapix.Prelude.{
  ℕ, Bool, true, false, Option, none, some, List, [], ◌∷◌, map, is_empty, if◌then◌else◌,
}
use wrapix.Prelude.Text.{Str}
use wrapix.Core.BeadId.{BeadId}
use wrapix.Core.Label.{SpecLabel}
use wrapix.Core.Bead.{Bead}
use wrapix.Msg.Options.{OptionEntry, OptionsParse, parse_options}
use wrapix.Msg.Target.{spec_label_of, or_dash}

pub record ClarifyOption : Type 0 where
  pub n : ℕ  -- u32
  pub title : Option Str
  pub body : Option Str

pub record ClarifyBead : Type 0 where
  pub id : BeadId
  pub spec_label : SpecLabel
  pub title : Str
  pub options_summary : Option Str
  pub options : List ClarifyOption

pub record MsgContext : Type 0 where
  pub pinned_context : Str
  pub clarify_beads : List ClarifyBead
  pub exit_signals : Str

abbrev pub option_field : Str → Option Str
option_field s = if is_empty s then none else some s

abbrev pub clarify_option : OptionEntry → ClarifyOption
clarify_option opt = record {
  n = opt.n;
  title = option_field opt.title;
  body = option_field opt.body;
}

-- The bead, its description parsed.
abbrev pub clarify_bead : OptionsParse → Bead → ClarifyBead
clarify_bead parsed bead = record {
  id = bead.id;
  spec_label = or_dash (spec_label_of bead);
  title = bead.title;
  options_summary = option_field parsed.summary;
  options = map clarify_option parsed.options;
}

unfoldable pub to_clarify_bead : Bead → ClarifyBead
unfolding parse_options spec_label_of
to_clarify_bead bead = clarify_bead (parse_options bead.description) bead

unfoldable pub build_msg_context : Str → List Bead → Str → MsgContext
unfolding to_clarify_bead
build_msg_context pinned_context beads exit_signals = record {
  pinned_context = pinned_context;
  clarify_beads = map to_clarify_bead beads;
  exit_signals = exit_signals;
}
