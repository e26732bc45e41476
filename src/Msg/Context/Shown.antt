-- ===== src/Msg/Context/Shown.antt =====
-- What the template of loom/crates/loom-workflow/src/msg/context.rs shows of the beads that are asked
-- about, and that the list of list.rs shows the same.
use wrapix.Prelude.{
  ◌≢◌, ◌++◌, find_map, ℕ, suc, ◌≡◌, refl, ap, ap₂, ◌∙◌, Option, none, some, List, [], ◌∷◌, All, map,
  is_empty, if◌then◌else◌,
}
use wrapix.Prelude.Text.{Str, codes, strip_prefix, trim, join}
use wrapix.Prelude.Split.{OneLine, strip_prefix-some}
use wrapix.Core.Label.{Label, spec_label}
use wrapix.Core.Bead.{Bead}
use wrapix.Msg.Options.{OptionsParse, parse_options}
use wrapix.Msg.Options.Print.{parse_options-print}
use wrapix.Msg.Options.Written.{Shown, WellWritten, entry_of, print_options}
use wrapix.Msg.Target.{ClarifyRow, spec_label_of, or_dash, rows_from, build_rows}
use wrapix.Msg.Context.{
  ClarifyOption, ClarifyBead, option_field, clarify_option, clarify_bead, to_clarify_bead,
  build_msg_context,
}

-- A bead, and the block that its description is.
pub record Asked : Type 0 where
  pub bead : Bead
  pub summary : Str
  pub options : List Shown
  pub spec : Option Str

abbrev NoSpec : Label → Type 0
NoSpec label = (spec : Str) → label ≢ codes "spec:" ++ spec

-- The spec is that of the first label that begins with "spec:", and none if no label does.
abbrev pub Names : List Label → Option Str → Type 0
Names labels none = All NoSpec labels
Names labels (some spec) =
    (before : List Label) × (after : List Label) × (labels
      ≡ before ++ (codes "spec:" ++ spec) ∷ after)
    × All NoSpec before

pub record Contract (a : Asked) : Type 0 where
  pub one_line : OneLine a.summary
  pub trimmed : trim a.summary ≡ a.summary
  pub options : All WellWritten a.options
  pub description : a.bead.description ≡ print_options a.summary a.options
  pub names : Names a.bead.labels a.spec

abbrev given : Str → Option Str
given [] = none
given (c ∷ s) = some (c ∷ s)

abbrev spec_or_dash : Option Str → Str
spec_or_dash none = codes "—"
spec_or_dash (some spec) = spec

abbrev pub choice : Shown → ClarifyOption
choice x = record { n = x.n; title = given x.title; body = given (join (0x0a ∷ []) x.body_lines) }

abbrev pub question : Asked → ClarifyBead
question a = record {
  id = a.bead.id;
  spec_label = spec_or_dash a.spec;
  title = a.bead.title;
  options_summary = given a.summary;
  options = map choice a.options;
}

-- What the list says of a bead, and what the template says of it.
abbrev pub line_of_row : ClarifyRow → Str × (Option Str × Str)
line_of_row r = (r.bead_id, (r.spec, r.summary))

abbrev summary_or : Str → Option Str → Str
summary_or title none = title
summary_or title (some s) = s

abbrev pub line_of_bead : ClarifyBead → Str × (Option Str × Str)
line_of_bead c = (c.id, (some c.spec_label, summary_or c.title c.options_summary))

option_field-given : (s : Str) → option_field s ≡ given s
option_field-given [] = refl
option_field-given (c ∷ s) = refl

clarify_option-choice : (x : Shown) → clarify_option (entry_of x) ≡ choice x
clarify_option-choice x =
    ap₂ (λ (t b : Option Str). record { n = x.n; title = t; body = b }) (option_field-given x.title)
      (option_field-given (join (0x0a ∷ []) x.body_lines))

choices : (xs : List Shown) → map clarify_option (map entry_of xs) ≡ map choice xs
choices [] = refl
choices (x ∷ xs) = ap₂ ◌∷◌ (clarify_option-choice x) (choices xs)

NoSpec-none : (label : Label) → NoSpec label → spec_label label ≡ none
unfolding spec_label
NoSpec-none label h = stripped (strip_prefix (codes "spec:") label) refl
  where
    stripped :
        (o : Option Str)
        → strip_prefix (codes "spec:") label ≡ o
        → strip_prefix (codes "spec:") label ≡ none
    stripped none e = e
    stripped (some s) e = absurd (h s (strip_prefix-some (codes "spec:") label e))

find_none : (labels : List Label) → All NoSpec labels → find_map spec_label labels ≡ none
unfolding spec_label
find_none [] h = refl
find_none (l ∷ labels) (p, h) = rw (NoSpec-none l p) (find_none labels h)

find_first :
    (before after : List Label) (spec : Str)
    → All NoSpec before
    → find_map spec_label (before ++ (codes "spec:" ++ spec) ∷ after) ≡ some spec
unfolding spec_label strip_prefix
find_first [] after spec h = refl
find_first (l ∷ before) after spec (p, h) = rw (NoSpec-none l p) (find_first before after spec h)

Names-spec_label_of :
    (bead : Bead) (spec : Option Str) → Names bead.labels spec → spec_label_of bead ≡ spec
unfolding spec_label_of
Names-spec_label_of bead none h = find_none bead.labels h
Names-spec_label_of bead (some spec) (before, after, e, h) =
    ap (find_map spec_label) e ∙ find_first before after spec h

or_dash-spec : (o : Option Str) → or_dash o ≡ spec_or_dash o
or_dash-spec none = refl
or_dash-spec (some s) = refl

to_clarify_bead-question : (a : Asked) → Contract a → to_clarify_bead a.bead ≡ question a
unfolding to_clarify_bead
to_clarify_bead-question a h =
    ap (λ (p : OptionsParse). clarify_bead p a.bead)
      (ap parse_options h.description
        ∙ parse_options-print a.summary a.options h.one_line h.trimmed h.options)
    ∙ ap
        (λ (os : List ClarifyOption).
          record (clarify_bead (record { summary = a.summary; options = map entry_of a.options })
            a.bead) { options = os })
        (choices a.options)
    ∙ ap₂
        (λ (spec : Str) (summary : Option Str). record (question a) {
          spec_label = spec;
          options_summary = summary;
        })
        (ap or_dash (Names-spec_label_of a.bead a.spec h.names) ∙ or_dash-spec a.spec)
        (option_field-given a.summary)

questions :
    (xs : List Asked)
    → All Contract xs
    → map to_clarify_bead (map (λ (a : Asked). a.bead) xs) ≡ map question xs
questions [] h = refl
questions (a ∷ xs) (c, h) = ap₂ ◌∷◌ (to_clarify_bead-question a c) (questions xs h)

summary_agree :
    (title s : Str) → (if is_empty s then title else s) ≡ summary_or title (option_field s)
summary_agree title [] = refl
summary_agree title (c ∷ s) = refl

lines_agree :
    (i : ℕ) (beads : List Bead)
    → map line_of_row (rows_from none i beads) ≡ map line_of_bead (map to_clarify_bead beads)
unfolding rows_from to_clarify_bead
lines_agree i [] = refl
lines_agree i (b ∷ beads) =
    ap₂ ◌∷◌
      (ap (λ (t : Str). (b.id, (some (or_dash (spec_label_of b)), t)))
        (summary_agree b.title (parse_options b.description).summary))
      (lines_agree (suc i) beads)

-- Beads whose descriptions are blocks that are written by the contract reach the template in order,
-- each with its id, its title and its spec, that of its first label "spec:" or an em-dash for none,
-- with the summary of its block and the options of its block, an empty summary, title or body being
-- none; and the list, when it is not restricted to a spec, shows of each the same id, spec and
-- summary (the title for none).
pub build_msg_context-questions :
    (pinned_context : Str) (xs : List Asked) (exit_signals : Str)
    → All Contract xs
    → (build_msg_context pinned_context (map (λ (a : Asked). a.bead) xs) exit_signals ≡ record {
      pinned_context = pinned_context;
      clarify_beads = map question xs;
      exit_signals = exit_signals;
    })
      × (map line_of_row (build_rows (map (λ (a : Asked). a.bead) xs) none)
          ≡ map line_of_bead (map question xs))
unfolding build_msg_context build_rows
build_msg_context-questions pinned_context xs exit_signals h = (
  ap
      (λ (cs : List ClarifyBead). record {
        pinned_context = pinned_context;
        clarify_beads = cs;
        exit_signals = exit_signals;
      })
      (questions xs h),
  lines_agree 0 (map (λ (a : Asked). a.bead) xs) ∙ ap (map line_of_bead) (questions xs h),
)
