-- ===== src/Msg/Tests.antt =====
-- Concrete runs of loom/crates/loom-workflow/src/msg.
use wrapix.Prelude.{ℕ, ◌≢◌, ◌++◌, ap, ◌≡◌, refl, none, some, [], ◌∷◌, map, arith, List}
use wrapix.Prelude.Text.{codes, Str, trim, trim_start_by, trim_end_by, join}
use wrapix.Prelude.Exec.{ok, err}
use wrapix.Prelude.Decimal.{to_string}
use wrapix.Core.Bead.{Bead}
use wrapix.Msg.{option_missing}
use wrapix.Msg.Options.{match_option_heading, is_next_h2}
use wrapix.Msg.Options.Written.{Shown, WellWritten, print_options}
use wrapix.Msg.Context.{build_msg_context}
use wrapix.Msg.Context.Shown.{
  Asked, question, line_of_row, line_of_bead, build_msg_context-questions,
}
use wrapix.Msg.Reply.{chosen, note_text, build_fast_reply, build_fast_reply-print}
use wrapix.Msg.Target.{
  ClarifyRow, spec_label_of, row_of, filter_clarifies, build_rows, resolve_target,
}
use wrapix.Msg.Target.Rows.{FirstWith, resolve_target-build_rows}

abbrev revert : Shown
revert = record {
  n = 1;
  title = codes "Preserve invariant";
  body_lines = codes "Revert." ∷ [] ∷ codes "Cost: churn." ∷ [];
}

abbrev keep : Shown
keep = record { n = 2; title = codes "Keep on top"; body_lines = codes "Accept." ∷ [] }

revert-WellWritten : WellWritten revert
unfolding match_option_heading is_next_h2 trim trim_start_by trim_end_by join
revert-WellWritten = record {
  small = omega arith;
  trimmed = refl;
  one_line = (omega arith, refl);
  body = (
    record { one_line = (omega arith, refl); no_option = refl; no_h2 = refl },
    (
      record { one_line = (tt, refl); no_option = refl; no_h2 = refl },
      (record { one_line = (omega arith, refl); no_option = refl; no_h2 = refl }, tt),
    ),
  );
  body_end = refl;
  body_start = refl;
}

keep-WellWritten : WellWritten keep
unfolding match_option_heading is_next_h2 trim trim_start_by trim_end_by join
keep-WellWritten = record {
  small = omega arith;
  trimmed = refl;
  one_line = (omega arith, refl);
  body = (record { one_line = (omega arith, refl); no_option = refl; no_h2 = refl }, tt);
  body_end = refl;
  body_start = refl;
}

build_fast_reply-print_example :
    build_fast_reply
      (codes "wx-x")
      (to_string 2)
      (print_options (codes "pick a path") (revert ∷ keep ∷ []))
    ≡ ok (chosen 2 (note_text 2 (codes "Keep on top") (codes "Accept.")))
unfolding trim join
build_fast_reply-print_example =
    build_fast_reply-print (codes "wx-x") (codes "pick a path") (revert ∷ []) keep []
      (omega arith, refl) refl (revert-WellWritten, (keep-WellWritten, tt)) (omega arith)
      (omega arith, tt)

note :
    note_text 2 (codes "Keep on top") (codes "Accept.")
    ≡ codes "Chose option 2 — Keep on top: Accept."
unfolding note_text
note = refl

missing :
    build_fast_reply
      (codes "wx-x")
      (codes "9")
      (codes "## Options\n\n### Option 1 - a\nb\n### Option 2\n")
    ≡ err (option_missing (codes "wx-x") 9 (codes "1, 2"))
unfolding build_fast_reply
missing = refl

abbrev described : Str → Str → List Str → Bead
described id description labels = record {
  id = id;
  title = codes "title";
  description = description;
  status = codes "open";
  priority = 2;
  issue_type = codes "task";
  labels = labels;
}

abbrev bead : Str → List Str → Bead
bead id labels = described id (codes "## Options — chosen summary\n") labels

abbrev open_beads : List Bead
open_beads =
    bead (codes "wx-1") (codes "spec:a" ∷ [])
    ∷ bead (codes "wx-2") (codes "loom:clarify" ∷ codes "spec:a" ∷ [])
    ∷ bead (codes "wx-3") (codes "loom:clarify" ∷ [])
    ∷ []

kept :
    map (λ (b : Bead). b.id) (filter_clarifies open_beads none) ≡ codes "wx-2" ∷ codes "wx-3" ∷ []
unfolding filter_clarifies
kept = refl

row_example : (row_of none 0 (bead (codes "wx-2") (codes "spec:a" ∷ []))).spec ≡ some (codes "a")
unfolding spec_label_of
row_example = refl

abbrev third : ClarifyRow
third = row_of none 2 (bead (codes "wx-3") (codes "loom:clarify" ∷ []))

resolve_target-build_rows_example :
    (resolve_target open_beads (some 3) none ≡ some (ok (codes "wx-3", some 3)))
    × (third.index ≡ 3)
    × FirstWith open_beads none (codes "wx-3") 2
resolve_target-build_rows_example =
    resolve_target-build_rows open_beads none 2 third (omega arith) (unfold build_rows in refl)

abbrev asked : List Asked
asked =
    record {
      bead =
          described (codes "wx-2") (print_options (codes "pick a path") (revert ∷ keep ∷ []))
            (codes "loom:clarify" ∷ codes "spec:a" ∷ []);
      summary = codes "pick a path";
      options = revert ∷ keep ∷ [];
      spec = some (codes "a");
    }
    ∷ record {
      bead = described (codes "wx-3") (print_options [] (keep ∷ [])) (codes "loom:clarify" ∷ []);
      summary = [];
      options = keep ∷ [];
      spec = none;
    }
    ∷ []

abbrev first : Str → ℕ
first [] = 0
first (c ∷ s) = c

other_label : (spec : Str) → codes "loom:clarify" ≢ codes "spec:" ++ spec
other_label spec e = omega (arith, ap first e)

build_msg_context-questions_example :
    (build_msg_context (codes "PIN") (map (λ (a : Asked). a.bead) asked) (codes "EXIT") ≡ record {
      pinned_context = codes "PIN";
      clarify_beads = map question asked;
      exit_signals = codes "EXIT";
    })
    × (map line_of_row (build_rows (map (λ (a : Asked). a.bead) asked) none)
        ≡ map line_of_bead (map question asked))
unfolding trim
build_msg_context-questions_example =
    build_msg_context-questions (codes "PIN") asked (codes "EXIT") (
      record {
        one_line = (omega arith, refl);
        trimmed = refl;
        options = (revert-WellWritten, (keep-WellWritten, tt));
        description = refl;
        names = (codes "loom:clarify" ∷ [], [], refl, (other_label, tt));
      },
      (
        record {
          one_line = (tt, refl);
          trimmed = refl;
          options = (keep-WellWritten, tt);
          description = refl;
          names = (other_label, tt);
        },
        tt,
      ),
    )

-- An empty summary is none.
summaries :
    map (λ (a : Asked). (question a).options_summary) asked ≡ some (codes "pick a path") ∷ none ∷ []
summaries = refl
