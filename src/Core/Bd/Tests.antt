-- ===== src/Core/Bd/Tests.antt =====
-- Concrete calls of loom/crates/loom-core/src/bd/client.rs.
use wrapix.Prelude.{ℕ, ◌≡◌, refl, true, none, some, List, [], ◌∷◌, ◌++◌}
use wrapix.Prelude.Text.{Str, codes}
use wrapix.Prelude.Int.{pos}
use wrapix.Prelude.Utf8.{from_utf8}
use wrapix.Prelude.Exec.{ok, err}
use wrapix.Prelude.Act.{Act}
use wrapix.Core.Process.{Finished, exited}
use wrapix.Core.Bd.{
  BdError, RunOutput, tokio_run, Json, CreateOpts, UpdateOpts, update_args, create_args, show_empty,
}
use wrapix.Core.Bd.Client.{show, create, list}
use wrapix.Core.Bd.Switches.{Asked, Switch, read_switches}
use wrapix.Core.Bd.Argv.{update_args-Asked}
use wrapix.Core.Bd.Calls.{show_op, argv, perform, Fails, perform-Fails}

-- "é" and "—"
accents : from_utf8 (0xc3 ∷ 0xa9 ∷ 0xe2 ∷ 0x80 ∷ 0x94 ∷ []) ≡ some (0xe9 ∷ 0x2014 ∷ [])
unfolding from_utf8
accents = refl

-- An overlong slash
overlong : from_utf8 (0xc0 ∷ 0xaf ∷ []) ≡ none
unfolding from_utf8
overlong = refl

abbrev odd : UpdateOpts
odd = record {
  claim = true;
  status = some (codes "--claim");
  priority = none;
  add_labels = codes "loom:clarify" ∷ codes "--remove-label" ∷ [];
  remove_labels = codes "x" ∷ [];
}

odd_args :
    update_args (codes "wx-1") odd
    ≡ codes "update"
      ∷ codes "wx-1"
      ∷ codes "--claim"
      ∷ codes "--status"
      ∷ codes "--claim"
      ∷ codes "--add-label"
      ∷ codes "loom:clarify"
      ∷ codes "--add-label"
      ∷ codes "--remove-label"
      ∷ codes "--remove-label"
      ∷ codes "x"
      ∷ []
unfolding update_args
odd_args = refl

update_args-Asked_example :
    (tail : List Str) × (ws : List Switch) × (update_args (codes "wx-1") odd
      ≡ codes "update" ∷ codes "wx-1" ∷ tail)
    × (read_switches tail ≡ some ws)
    × Asked odd ws
update_args-Asked_example = update_args-Asked (codes "wx-1") odd

-- What was run is the state; no JSON is read.
abbrev no_json : Json ℕ Str
no_json = record {
  beads = λ out. ok [];
  progress = λ out. err (codes "no progress");
  lossy = λ bytes. bytes;
}

abbrev failing : List Str → ℕ → List (List Str) → Finished Str × List (List Str)
failing args t s = (exited (some (pos 1)) [] (codes "no database"), s ++ args ∷ [])

abbrev printing : Str → List Str → ℕ → List (List Str) → Finished Str × List (List Str)
printing out args t s = (exited (some (pos 0)) out [], s ++ args ∷ [])

abbrev failing_bd : List Str → ℕ → Act (List (List Str)) (BdError Str Str) RunOutput
failing_bd = tokio_run failing

perform-Fails_example :
    ((perform no_json failing_bd 60000 (show_op (codes "wx-1")) []).1
      ≡ (failing_bd (argv (show_op (codes "wx-1"))) 60000 []).1)
    × Fails no_json failing_bd 60000
        (argv (show_op (codes "wx-1")))
        (failing_bd (argv (show_op (codes "wx-1"))) 60000 []).0
        (perform no_json failing_bd 60000 (show_op (codes "wx-1")) []).0
perform-Fails_example = perform-Fails no_json failing_bd 60000 (show_op (codes "wx-1")) []

no_rows :
    (list no_json
      (tokio_run (printing (codes " null\n")))
      1
      (record { status = none; label = none })
      []).0
    ≡ ok []
unfolding list tokio_run
no_rows = refl

no_row : (show no_json (tokio_run (printing (codes "[]"))) 1 (codes "wx-1") []).0 ≡ err show_empty
unfolding show tokio_run
no_row = refl

abbrev plain : CreateOpts
plain = record {
  title = codes "t";
  description = codes "d";
  issue_type = some (codes "task");
  priority = some 2;
  labels = codes "a" ∷ codes "b" ∷ [];
  parent = none;
}

created :
    (create no_json (tokio_run (printing (codes "wx-7.1\n"))) 1 plain []).0 ≡ ok (codes "wx-7.1")
unfolding create tokio_run
created = refl

create_arguments :
    create_args plain
    ≡ codes "create"
      ∷ codes "--silent"
      ∷ codes "--title"
      ∷ codes "t"
      ∷ codes "--description"
      ∷ codes "d"
      ∷ codes "--type"
      ∷ codes "task"
      ∷ codes "--priority"
      ∷ codes "2"
      ∷ codes "--labels"
      ∷ codes "a,b"
      ∷ []
unfolding create_args
create_arguments = refl
