-- ===== src/Tmux/Tests.antt =====
-- Concrete runs of the server of lib/mcp/tmux/tmux-mcp/src.
use wrapix.Prelude.{◌≡◌, refl, none, some, [], ◌∷◌, ◌++◌, arith, List, true, false, map}
use wrapix.Prelude.Exec.{ok, err}
use wrapix.Tmux.Session.{Executor}
use wrapix.Tmux.Protocol.{Json, parse_request, from_request}
use wrapix.Tmux.Tools.{Audit, AppState, PaneJson, new_state, create_as}
use wrapix.Tmux.Tools.Creates.{Tracked, window, create_as-Tracked}
use wrapix.Tmux.Server.{run_server}
use wrapix.Tmux.Server.Valid.{run_server-IsValid}
use wrapix.Tmux.Server.Gated.{Opens, run_server-idle}
use wrapix.Tmux.Windows.{parse_windows}
use wrapix.Tmux.Windows.Print.{Window, info_of, print_windows, parse_windows-print}
use wrapix.Prelude.Text.{codes, str_eq, Str}
use wrapix.Tmux.Panes.{exited, new_manager}
use wrapix.Tmux.Panes.Ids.{IsValid}
use wrapix.Tmux.Panes.History.{
  Op, create, remove, update, run, Sound, run-Sound, new_manager-IsValid,
}

-- The removed pane's id is not given to the next one.
abbrev calls : List Op
calls =
    create (codes "htop") none
    ∷ update (codes "debug-1") exited
    ∷ remove (codes "debug-1")
    ∷ create (codes "sh") (some (codes "shell"))
    ∷ []

two_ids : (run calls new_manager).0 ≡ codes "debug-1" ∷ codes "debug-2" ∷ []
unfolding run str_eq
two_ids = refl

run-Sound_example : Sound 1 (run calls new_manager)
run-Sound_example = run-Sound calls new_manager new_manager-IsValid (omega arith)

-- A JSON library for which a line is the name of a method, whose parameters ask for a pane.
abbrev lines_as_json : Json Str
lines_as_json = record {
  request_of =
      λ line. ok (record { jsonrpc = codes "2.0"; id = none; method = line; params = some line });
  tool_call_of =
      λ v. ok (record { name = codes "tmux_create_pane"; arguments = λ key. some (codes "htop") });
  as_str = λ v. some v;
  as_i64 = λ v. none;
}

-- A tmux that does all that it is asked for, and lists what that was.
abbrev willing_tmux : Executor (List (List Str))
willing_tmux args world =
    (ok (record { is_success = true; stdout = []; stderr = [] }), world ++ args ∷ [])

-- A tmux that does not start.
abbrev missing_tmux : Executor (List (List Str))
missing_tmux args world = (err (codes "No such file or directory"), world)

abbrev silent_audit : Audit (List (List Str))
silent_audit = record {
  log_create_pane = λ _ _ _ w. w;
  log_send_keys = λ _ _ w. w;
  log_capture_pane = λ _ _ _ w. w;
  save_full_capture = λ _ _ w. w;
  log_kill_pane = λ _ w. w;
  log_list_panes = λ w. w;
}

abbrev pretty_list : List PaneJson → Str
pretty_list panes = codes "panes"

abbrev fresh_state : AppState (List (List Str))
fresh_state = new_state 7 []

abbrev requests : List Str
requests = codes "initialize" ∷ codes "tools/call" ∷ []

run_server-IsValid_example :
    IsValid
      (run_server lines_as_json pretty_list willing_tmux silent_audit requests
        fresh_state).1.pane_manager
run_server-IsValid_example =
    run_server-IsValid lines_as_json pretty_list willing_tmux silent_audit requests fresh_state
      new_manager-IsValid (omega arith)

call_refused : ¬ Opens lines_as_json pretty_list willing_tmux silent_audit (codes "tools/call")
unfolding parse_request from_request
call_refused h = h

list_refused : ¬ Opens lines_as_json pretty_list willing_tmux silent_audit (codes "tools/list")
unfolding parse_request from_request
list_refused h = h

run_server-idle_example :
    (run_server lines_as_json pretty_list willing_tmux silent_audit
      (codes "tools/call" ∷ codes "tools/list" ∷ [])
      (new_state 7 [])).1
    ≡ new_state 7 []
run_server-idle_example =
    run_server-idle lines_as_json pretty_list willing_tmux silent_audit 7 []
      (codes "tools/call" ∷ codes "tools/list" ∷ []) (call_refused, (list_refused, tt))

create_as-Tracked_example :
    Tracked lines_as_json pretty_list missing_tmux silent_audit
      (codes "htop")
      none
      fresh_state
      (window lines_as_json pretty_list missing_tmux silent_audit (codes "htop") none fresh_state).0
      (create_as lines_as_json pretty_list missing_tmux silent_audit
        (codes "htop")
        none
        fresh_state)
create_as-Tracked_example =
    create_as-Tracked lines_as_json pretty_list missing_tmux silent_audit (codes "htop") none
      fresh_state new_manager-IsValid (omega arith)

abbrev shown : List Window
shown =
    record { name = codes "bash"; pid = 41; is_dead = false }
    ∷ record { name = codes "debug-1"; pid = 4294967295; is_dead = true }
    ∷ []

parse_windows-print_example : parse_windows (print_windows shown) ≡ map info_of shown
parse_windows-print_example = parse_windows-print shown (omega arith)
