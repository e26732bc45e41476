-- ===== src/Tmux/Tools.antt =====
-- lib/mcp/tmux/tmux-mcp/src/main.rs: the handlers of the tools. The audit log is a record of
-- functions on the world; the errors that it returns are ignored.
pub mod Keeps
pub mod Creates
use wrapix.Prelude.{ℕ, ltb, not, Option, none, some, List, [], ◌∷◌, ◌++◌, map, if◌then◌else◌}
use wrapix.Prelude.Text.{Str, codes, utf8_len}
use wrapix.Prelude.Int.{ℤ, pos, negsuc}
use wrapix.Prelude.Exec.{Result, ok, err}
use wrapix.Tmux.Panes.{
  PaneStatus, running, exited, as_str, PaneState, PaneManager, new_manager, create_pane,
  contains_pane, remove_pane, update_status, values, unwrap_or,
}
use wrapix.Tmux.Windows.{WindowInfo}
use wrapix.Tmux.Session.{
  TmuxError, show_error, Executor, TmuxSession, with_executor, create_window, send_keys,
  capture_pane, kill_window, list_windows, get_window_info,
}
use wrapix.Tmux.Protocol.{ToolCallResult, tool_success, tool_error, Json, McpHandler, new_handler}

-- audit.rs: what each entry writes.
pub record Audit (W : Type 0) : Type 0 where
  pub log_create_pane : Str → Str → Option Str → W → W
  pub log_send_keys : Str → Str → W → W
  pub log_capture_pane : Str → ℕ → ℕ → W → W
  pub save_full_capture : Str → Str → W → W
  pub log_kill_pane : Str → W → W
  pub log_list_panes : W → W

pub record AppState (W : Type 0) : Type 0 where
  pub mcp_handler : McpHandler
  pub pane_manager : PaneManager
  pub tmux_session : TmuxSession W

abbrev pub new_state : {W : Type 0} → ℕ → W → AppState W
new_state pid world = record {
  mcp_handler = new_handler;
  pane_manager = new_manager;
  tmux_session = with_executor pid world;
}

-- One object of the list of panes.
pub record PaneJson : Type 0 where
  pub id : Str
  pub name : Str
  pub status : Str
  pub command : Str

unfoldable pub pane_json : PaneState → PaneJson
unfolding as_str
pane_json pane = record {
  id = pane.id;
  name = pane.name;
  status = as_str pane.status;
  command = pane.command;
}

abbrev pub clamp : ℤ → ℕ
clamp (negsuc n) = 1
clamp (pos n) = if ltb n 1 then 1 else if ltb 1000 n then 1000 else n

abbrev pub lines_or_default : Option ℤ → ℕ
lines_or_default none = 100
lines_or_default (some n) = clamp n

abbrev pub status_of : WindowInfo → PaneStatus
status_of info = if info.is_dead then exited else running

abbrev pub update_all : List WindowInfo → PaneManager → PaneManager
update_all [] m = m
update_all (window ∷ windows) m =
    update_all windows (update_status window.name (status_of window) m).1

abbrev missing_pane_id : Str
missing_pane_id =
    codes "Missing required parameter 'pane_id'. Use tmux_list_panes to see active panes."

abbrev pane_not_found : Str → Str
pane_not_found pane_id =
    codes "Pane '" ++ pane_id ++ codes "' not found. Use tmux_list_panes to see active panes."

module _ {V W : Type 0} (json : Json V) (pretty : List PaneJson → Str) (execute : Executor W)
    (audit : Audit W) where
  abbrev Handler : Type 0
  Handler = AppState W → ToolCallResult × AppState W

  abbrev pub arg_str : (Str → Option V) → Str → Option Str
  arg_str arguments key = elim (arguments key) [ none ↦ none | some v ↦ json.as_str v ]

  abbrev pub arg_i64 : (Str → Option V) → Str → Option ℤ
  arg_i64 arguments key = elim (arguments key) [ none ↦ none | some v ↦ json.as_i64 v ]

  abbrev logged : (W → W) → TmuxSession W → TmuxSession W
  logged write t = record t { world = write t.world }

  -- The pane is in the manager before tmux is asked for its window.
  abbrev pub created :
      Str
      → Str
      → Option Str
      → AppState W
      → Result TmuxError Str × TmuxSession W
      → ToolCallResult × AppState W
  created pane_id command name state (ok _, t) = (
    tool_success (
        codes "Created pane '"
        ++ unwrap_or name pane_id
        ++ codes "' (id: "
        ++ pane_id
        ++ codes ") running: "
        ++ command),
    record state { tmux_session = logged (audit.log_create_pane pane_id command name) t },
  )
  created pane_id command name state (err e, t) = (
    tool_error (codes "Failed to create pane: " ++ show_error e),
    record state { pane_manager = (remove_pane pane_id state.pane_manager).1; tmux_session = t },
  )

  unfoldable pub create_as : Str → Option Str → Handler
  unfolding create_pane create_window show_error remove_pane
  create_as command name state =
      let (pane_id, m) = create_pane command name state.pane_manager in
      created pane_id command name (record state { pane_manager = m })
        (create_window execute command pane_id state.tmux_session)

  unfoldable pub handle_create_pane : (Str → Option V) → Handler
  unfolding create_as
  handle_create_pane args state = elim (arg_str args (codes "command")) [
    | none ↦ (
      tool_error
          (codes "Missing required parameter 'command'. Provide the command to run in the pane."),
      state,
    )
    | some command ↦ create_as command (arg_str args (codes "name")) state
  ]

  abbrev pub sent :
      Str
      → Str
      → AppState W
      → Result TmuxError (Unit {0}) × TmuxSession W
      → ToolCallResult × AppState W
  sent pane_id keys state (ok _, t) = (
    tool_success (codes "Sent keys to pane '" ++ pane_id ++ codes "'"),
    record state { tmux_session = logged (audit.log_send_keys pane_id keys) t },
  )
  sent pane_id keys state (err e, t) = (
    tool_error (codes "Failed to send keys: " ++ show_error e),
    record state { tmux_session = t },
  )

  unfoldable pub send_to : Str → Str → Handler
  unfolding contains_pane send_keys show_error
  send_to pane_id keys state =
      let answer = sent pane_id keys state (send_keys execute pane_id keys state.tmux_session) in
      if not (contains_pane state.pane_manager pane_id)
      then (tool_error (pane_not_found pane_id), state)
      else answer

  unfoldable pub handle_send_keys : (Str → Option V) → Handler
  unfolding send_to
  handle_send_keys args state = elim (arg_str args (codes "pane_id")) [
    | none ↦ (tool_error missing_pane_id, state)
    | some pane_id ↦ elim (arg_str args (codes "keys")) [
      | none ↦ (
        tool_error (codes "Missing required parameter 'keys'. Provide the keystrokes to send."),
        state,
      )
      | some keys ↦ send_to pane_id keys state
    ]
  ]

  abbrev pub refreshed :
      Str → PaneManager → Result TmuxError WindowInfo × TmuxSession W → PaneManager × TmuxSession W
  refreshed pane_id m (ok info, t) = ((update_status pane_id (status_of info) m).1, t)
  refreshed pane_id m (err e, t) = (m, t)

  abbrev pub captured :
      Str → ℕ → AppState W → Result TmuxError Str × TmuxSession W → ToolCallResult × AppState W
  captured pane_id count state (ok output, t) =
      let t' =
        logged (audit.save_full_capture pane_id output)
          (logged (audit.log_capture_pane pane_id count (utf8_len output)) t) in
      let (m, t'') = refreshed pane_id state.pane_manager (get_window_info execute pane_id t') in
      (tool_success output, record state { pane_manager = m; tmux_session = t'' })
  captured pane_id count state (err e, t) = (
    tool_error (codes "Failed to capture pane: " ++ show_error e),
    record state { tmux_session = t },
  )

  unfoldable pub capture_of : Str → ℕ → Handler
  unfolding contains_pane capture_pane get_window_info utf8_len update_status show_error
  capture_of pane_id count state =
      let answer =
        captured pane_id count state (capture_pane execute pane_id count state.tmux_session) in
      if not (contains_pane state.pane_manager pane_id)
      then (tool_error (pane_not_found pane_id), state)
      else answer

  unfoldable pub handle_capture_pane : (Str → Option V) → Handler
  unfolding capture_of
  handle_capture_pane args state = elim (arg_str args (codes "pane_id")) [
    | none ↦ (tool_error missing_pane_id, state)
    | some pane_id ↦ capture_of pane_id (lines_or_default (arg_i64 args (codes "lines"))) state
  ]

  abbrev pub killed :
      Str → AppState W → Result TmuxError (Unit {0}) × TmuxSession W → ToolCallResult × AppState W
  killed pane_id state (ok _, t) = (
    tool_success (codes "Killed pane '" ++ pane_id ++ codes "'"),
    record state {
      pane_manager = (remove_pane pane_id state.pane_manager).1;
      tmux_session = logged (audit.log_kill_pane pane_id) t;
    },
  )
  killed pane_id state (err e, t) = (
    tool_error (codes "Failed to kill pane: " ++ show_error e),
    record state { tmux_session = t },
  )

  unfoldable pub kill_of : Str → Handler
  unfolding contains_pane kill_window remove_pane show_error
  kill_of pane_id state =
      let answer = killed pane_id state (kill_window execute pane_id state.tmux_session) in
      if not (contains_pane state.pane_manager pane_id)
      then (tool_error (pane_not_found pane_id), state)
      else answer

  unfoldable pub handle_kill_pane : (Str → Option V) → Handler
  unfolding kill_of
  handle_kill_pane args state = elim (arg_str args (codes "pane_id")) [
    | none ↦ (tool_error missing_pane_id, state)
    | some pane_id ↦ kill_of pane_id state
  ]

  abbrev pub all_refreshed :
      PaneManager → Result TmuxError (List WindowInfo) × TmuxSession W → PaneManager × TmuxSession W
  all_refreshed m (ok windows, t) = (update_all windows m, t)
  all_refreshed m (err e, t) = (m, t)

  abbrev listing : List PaneJson → Str
  listing [] = codes "No active panes. Use tmux_create_pane to create one."
  listing (pane ∷ panes) = pretty (pane ∷ panes)

  unfoldable pub handle_list_panes : Handler
  unfolding list_windows values pane_json update_status
  handle_list_panes state =
      let (m, t) = all_refreshed state.pane_manager (list_windows execute state.tmux_session) in
      (
        tool_success (listing (map pane_json (values m))),
        record state { pane_manager = m; tmux_session = logged audit.log_list_panes t },
      )
