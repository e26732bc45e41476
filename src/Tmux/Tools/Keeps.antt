-- ===== src/Tmux/Tools/Keeps.antt =====
-- The tools of lib/mcp/tmux/tmux-mcp/src/main.rs keep the panes consistent.
use wrapix.Prelude.{
  ℕ, ◌+◌, ◌^◌, ◌<◌, ◌≤◌, Bool, true, false, Option, none, some, List, [], ◌∷◌, arith, not,
  if◌then◌else◌,
}
use wrapix.Prelude.Text.{Str, codes}
use wrapix.Prelude.Exec.{Result, ok, err}
use wrapix.Tmux.Panes.{
  PaneStatus, PaneManager, create_pane, contains_pane, remove_pane, update_status,
}
use wrapix.Tmux.Panes.Ids.{IsValid, create_pane-fresh, remove_pane-IsValid, update_status-IsValid}
use wrapix.Tmux.Panes.History.{update-next_id, create-next_id}
use wrapix.Tmux.Windows.{WindowInfo}
use wrapix.Tmux.Session.{TmuxError, Executor, TmuxSession, list_windows}
use wrapix.Tmux.Protocol.{Json, ToolCallResult}
use wrapix.Tmux.Tools.{
  Audit, AppState, PaneJson, status_of, update_all, created, create_as, handle_create_pane, sent,
  send_to, handle_send_keys, refreshed, captured, capture_of, handle_capture_pane, killed, kill_of,
  handle_kill_pane, all_refreshed, handle_list_panes, arg_str,
}

-- A step from a manager with this counter: valid, and at most one id was handed out.
abbrev pub Kept : ℕ → PaneManager → Type 0
Kept bound m = IsValid m × (m.next_id ≤ bound + 1)

update_status-Kept :
    (k : Str) (status : PaneStatus) (m : PaneManager) (bound : ℕ)
    → Kept bound m
    → Kept bound (update_status k status m).1
update_status-Kept k status m bound (v, le) =
    (update_status-IsValid k status m v, omega (arith, update-next_id k status m))

remove_pane-Kept :
    (k : Str) (m : PaneManager) (bound : ℕ) → Kept bound m → Kept bound (remove_pane k m).1
remove_pane-Kept k m bound (v, le) = (remove_pane-IsValid k m v, unfold remove_pane in le)

update_all-Kept :
    (windows : List WindowInfo) (m : PaneManager) (bound : ℕ)
    → Kept bound m
    → Kept bound (update_all windows m)
update_all-Kept [] m bound k = k
update_all-Kept (window ∷ windows) m bound k =
    update_all-Kept windows (update_status window.name (status_of window) m).1 bound
      (update_status-Kept window.name (status_of window) m bound k)

module _ {V W : Type 0} (json : Json V) (pretty : List PaneJson → Str) (execute : Executor W)
    (audit : Audit W) where
  abbrev pub KeptState : ℕ → ToolCallResult × AppState W → Type 0
  KeptState bound (_, state) = Kept bound state.pane_manager

  created-Kept :
      (pane_id command : Str) (name : Option Str) (state : AppState W) (bound : ℕ)
      (r : Result TmuxError Str × TmuxSession W)
      → Kept bound state.pane_manager
      → KeptState bound (created json pretty execute audit pane_id command name state r)
  created-Kept pane_id command name state bound (ok _, t) k = k
  created-Kept pane_id command name state bound (err e, t) k =
      remove_pane-Kept pane_id state.pane_manager bound k

  create_as-Kept :
      (command : Str) (name : Option Str) (state : AppState W)
      → IsValid state.pane_manager
      → state.pane_manager.next_id + 1 < 2 ^ 64
      → KeptState state.pane_manager.next_id
          (create_as json pretty execute audit command name state)
  unfolding create_as
  create_as-Kept command name state v small =
      let (_, v', _) = create_pane-fresh command name state.pane_manager v small in
      let e = create-next_id command name state.pane_manager small in
      created-Kept (create_pane command name state.pane_manager).0 command name
        (record state { pane_manager = (create_pane command name state.pane_manager).1 })
        state.pane_manager.next_id _ (v', omega (arith, e))

  sent-Kept :
      (pane_id keys : Str) (state : AppState W) (bound : ℕ)
      (r : Result TmuxError (Unit {0}) × TmuxSession W)
      → Kept bound state.pane_manager
      → KeptState bound (sent json pretty execute audit pane_id keys state r)
  sent-Kept pane_id keys state bound (ok _, t) k = k
  sent-Kept pane_id keys state bound (err e, t) k = k

  refreshed-Kept :
      (pane_id : Str) (m : PaneManager) (bound : ℕ)
      (r : Result TmuxError WindowInfo × TmuxSession W)
      → Kept bound m
      → Kept bound (refreshed json pretty execute audit pane_id m r).0
  refreshed-Kept pane_id m bound (ok info, t) k =
      update_status-Kept pane_id (status_of info) m bound k
  refreshed-Kept pane_id m bound (err e, t) k = k

  captured-Kept :
      (pane_id : Str) (count : ℕ) (state : AppState W) (bound : ℕ)
      (r : Result TmuxError Str × TmuxSession W)
      → Kept bound state.pane_manager
      → KeptState bound (captured json pretty execute audit pane_id count state r)
  captured-Kept pane_id count state bound (ok output, t) k =
      refreshed-Kept pane_id state.pane_manager bound _ k
  captured-Kept pane_id count state bound (err e, t) k = k

  killed-Kept :
      (pane_id : Str) (state : AppState W) (bound : ℕ)
      (r : Result TmuxError (Unit {0}) × TmuxSession W)
      → Kept bound state.pane_manager
      → KeptState bound (killed json pretty execute audit pane_id state r)
  killed-Kept pane_id state bound (ok _, t) k = remove_pane-Kept pane_id state.pane_manager bound k
  killed-Kept pane_id state bound (err e, t) k = k

  all_refreshed-Kept :
      (m : PaneManager) (bound : ℕ) (r : Result TmuxError (List WindowInfo) × TmuxSession W)
      → Kept bound m
      → Kept bound (all_refreshed json pretty execute audit m r).0
  all_refreshed-Kept m bound (ok windows, t) k = update_all-Kept windows m bound k
  all_refreshed-Kept m bound (err e, t) k = k

  guarded-Kept :
      (tracked : Bool) (refused answer : ToolCallResult × AppState W) (bound : ℕ)
      → KeptState bound refused
      → KeptState bound answer
      → KeptState bound (if not tracked then refused else answer)
  guarded-Kept true refused answer bound k h = h
  guarded-Kept false refused answer bound k h = k

  args-Kept :
      (o : Option Str) (refused : ToolCallResult × AppState W)
      (f : Str → ToolCallResult × AppState W) (bound : ℕ)
      → KeptState bound refused
      → ((s : Str) → KeptState bound (f s))
      → KeptState bound (elim o [ none ↦ refused | some s ↦ f s ])
  args-Kept none refused f bound k h = k
  args-Kept (some s) refused f bound k h = h s

  module _ (args : Str → Option V) (state : AppState W) (v : IsValid state.pane_manager) where
    abbrev before : ℕ
    before = state.pane_manager.next_id

    unchanged : Kept before state.pane_manager
    unchanged = (v, omega arith)

    abbrev given_name : Option Str
    given_name = arg_str json pretty execute audit args (codes "name")

    pub handle_create_pane-Kept :
        before + 1 < 2 ^ 64
        → KeptState before (handle_create_pane json pretty execute audit args state)
    unfolding handle_create_pane
    handle_create_pane-Kept small =
        args-Kept (arg_str json pretty execute audit args (codes "command")) _
          (λ command. create_as json pretty execute audit command given_name state) before unchanged
          (λ command. create_as-Kept command given_name state v small)

    pub handle_send_keys-Kept :
        KeptState before (handle_send_keys json pretty execute audit args state)
    unfolding handle_send_keys
    handle_send_keys-Kept =
        args-Kept (arg_str json pretty execute audit args (codes "pane_id")) _ _ before unchanged
          (λ pane_id.
            args-Kept (arg_str json pretty execute audit args (codes "keys")) _ _ before unchanged
              (λ keys.
                unfold send_to in
                guarded-Kept (contains_pane state.pane_manager pane_id) _ _ before unchanged
                  (sent-Kept pane_id keys state before _ unchanged)))

    pub handle_capture_pane-Kept :
        KeptState before (handle_capture_pane json pretty execute audit args state)
    unfolding handle_capture_pane
    handle_capture_pane-Kept =
        args-Kept (arg_str json pretty execute audit args (codes "pane_id")) _ _ before unchanged
          (λ pane_id.
            unfold capture_of in
            guarded-Kept (contains_pane state.pane_manager pane_id) _ _ before unchanged
              (captured-Kept pane_id _ state before _ unchanged))

    pub handle_kill_pane-Kept :
        KeptState before (handle_kill_pane json pretty execute audit args state)
    unfolding handle_kill_pane
    handle_kill_pane-Kept =
        args-Kept (arg_str json pretty execute audit args (codes "pane_id")) _ _ before unchanged
          (λ pane_id.
            unfold kill_of in
            guarded-Kept (contains_pane state.pane_manager pane_id) _ _ before unchanged
              (killed-Kept pane_id state before _ unchanged))

    pub handle_list_panes-Kept :
        KeptState before (handle_list_panes json pretty execute audit state)
    unfolding handle_list_panes
    handle_list_panes-Kept =
        all_refreshed-Kept state.pane_manager before (list_windows execute state.tmux_session)
          unchanged
