-- ===== src/Tmux/Server/Valid.antt =====
-- Whatever requests come, the panes of the server of lib/mcp/tmux/tmux-mcp/src/main.rs stay
-- consistent.
use wrapix.Prelude.{
  ℕ, ◌+◌, ◌^◌, ◌<◌, ◌≡◌, Bool, true, false, Option, List, [], ◌∷◌, length, is_empty, refl, inl, inr,
  Bool-cases, if◌then◌else◌, arith,
}
use wrapix.Prelude.Text.{Str, codes, str_eq, trim}
use wrapix.Prelude.Exec.{Result, ok, err}
use wrapix.Tmux.Panes.Ids.{IsValid}
use wrapix.Tmux.Session.{Executor}
use wrapix.Tmux.Protocol.{
  RequestId, JsonRpcRequest, JsonRpcResponse, McpMethod, ToolCallParams, ToolCallResult, initialize,
  initialized, tools_list, tools_call, unknown, Json, validate_request, from_request, parse_request,
}
use wrapix.Tmux.Tools.{Audit, AppState, PaneJson}
use wrapix.Tmux.Tools.Keeps.{
  Kept, KeptState, handle_create_pane-Kept, handle_send_keys-Kept, handle_capture_pane-Kept,
  handle_kill_pane-Kept, handle_list_panes-Kept,
}
use wrapix.Tmux.Server.{
  handle_tool_call, dispatch, process_method, process_parsed, process_request, serve, run_server,
}

module _ {V W : Type 0} (json : Json V) (pretty : List PaneJson → Str) (execute : Executor W)
    (audit : Audit W) where
  Kept-if :
      (bound : ℕ) (b : Bool) (x y : ToolCallResult × AppState W)
      → KeptState json pretty execute audit bound x
      → KeptState json pretty execute audit bound y
      → KeptState json pretty execute audit bound (if b then x else y)
  Kept-if bound true x y hx hy = hx
  Kept-if bound false x y hx hy = hy

  module _ (state : AppState W) (v : IsValid state.pane_manager)
      (small : state.pane_manager.next_id + 1 < 2 ^ 64) where
    abbrev bound : ℕ
    bound = state.pane_manager.next_id

    abbrev unchanged : Kept bound state.pane_manager
    unchanged = (v, omega arith)

    handle_tool_call-Kept :
        (params : ToolCallParams V)
        → KeptState json pretty execute audit bound
            (handle_tool_call json pretty execute audit params state)
    unfolding handle_tool_call
    handle_tool_call-Kept params =
        let args = params.arguments in
        Kept-if bound (str_eq params.name (codes "tmux_create_pane")) _ _
          (handle_create_pane-Kept json pretty execute audit args state v small)
          (Kept-if bound (str_eq params.name (codes "tmux_send_keys")) _ _
            (handle_send_keys-Kept json pretty execute audit args state v)
            (Kept-if bound (str_eq params.name (codes "tmux_capture_pane")) _ _
              (handle_capture_pane-Kept json pretty execute audit args state v)
              (Kept-if bound (str_eq params.name (codes "tmux_kill_pane")) _ _
                (handle_kill_pane-Kept json pretty execute audit args state v)
                (Kept-if bound (str_eq params.name (codes "tmux_list_panes")) _ _
                  (handle_list_panes-Kept json pretty execute audit args state v) unchanged))))

    dispatch-Kept :
        (id : Option RequestId) (method : McpMethod V)
        → Kept bound (dispatch json pretty execute audit id method state).1.pane_manager
    unfolding dispatch
    dispatch-Kept id initialize = unchanged
    dispatch-Kept id initialized = unchanged
    dispatch-Kept id tools_list = unchanged
    dispatch-Kept id (tools_call params) = handle_tool_call-Kept params
    dispatch-Kept id (unknown name) = unchanged

    validated-Kept :
        (id : Option RequestId) (method : McpMethod V) (r : Result Str (Unit {0}))
        → validate_request state.mcp_handler method ≡ r
        → Kept bound (process_method json pretty execute audit id (ok method) state).1.pane_manager
    unfolding process_method
    validated-Kept id method (ok _) e = rw (e, process_method) (dispatch-Kept id method)
    validated-Kept id method (err x) e = rw (e, process_method) unchanged

    parsed-Kept :
        (request : Result JsonRpcResponse (JsonRpcRequest V))
        → Kept bound (process_parsed json pretty execute audit request state).1.pane_manager
    parsed-Kept (err response) = unchanged
    parsed-Kept (ok request) = method-Kept request.id (from_request json request)
      where
        method-Kept :
            (id : Option RequestId) (method : Result Str (McpMethod V))
            → Kept bound (process_method json pretty execute audit id method state).1.pane_manager
        method-Kept id (err e) = unfold process_method in unchanged
        method-Kept id (ok method) = validated-Kept id method _ refl

  request-Kept :
      (line : Str) (state : AppState W)
      → IsValid state.pane_manager
      → state.pane_manager.next_id + 1 < 2 ^ 64
      → Kept state.pane_manager.next_id
          (process_request json pretty execute audit line state).1.pane_manager
  unfolding process_request
  request-Kept line state v small = parsed-Kept state v small (parse_request json line)

  serve-IsValid :
      (requests : List Str) (state : AppState W)
      → IsValid state.pane_manager
      → state.pane_manager.next_id + length requests < 2 ^ 64
      → IsValid (serve json pretty execute audit requests state).1.pane_manager
  unfolding serve
  serve-IsValid [] state v small = v
  serve-IsValid (line ∷ rest) state v small = elim (Bool-cases (is_empty (trim line))) [
    | inl blank ↦ rw blank (serve-IsValid rest state v (omega arith))
    | inr line_read ↦ rw line_read (
        let k = request-Kept line state v (omega arith) in
        serve-IsValid rest (process_request json pretty execute audit line state).1 k.0
          (omega (arith, k.1)))
  ]

  -- From consistent panes, while the counter of the ids does not reach the end of a u64: whatever
  -- requests come, and whatever tmux answers to the calls that they lead to, the panes stay
  -- consistent, that is, each is listed under its own id, no id is listed twice, and each was handed
  -- out by the counter.
  pub run_server-IsValid :
      (requests : List Str) (state : AppState W)
      → IsValid state.pane_manager
      → state.pane_manager.next_id + length requests < 2 ^ 64
      → IsValid (run_server json pretty execute audit requests state).1.pane_manager
  unfolding run_server
  run_server-IsValid requests state v small = serve-IsValid requests state v small
