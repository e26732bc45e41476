-- ===== src/Tmux/Server.antt =====
-- lib/mcp/tmux/tmux-mcp/src/main.rs: the tools by name, one request, and the loop over the requests.
pub mod Gated
pub mod Valid
use wrapix.Prelude.{Option, none, some, List, [], ◌∷◌, ◌++◌, is_empty, if◌then◌else◌}
use wrapix.Prelude.Text.{Str, codes, str_eq, trim}
use wrapix.Prelude.Exec.{Result, ok, err}
use wrapix.Tmux.Session.{Executor, kill_session}
use wrapix.Tmux.Protocol.{
  RequestId, JsonRpcRequest, ToolCallParams, ToolCallResult, tool_error, McpMethod, initialize,
  initialized, tools_list, tools_call, unknown, method_not_found, invalid_params, internal_error,
  tools_list_result, call_result, JsonRpcResponse, respond_success, respond_error, Json,
  handle_initialize, handle_initialized, validate_request, from_request, parse_request,
}
use wrapix.Tmux.Tools.{
  Audit, AppState, PaneJson, handle_create_pane, handle_send_keys, handle_capture_pane,
  handle_kill_pane, handle_list_panes,
}

module _ {V W : Type 0} (json : Json V) (pretty : List PaneJson → Str) (execute : Executor W)
    (audit : Audit W) where
  unfoldable pub handle_tool_call : ToolCallParams V → AppState W → ToolCallResult × AppState W
  unfolding handle_create_pane handle_send_keys handle_capture_pane handle_kill_pane
      handle_list_panes str_eq
  handle_tool_call params state =
      if str_eq params.name (codes "tmux_create_pane")
      then handle_create_pane json pretty execute audit params.arguments state
      else if str_eq params.name (codes "tmux_send_keys")
      then handle_send_keys json pretty execute audit params.arguments state
      else if str_eq params.name (codes "tmux_capture_pane")
      then handle_capture_pane json pretty execute audit params.arguments state
      else if str_eq params.name (codes "tmux_kill_pane")
      then handle_kill_pane json pretty execute audit params.arguments state
      else if str_eq params.name (codes "tmux_list_panes")
      then handle_list_panes json pretty execute audit state
      else (
        tool_error (
            codes "Unknown tool '"
            ++ params.name
            ++ codes "'. Available tools: "
            ++ codes "tmux_create_pane, tmux_send_keys, "
            ++ codes "tmux_capture_pane, tmux_kill_pane, tmux_list_panes"),
        state,
      )

  -- A request that passed validation.
  unfoldable pub dispatch :
      Option RequestId → McpMethod V → AppState W → Option JsonRpcResponse × AppState W
  unfolding handle_tool_call
  dispatch id initialize state =
      let (answer, h) = handle_initialize state.mcp_handler in
      (some (respond_success id answer), record state { mcp_handler = h })
  dispatch id initialized state =
      (none, record state { mcp_handler = handle_initialized state.mcp_handler })
  dispatch id tools_list state = (some (respond_success id tools_list_result), state)
  dispatch id (tools_call params) state =
      let (result, state') = handle_tool_call params state in
      (some (respond_success id (call_result result)), state')
  dispatch id (unknown name) state =
      (some (respond_error id method_not_found (codes "Unknown method: " ++ name)), state)

  unfoldable pub process_method :
      Option RequestId → Result Str (McpMethod V) → AppState W → Option JsonRpcResponse × AppState W
  unfolding dispatch validate_request
  process_method id (err e) state = (some (respond_error id invalid_params e), state)
  process_method id (ok method) state = elim (validate_request state.mcp_handler method) [
    | err e ↦ (some (respond_error id internal_error e), state)
    | ok _ ↦ dispatch id method state
  ]

  abbrev pub process_parsed :
      Result JsonRpcResponse (JsonRpcRequest V) → AppState W → Option JsonRpcResponse × AppState W
  process_parsed (err response) state = (some response, state)
  process_parsed (ok request) state = process_method request.id (from_request json request) state

  unfoldable pub process_request : Str → AppState W → Option JsonRpcResponse × AppState W
  unfolding parse_request from_request process_method
  process_request line state = process_parsed (parse_request json line) state

  abbrev pub respond : Option JsonRpcResponse → List JsonRpcResponse → List JsonRpcResponse
  respond none responses = responses
  respond (some response) responses = response ∷ responses

  -- The loop of `run_server` over the lines read before the shutdown, with the responses in order.
  unfoldable pub serve : List Str → AppState W → List JsonRpcResponse × AppState W
  unfolding process_request trim
  serve [] state = ([], state)
  serve (line ∷ rest) state =
      let (response, state') = process_request line state in
      let (responses, last) = serve rest state' in
      let skipped = serve rest state in
      if is_empty (trim line) then skipped else (respond response responses, last)

  -- When the loop has ended the state is dropped, and with it the session.
  abbrev pub drop : AppState W → AppState W
  drop state = record state { tmux_session = (kill_session execute state.tmux_session).1 }

  unfoldable pub run_server : List Str → AppState W → List JsonRpcResponse × AppState W
  unfolding serve kill_session
  run_server requests state = let (responses, last) = serve requests state in (responses, drop last)
