-- ===== src/Tmux/Server/Gated.antt =====
-- Before a client has sent `initialize`, the server of lib/mcp/tmux/tmux-mcp/src/main.rs does
-- nothing else.
use wrapix.Prelude.{
  ℕ, ◌≡◌, refl, false, Option, List, [], ◌∷◌, All, inl, inr, is_empty, Bool-cases, ap, ◌∙◌,
}
use wrapix.Prelude.Text.{Str, trim}
use wrapix.Prelude.Exec.{Result, ok, err}
use wrapix.Tmux.Session.{Executor, kill_session}
use wrapix.Tmux.Protocol.{
  RequestId, JsonRpcRequest, JsonRpcResponse, McpMethod, initialize, initialized, tools_list,
  tools_call, unknown, Json, from_request, parse_request,
}
use wrapix.Tmux.Tools.{Audit, AppState, PaneJson, new_state}
use wrapix.Tmux.Server.{process_method, process_parsed, process_request, serve, drop, run_server}

module _ {V W : Type 0} (json : Json V) (pretty : List PaneJson → Str) (execute : Executor W)
    (audit : Audit W) where
  -- A request that starts a session.
  abbrev OpensMethod : Result Str (McpMethod V) → Type 0
  OpensMethod (ok initialize) = Unit
  OpensMethod (ok initialized) = Unit
  OpensMethod _ = ⊥

  abbrev OpensParsed : Result JsonRpcResponse (JsonRpcRequest V) → Type 0
  OpensParsed (ok request) = OpensMethod (from_request json request)
  OpensParsed (err response) = ⊥

  abbrev pub Opens : Str → Type 0
  Opens line = OpensParsed (parse_request json line)

  idle_method :
      (id : Option RequestId) (method : Result Str (McpMethod V)) (state : AppState W)
      → state.mcp_handler.is_initialized ≡ false
      → ¬ OpensMethod method
      → (process_method json pretty execute audit id method state).1 ≡ state
  unfolding process_method
  idle_method id (err e) state closed h = refl
  idle_method id (ok initialize) state closed h = absurd (h tt)
  idle_method id (ok initialized) state closed h = absurd (h tt)
  idle_method id (ok tools_list) state closed h = rw closed refl
  idle_method id (ok (tools_call params)) state closed h = rw closed refl
  idle_method id (ok (unknown name)) state closed h = refl

  idle_parsed :
      (request : Result JsonRpcResponse (JsonRpcRequest V)) (state : AppState W)
      → state.mcp_handler.is_initialized ≡ false
      → ¬ OpensParsed request
      → (process_parsed json pretty execute audit request state).1 ≡ state
  idle_parsed (err response) state closed h = refl
  idle_parsed (ok request) state closed h =
      idle_method request.id (from_request json request) state closed h

  serve-idle :
      (requests : List Str) (state : AppState W)
      → state.mcp_handler.is_initialized ≡ false
      → All (λ line. ¬ Opens line) requests
      → (serve json pretty execute audit requests state).1 ≡ state
  unfolding serve
  serve-idle [] state closed h = refl
  serve-idle (line ∷ rest) state closed (first, h) = elim (Bool-cases (is_empty (trim line))) [
    | inl blank ↦ rw blank (serve-idle rest state closed h)
    | inr line_read ↦ rw line_read (
        ap (λ s. (serve json pretty execute audit rest s).1)
          (unfold process_request in idle_parsed (parse_request json line) state closed first)
        ∙ serve-idle rest state closed h)
  ]

  -- If none of the requests to a server that has just started is `initialize` or `initialized`, it
  -- changes nothing: no tool runs, nothing is said to tmux or written to the audit log.
  pub run_server-idle :
      (pid : ℕ) (world : W) (requests : List Str)
      → All (λ line. ¬ Opens line) requests
      → (run_server json pretty execute audit requests (new_state pid world)).1
        ≡ new_state pid world
  unfolding run_server kill_session
  run_server-idle pid world requests h =
      ap (λ s. drop json pretty execute audit s) (serve-idle requests (new_state pid world) refl h)
