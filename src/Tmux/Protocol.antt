-- ===== src/Tmux/Protocol.antt =====
-- lib/mcp/tmux/tmux-mcp/src/mcp.rs: the requests of the protocol, and in which state the server
-- takes them. JSON is a parameter: a value is of a type that the JSON library gives.
use wrapix.Prelude.{
  ℕ, Bool, true, false, ◌||◌, Option, none, some, List, [], ◌∷◌, ◌++◌, if◌then◌else◌,
}
use wrapix.Prelude.Text.{Str, codes, str_eq}
use wrapix.Prelude.Int.{ℤ}
use wrapix.Prelude.Exec.{Result, ok, err}

pub data RequestId : Type 0 where
  number : ℤ → RequestId  -- i64
  string : Str → RequestId

pub record JsonRpcRequest (V : Type 0) : Type 0 where
  pub jsonrpc : Str
  pub id : Option RequestId
  pub method : Str
  pub params : Option V

pub record ToolCallParams (V : Type 0) : Type 0 where
  pub name : Str
  pub arguments : Str → Option V

pub record TextContent : Type 0 where
  pub content_type : Str
  pub text : Str

abbrev pub new_text : Str → TextContent
new_text text = record { content_type = codes "text"; text = text }

pub record ToolCallResult : Type 0 where
  pub content : List TextContent
  pub is_error : Bool

abbrev pub tool_success : Str → ToolCallResult
tool_success text = record { content = new_text text ∷ []; is_error = false }

abbrev pub tool_error : Str → ToolCallResult
tool_error text = record { content = new_text text ∷ []; is_error = true }

pub data McpMethod (V : Type 0) : Type 0 where
  initialize initialized tools_list : McpMethod V
  tools_call : ToolCallParams V → McpMethod V
  unknown : Str → McpMethod V

-- The error codes, negated.
pub data ErrorCode : Type 0 where
  minus : ℕ → ErrorCode

abbrev pub parse_error : ErrorCode
parse_error = minus 32700

abbrev pub method_not_found : ErrorCode
method_not_found = minus 32601

abbrev pub invalid_params : ErrorCode
invalid_params = minus 32602

abbrev pub internal_error : ErrorCode
internal_error = minus 32603

pub record JsonRpcError : Type 0 where
  pub code : ErrorCode
  pub message : Str

-- The values that the server answers with, before they are made JSON. The tools' definitions are
-- constants.
pub data Answer : Type 0 where
  initialize_result tools_list_result : Answer
  call_result : ToolCallResult → Answer

pub record JsonRpcResponse : Type 0 where
  pub jsonrpc : Str
  pub id : Option RequestId
  pub result : Option Answer
  pub error : Option JsonRpcError

abbrev pub respond_success : Option RequestId → Answer → JsonRpcResponse
respond_success id value = record {
  jsonrpc = codes "2.0";
  id = id;
  result = some value;
  error = none;
}

abbrev pub respond_error : Option RequestId → ErrorCode → Str → JsonRpcResponse
respond_error id code message = record {
  jsonrpc = codes "2.0";
  id = id;
  result = none;
  error = some (record { code = code; message = message });
}

-- What the server uses of the JSON library: `serde_json::from_str` of a request and `from_value` of
-- a tool call, each with the display of its error, `as_str` and `as_i64`.
pub record Json (V : Type 0) : Type 0 where
  pub request_of : Str → Result Str (JsonRpcRequest V)
  pub tool_call_of : V → Result Str (ToolCallParams V)
  pub as_str : V → Option Str
  pub as_i64 : V → Option ℤ

pub record McpHandler : Type 0 where
  pub is_initialized : Bool

abbrev pub new_handler : McpHandler
new_handler = record { is_initialized = false }

abbrev pub handle_initialize : McpHandler → Answer × McpHandler
handle_initialize h = (initialize_result, record { is_initialized = true })

abbrev pub handle_initialized : McpHandler → McpHandler
handle_initialized h = record { is_initialized = true }

abbrev if_initialized : Bool → Result Str (Unit {0})
if_initialized true = ok tt
if_initialized false = err (codes "Server not initialized. Send 'initialize' first.")

module _ {V : Type 0} where
  unfoldable pub validate_request : McpHandler → McpMethod V → Result Str (Unit {0})
  validate_request h initialize = ok tt
  validate_request h initialized = ok tt
  validate_request h tools_list = if_initialized h.is_initialized
  validate_request h (tools_call _) = if_initialized h.is_initialized
  validate_request h (unknown _) = ok tt

  module _ (json : Json V) where
    abbrev checked_call : Result Str (ToolCallParams V) → Result Str (McpMethod V)
    checked_call (ok params) = ok (tools_call params)
    checked_call (err e) = err (codes "Invalid tool call params: " ++ e)

    abbrev call_of : Option V → Result Str (McpMethod V)
    call_of none = err (codes "tools/call requires params")
    call_of (some params) = checked_call (json.tool_call_of params)

    unfoldable pub from_request : JsonRpcRequest V → Result Str (McpMethod V)
    unfolding str_eq
    from_request request =
        if str_eq request.method (codes "initialize")
        then ok initialize
        else if str_eq request.method (codes "notifications/initialized")
            || str_eq request.method (codes "initialized")
        then ok initialized
        else if str_eq request.method (codes "tools/list")
        then ok tools_list
        else if str_eq request.method (codes "tools/call")
        then call_of request.params
        else ok (unknown request.method)

    abbrev pub parsed : Result Str (JsonRpcRequest V) → Result JsonRpcResponse (JsonRpcRequest V)
    parsed (ok request) = ok request
    parsed (err e) = err (respond_error none parse_error (codes "Parse error: " ++ e))

    unfoldable pub parse_request : Str → Result JsonRpcResponse (JsonRpcRequest V)
    parse_request line = parsed (json.request_of line)
