-- ===== src/Mcp/Server.antt =====
-- src/gateway/mcp.rs, `handle_message` and what it calls. How `serde_json` reads and prints a value is a
-- parameter.
pub mod Replies
pub mod Guarded
pub mod Coded
pub mod Provided
pub mod Valid
pub mod Tests
use mathlib.Core.Option
use serica.Prelude.{
  not, Option, none, some, List, [], ◌++◌, if◌then◌else◌, is_empty, Text, text, text_eq, trim,
}
use serica.Error.{Result, ok, err}
use serica.Config.{Config}
use serica.Ssrf.Fetch.{unwrap_or}
use serica.Gateway.{SearchResponse}
use serica.Metrics.{MetricsCollector}
use serica.Extract.Pipeline.{ExtractResponse, Store, Write, Env, Weather, Sent, run_extract}
use serica.Http.Handlers.{SearchEnv}
use serica.Json.{Json, null, fields, get, as_str}
use serica.Mcp.Tools.{search_args, tool_content, asked_version, initialize_result, tools_list}
use serica.Mcp.{
  JsonRpcErrorObject, Rpc, done, refused, jsonrpc_error, jsonrpc_error_with_data, SearchArgs,
  search_tool, extract_error, require, required, ◌>>=◌, ◌>>◌,
}

-- A request as `serde_json` reads it; an id that is null counts as none.
pub record JsonRpcRequest : Type 0 where
  pub jsonrpc : Text
  pub id : Option Json
  pub method : Text
  pub params : Option Json

-- `serde_json::from_str` of a line, with its error as it is printed.
pub data Parsed : Type 0 where
  request : JsonRpcRequest → Parsed
  malformed : Text → Parsed

-- `serde_json::to_string_pretty`, with its error as it is printed.
pub data Printed : Type 0 where
  printed : Text → Printed
  unprintable : Text → Printed

pub record JsonRpcResponse : Type 0 where
  pub jsonrpc : Text
  pub id : Json
  pub result : Option Json
  pub error : Option JsonRpcErrorObject

-- The response that every handler makes of its result or its error.
unfoldable pub respond : Json → Rpc Json → JsonRpcResponse
respond id (done result) = record {
  jsonrpc = text "2.0";
  id = id;
  result = some result;
  error = none;
}
respond id (refused e) = record { jsonrpc = text "2.0"; id = id; result = none; error = some e }

pub record McpEnv : Type 1 where
  pub parse : Text → Parsed
  pub search : SearchEnv
  pub extract : Env
  pub print_search : SearchResponse → Printed
  pub print_extract : ExtractResponse → Printed

-- A body, the metrics behind it, what is written to the cache, and the requests that are sent for an
-- extraction.
pub record Handled (D : Type 0) : Type 0 where
  pub body : Rpc Json
  pub metrics : MetricsCollector
  pub writes : List Write
  pub dials : List D

-- `tool_call_result`
unfoldable pub tool_call_result : Printed → Rpc Json
unfolding tool_content
tool_call_result (printed s) = done (tool_content s)
tool_call_result (unprintable e) =
    refused (jsonrpc_error 32603 (text "Serialization failed: " ++ e))

-- `serica_extract` up to the URL.
unfoldable pub url_argument : {U : Type 0} → (Text → Option U) → Option Text → Rpc U
unfolding trim
url_argument parse url = do
  raw ← required url (jsonrpc_error 32602 (text "Missing required 'url' parameter"))
  require (not (is_empty (trim raw))) (
      jsonrpc_error_with_data 32602 (text "Invalid 'url' parameter") (text "url")
        (text "must be a valid https:// URL"))
  required (parse (trim raw)) (
      jsonrpc_error_with_data 32602 (text "Invalid 'url' parameter") (text "url")
        (text "could not be parsed"))

module _ (env : McpEnv) (config : Config) (weather : Weather) (store : Store) where
  open env use {parse, search, extract, print_search, print_extract}

  -- A request of an extraction.
  abbrev pub Extracting : Type 0
  Extracting = Sent extract config

  -- `match run_extract(…) { … }`
  unfoldable pub extract_body : Result ExtractResponse → Rpc Json
  unfolding tool_call_result extract_error
  extract_body (ok response) = tool_call_result (print_extract response)
  extract_body (err e) = refused (extract_error e)

  unfoldable pub extracted : MetricsCollector → Rpc extract.U.Url → Handled Extracting
  unfolding extract_body
  extracted metrics (refused e) = record {
    body = refused e;
    metrics = metrics;
    writes = [];
    dials = [];
  }
  extracted metrics (done url) =
      let ran = run_extract extract config weather store url in
      record {
        body = extract_body ran.result;
        metrics = metrics;
        writes = ran.writes;
        dials = ran.dials;
      }

  -- `serica_extract`
  unfoldable pub extract_tool : MetricsCollector → Option Text → Handled Extracting
  unfolding extracted url_argument
  extract_tool metrics url = extracted metrics (url_argument extract.U.parse url)

  unfoldable pub search_body : Rpc SearchResponse → Rpc Json
  unfolding tool_call_result
  search_body (done response) = tool_call_result (print_search response)
  search_body (refused e) = refused e

  -- `serica_search`
  unfoldable pub searched : MetricsCollector → SearchArgs → Handled Extracting
  unfolding search_body
  searched metrics args =
      let ran = search_tool search config weather.elapsed_ms store metrics args in
      record {
        body = search_body ran.answer;
        metrics = ran.metrics;
        writes = ran.writes;
        dials = [];
      }

  unfoldable pub call_tool : MetricsCollector → Text → Option Json → Handled Extracting
  unfolding searched extract_tool search_args get as_str Option.bind
  call_tool metrics name none = record {
    body = refused (jsonrpc_error 32602 (text "Missing 'arguments' field"));
    metrics = metrics;
    writes = [];
    dials = [];
  }
  call_tool metrics name (some args) =
      if text_eq name (text "serica_search")
      then searched metrics (search_args args)
      else if text_eq name (text "serica_extract")
      then extract_tool metrics (Option.bind (get (text "url") args) as_str)
      else record {
        body = refused (jsonrpc_error 32601 (text "Method not found: " ++ name));
        metrics = metrics;
        writes = [];
        dials = [];
      }

  unfoldable pub handle_tools_call : MetricsCollector → Json → Handled Extracting
  unfolding call_tool get as_str Option.bind
  handle_tools_call metrics params =
      call_tool metrics (unwrap_or (Option.bind (get (text "name") params) as_str) [])
        (get (text "arguments") params)

  -- A body that has no effect.
  abbrev pub quiet : MetricsCollector → Rpc Json → Handled Extracting
  quiet metrics body = record { body = body; metrics = metrics; writes = []; dials = [] }

  -- The match on the method.
  unfoldable pub dispatch : MetricsCollector → JsonRpcRequest → Handled Extracting
  unfolding handle_tools_call initialize_result asked_version
  dispatch metrics r =
      if text_eq r.method (text "initialize")
      then quiet metrics (done (initialize_result (asked_version r.params)))
      else if text_eq r.method (text "tools/list")
      then quiet metrics (done tools_list)
      else if text_eq r.method (text "tools/call")
      then handle_tools_call metrics (unwrap_or r.params (fields []))
      else quiet metrics (refused (jsonrpc_error 32601 (text "Method not found: " ++ r.method)))

  -- What is sent back, if anything, the metrics behind it, what is written to the cache, and the
  -- requests that are sent for an extraction.
  pub record Outcome : Type 0 where
    pub response : Option (JsonRpcResponse)
    pub metrics : MetricsCollector
    pub writes : List Write
    pub dials : List Extracting

  abbrev pub silent : MetricsCollector → Outcome
  silent metrics = record { response = none; metrics = metrics; writes = []; dials = [] }

  -- `let id = request.id?`, and the response.
  unfoldable pub reply : MetricsCollector → JsonRpcRequest → Option Json → Outcome
  unfolding dispatch respond
  reply metrics r none = silent metrics
  reply metrics r (some id) =
      let handled = dispatch metrics r in
      record {
        response = some (respond id handled.body);
        metrics = handled.metrics;
        writes = handled.writes;
        dials = handled.dials;
      }

  unfoldable pub handle_parsed : MetricsCollector → Parsed → Outcome
  unfolding reply respond
  handle_parsed metrics (malformed e) = record {
    response = some (respond null (refused (jsonrpc_error 32700 (text "Parse error: " ++ e))));
    metrics = metrics;
    writes = [];
    dials = [];
  }
  handle_parsed metrics (request r) =
      if text_eq r.method (text "notifications/initialized")
      then silent metrics
      else reply metrics r r.id

  unfoldable pub handle_message : MetricsCollector → Text → Outcome
  unfolding handle_parsed
  handle_message metrics line = handle_parsed metrics (parse line)
