-- ===== src/Mcp.antt =====
-- src/gateway/mcp.rs: the JSON-RPC messages, the version handshake, and the two tools.
pub mod Arguments
pub mod Tools
pub mod Server
pub mod Sharing
pub mod Counting
pub mod Wire
pub mod Stdio
mod Tests
use serica.Prelude.{
  ℕ, ◌+◌, ◌-◌, ◌%◌, ◌^◌, Bool, true, false, not, ◌&&◌, ◌||◌, Option, none, some, List, [], ◌∷◌,
  ◌++◌, ltb, leb, ◌==◌, if◌then◌else◌, length, is_empty, all, Text, text, trim,
}
use serica.Error.{
  AppError, invalid_query, service_unavailable, content_too_large, extract_timeout, Result, ok, err,
  to_string,
}
use serica.Config.{Config}
use serica.Ssrf.Fetch.{unwrap_or}
use serica.Gateway.{SearchRequest, SearchResponse, cache_key}
use serica.Engine.{
  SearchError, blocked, challenged, upstream, transport, parse_empty, parse_panicked, SearchOutcome,
  found, failed, supported_languages, ddg_region_for_language,
}
use serica.Metrics.{MetricsCollector}
use serica.Extract.Pipeline.{ExtractResponse, Store, Write, Env, Weather, run_extract}
use serica.Http.{is_code, is_some, join_comma, display}
use serica.Http.Handlers.{SearchEnv, Searched, conclude, read_cached, record_failure}

-- The error's code without its sign, which is always minus; and the `field` and `message` of its data.
pub record JsonRpcErrorObject : Type 0 where
  pub minus_code : ℕ
  pub message : Text
  pub data_of : Option (Text × Text)

abbrev pub jsonrpc_error : ℕ → Text → JsonRpcErrorObject
jsonrpc_error code message = record { minus_code = code; message = message; data_of = none }

abbrev pub jsonrpc_error_with_data : ℕ → Text → Text → Text → JsonRpcErrorObject
jsonrpc_error_with_data code message field reason = record {
  minus_code = code;
  message = message;
  data_of = some (field, reason);
}

-- The result of a response, or its error.
pub data Rpc {ℓ} (A : Type ℓ) : Type ℓ where
  done : A → Rpc A
  refused : JsonRpcErrorObject → Rpc A

infixl 5 ◌>>=◌ ◌>>◌
abbrev pub ◌>>=◌ {ℓ κ} : {A : Type ℓ} {B : Type κ} → Rpc A → (A → Rpc B) → Rpc B
done a >>= f = f a
refused e >>= f = refused e

abbrev pub ◌>>◌ {ℓ} : {B : Type ℓ} → Rpc (Unit {0}) → Rpc B → Rpc B
m >> k = m >>= λ _. k

abbrev pub require : Bool → JsonRpcErrorObject → Rpc (Unit {0})
require true e = done tt
require false e = refused e

abbrev pub required {ℓ} : {A : Type ℓ} → Option A → JsonRpcErrorObject → Rpc A
required none e = refused e
required (some a) e = done a

-- The arguments of `serica_search`, as `as_str` and `as_u64` read them; `none` where an argument is
-- missing or of another type.
pub record SearchArgs : Type 0 where
  pub query : Option Text
  pub page : Option ℕ
  pub safe_search : Option ℕ
  pub language : Option Text

-- `if let Some(ref lang) = language { … }`
unfoldable pub check_language : Option Text → Rpc (Unit {0})
unfolding ddg_region_for_language join_comma
check_language none = done tt
check_language (some lang) = do
  require (is_code lang) (
      jsonrpc_error_with_data 32602 (text "Invalid 'language' parameter") (text "language")
        (text "must be a 2-letter ISO 639-1 code"))
  require (is_some (ddg_region_for_language lang)) (
      jsonrpc_error_with_data 32602 (text "Unsupported 'language' parameter") (text "language") (
        text "unsupported language code '"
        ++ (lang ++ (text "'; supported: " ++ join_comma supported_languages))))

-- The arguments, up to the request; `as u32` and `as u8` keep the low bits.
unfoldable pub search_request : SearchArgs → Rpc SearchRequest
unfolding check_language trim
search_request args = do
  raw ← required args.query (jsonrpc_error 32602 (text "Missing required 'query' parameter"))
  let query = trim raw
  require (not (is_empty query || ltb 500 (length query))) (
      jsonrpc_error_with_data 32602 (text "Invalid 'query' parameter") (text "query")
        (text "must be 1-500 characters"))
  let page = unwrap_or args.page 1 % 2 ^ 32
  require (leb 1 page && leb page 50) (
      jsonrpc_error_with_data 32602 (text "Invalid 'page' parameter") (text "page")
        (text "must be between 1 and 50"))
  let safe_search = unwrap_or args.safe_search 1 % 2 ^ 8
  require (leb safe_search 2) (
      jsonrpc_error_with_data 32602 (text "Invalid 'safe_search' parameter") (text "safe_search")
        (text "must be 0, 1, or 2"))
  check_language args.language
  done (record { query = query; page = page; safe_search = safe_search; language = args.language })

-- The error of each failure, but for the one that counts as no results.
unfoldable pub search_error : (ℕ → Text) → SearchError → Option JsonRpcErrorObject
search_error show parse_empty = none
search_error show blocked =
    some (jsonrpc_error 32000 (text "Search engine is currently blocked upstream"))
search_error show challenged =
    some (jsonrpc_error 32000 (text "Search engine is presenting an anti-bot challenge upstream"))
search_error show (upstream status) = some (jsonrpc_error 32000 (display show (upstream status)))
search_error show (transport e) = some (jsonrpc_error 32000 (display show (transport e)))
search_error show parse_panicked = some (jsonrpc_error 32603 (display show parse_panicked))

-- The answer of `serica_search`, the metrics behind it, and what is written to the cache.
pub record ToolRan : Type 0 where
  pub answer : Rpc SearchResponse
  pub metrics : MetricsCollector
  pub writes : List Write

-- What `conclude` gives is never an error, so that the second clause is not reached.
abbrev pub to_rpc : Result SearchResponse → JsonRpcErrorObject → Rpc SearchResponse
to_rpc (ok response) e = done response
to_rpc (err _) e = refused e

module _ (env : SearchEnv) (config : Config) (elapsed_ms : ℕ) where
  open env use {printer, hasher, engine}

  -- The tail that is the same as the HTTP gateway's: finalize, count, cache.
  abbrev pub concluded : Searched → ToolRan
  concluded searched = record {
    answer = to_rpc searched.result (jsonrpc_error 32603 []);
    metrics = searched.metrics;
    writes = searched.writes;
  }

  unfoldable pub fail : SearchRequest → MetricsCollector → Option JsonRpcErrorObject → ToolRan
  unfolding conclude
  fail request metrics none = concluded (conclude env config elapsed_ms request metrics [])
  fail request metrics (some e) = record { answer = refused e; metrics = metrics; writes = [] }

  unfoldable pub answer_of : SearchRequest → MetricsCollector → SearchOutcome → ToolRan
  unfolding fail record_failure
  answer_of request metrics (found results) =
      concluded (conclude env config elapsed_ms request metrics results)
  answer_of request metrics (failed e) =
      fail request (record_failure e metrics) (search_error printer.show e)

  unfoldable pub cached_or : SearchRequest → MetricsCollector → Option SearchResponse → ToolRan
  unfolding answer_of
  cached_or request metrics (some response) = record {
    answer = done (record response { cached = true; timing_ms = elapsed_ms });
    metrics = metrics;
    writes = [];
  }
  cached_or request metrics none =
      answer_of request metrics
        (engine request.query request.page request.language request.safe_search)

  unfoldable pub run_request : Store → MetricsCollector → Rpc SearchRequest → ToolRan
  unfolding cached_or
  run_request store metrics (refused e) = record {
    answer = refused e;
    metrics = metrics;
    writes = [];
  }
  run_request store metrics (done request) =
      cached_or request metrics (read_cached env config elapsed_ms store (cache_key hasher request))

  unfoldable pub search_tool : Store → MetricsCollector → SearchArgs → ToolRan
  unfolding run_request search_request
  search_tool store metrics args = run_request store metrics (search_request args)

-- The error of each failed extraction.
unfoldable pub extract_error : AppError → JsonRpcErrorObject
unfolding to_string
extract_error (invalid_query msg) =
    jsonrpc_error_with_data 32602 (text "Invalid 'url' parameter: " ++ msg) (text "url") msg
extract_error (service_unavailable msg) = jsonrpc_error 32000 msg
extract_error (content_too_large msg) = jsonrpc_error 32000 msg
extract_error (extract_timeout msg) = jsonrpc_error 32000 msg
extract_error e = jsonrpc_error 32000 (text "Failed to prepare request: " ++ to_string e)

-- `looks_like_protocol_version`, on bytes: `YYYY-MM-DD` in digits.
abbrev pub is_ascii_digit : ℕ → Bool
is_ascii_digit c = leb b'0' c && leb c b'9'

unfoldable pub looks_like_protocol_version : List ℕ → Bool
looks_like_protocol_version (y0 ∷ y1 ∷ y2 ∷ y3 ∷ d0 ∷ m0 ∷ m1 ∷ d1 ∷ n0 ∷ n1 ∷ []) =
    d0 == b'-' && d1 == b'-' && all is_ascii_digit (y0 ∷ y1 ∷ y2 ∷ y3 ∷ m0 ∷ m1 ∷ n0 ∷ n1 ∷ [])
looks_like_protocol_version _ = false

abbrev pub supported_protocol_version : List ℕ
supported_protocol_version = text "2025-06-18"

-- The `protocolVersion` of `handle_initialize`, for the one that the client asks for.
unfoldable pub protocol_version : Option (List ℕ) → List ℕ
unfolding looks_like_protocol_version
protocol_version none = supported_protocol_version
protocol_version (some v) = if looks_like_protocol_version v then v else supported_protocol_version
