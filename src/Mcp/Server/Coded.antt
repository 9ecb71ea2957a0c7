-- ===== src/Mcp/Server/Coded.antt =====
-- The error codes of the tools of src/gateway/mcp.rs, and those that JSON-RPC 2.0 reserves.
use serica.Prelude.{
  ℕ, ◌%◌, ◌^◌, ◌≤◌, ◌≡◌, refl, ◌==◌, inl, inr, Bool, true, false, Option, none, some, List, [], ◌∷◌,
  arith, any, Option-cases, Text, trim,
}
use serica.Error.{AppError, invalid_query, Result, ok, err}
use serica.Config.{Config}
use serica.Gateway.{SearchRequest, SearchResponse}
use serica.Engine.{SearchError, parse_empty, SearchOutcome, found, failed, ddg_region_for_language}
use serica.Metrics.{MetricsCollector}
use serica.Extract.Pipeline.{ExtractResponse, Store, Weather}
use serica.Ssrf.Fetch.{unwrap_or}
use serica.Http.{is_code, is_some}
use serica.Http.Handlers.{SearchEnv, conclude}
use serica.Mcp.{
  JsonRpcErrorObject, Rpc, done, refused, SearchArgs, require, required, ◌>>=◌, ◌>>◌,
  check_language, search_request, search_error, extract_error, concluded, fail, answer_of,
  cached_or, run_request, search_tool,
}
use serica.Mcp.Server.{
  Printed, printed, unprintable, McpEnv, tool_call_result, url_argument, extract_body, extracted,
  extract_tool, search_body, searched,
}

-- From -32768 to -32000.
abbrev pub IsReserved : JsonRpcErrorObject → Type 0
IsReserved e = (32000 ≤ e.minus_code) × (e.minus_code ≤ 32768)

-- The codes of the tools: their arguments, what is inside, and what is behind them.
abbrev tool_codes : List ℕ
tool_codes = 32602 ∷ 32603 ∷ 32000 ∷ []

abbrev pub IsOfTool : JsonRpcErrorObject → Type 0
IsOfTool e = any (λ code. e.minus_code == code) tool_codes ≡ true

-- An error has this property.
abbrev pub Refused {ℓ} : (JsonRpcErrorObject → Type 0) → {A : Type ℓ} → Rpc A → Type 0
Refused P (done a) = Unit
Refused P (refused e) = P e

abbrev pub AreReserved {ℓ} : {A : Type ℓ} → Rpc A → Type 0
AreReserved = Refused IsReserved

abbrev pub AreOfTool {ℓ} : {A : Type ℓ} → Rpc A → Type 0
AreOfTool = Refused IsOfTool

tool_code-IsReserved : (e : JsonRpcErrorObject) → IsOfTool e → IsReserved e
tool_code-IsReserved e h = ground arith

pub AreOfTool-AreReserved {ℓ} : {A : Type ℓ} (r : Rpc A) → AreOfTool r → AreReserved r
AreOfTool-AreReserved (done a) h = tt
AreOfTool-AreReserved (refused e) h = tool_code-IsReserved e h

>>=-AreOfTool {ℓ κ} :
    {A : Type ℓ} {B : Type κ} (r : Rpc A) (f : A → Rpc B)
    → AreOfTool r
    → ((a : A) → AreOfTool (f a))
    → AreOfTool (r >>= f)
>>=-AreOfTool (done a) f h k = k a
>>=-AreOfTool (refused e) f h k = h

require-AreOfTool : (b : Bool) (e : JsonRpcErrorObject) → IsOfTool e → AreOfTool (require b e)
require-AreOfTool true e h = tt
require-AreOfTool false e h = h

required-AreOfTool {ℓ} :
    {A : Type ℓ} (o : Option A) (e : JsonRpcErrorObject) → IsOfTool e → AreOfTool (required o e)
required-AreOfTool none e h = h
required-AreOfTool (some a) e h = tt

check_language-AreOfTool : (language : Option Text) → AreOfTool (check_language language)
unfolding check_language
check_language-AreOfTool none = tt
check_language-AreOfTool (some lang) =
    >>=-AreOfTool (require (is_code lang) _) _ (require-AreOfTool (is_code lang) _ refl)
      (λ _. require-AreOfTool (is_some (ddg_region_for_language lang)) _ refl)

tail-AreOfTool :
    (language : Option Text) (request : SearchRequest)
    → AreOfTool (check_language language >> done request)
tail-AreOfTool language request =
    >>=-AreOfTool (check_language language) _ (check_language-AreOfTool language) (λ _. tt)

search_request-AreOfTool : (args : SearchArgs) → AreOfTool (search_request args)
unfolding search_request
search_request-AreOfTool args = elim (Option-cases args.query) [
  | inl e ↦ rw e refl
  | inr (raw, e) ↦ rw e (
      ground (
        arith,
        tail-AreOfTool args.language (record {
          query = trim raw;
          page = unwrap_or args.page 1 % 2 ^ 32;
          safe_search = unwrap_or args.safe_search 1 % 2 ^ 8;
          language = args.language;
        }),
      ))
]

extract_error-IsOfTool : (e : AppError) → IsOfTool (extract_error e)
unfolding extract_error
extract_error-IsOfTool (invalid_query msg) = refl
extract_error-IsOfTool _ = refl

module _ (env : SearchEnv) (config : Config) (elapsed_ms : ℕ) where
  concluded-AreOfTool :
      (request : SearchRequest) (metrics : MetricsCollector) (results : _)
      → AreOfTool
          (concluded env config elapsed_ms
            (conclude env config elapsed_ms request metrics results)).answer
  unfolding conclude
  concluded-AreOfTool request metrics results = tt

  fail-AreOfTool :
      (request : SearchRequest) (metrics : MetricsCollector) (show : ℕ → Text) (e : SearchError)
      → AreOfTool (fail env config elapsed_ms request metrics (search_error show e)).answer
  unfolding fail search_error
  fail-AreOfTool request metrics show parse_empty = concluded-AreOfTool request metrics []
  fail-AreOfTool request metrics show _ = refl

  answer_of-AreOfTool :
      (request : SearchRequest) (metrics : MetricsCollector) (o : SearchOutcome)
      → AreOfTool (answer_of env config elapsed_ms request metrics o).answer
  unfolding answer_of
  answer_of-AreOfTool request metrics (found results) = concluded-AreOfTool request metrics results
  answer_of-AreOfTool request metrics (failed e) = fail-AreOfTool request _ env.printer.show e

  cached_or-AreOfTool :
      (request : SearchRequest) (metrics : MetricsCollector) (c : Option SearchResponse)
      → AreOfTool (cached_or env config elapsed_ms request metrics c).answer
  unfolding cached_or
  cached_or-AreOfTool request metrics (some response) = tt
  cached_or-AreOfTool request metrics none = answer_of-AreOfTool request metrics _

  run_request-AreOfTool :
      (store : Store) (metrics : MetricsCollector) (r : Rpc SearchRequest)
      → AreOfTool r
      → AreOfTool (run_request env config elapsed_ms store metrics r).answer
  unfolding run_request
  run_request-AreOfTool store metrics (refused e) h = h
  run_request-AreOfTool store metrics (done request) h = cached_or-AreOfTool request metrics _

  search_tool-AreOfTool :
      (store : Store) (metrics : MetricsCollector) (args : SearchArgs)
      → AreOfTool (search_tool env config elapsed_ms store metrics args).answer
  unfolding search_tool
  search_tool-AreOfTool store metrics args =
      run_request-AreOfTool store metrics _ (search_request-AreOfTool args)

tool_call_result-AreOfTool : (p : Printed) → AreOfTool (tool_call_result p)
unfolding tool_call_result
tool_call_result-AreOfTool (printed s) = tt
tool_call_result-AreOfTool (unprintable e) = refl

url_argument-AreOfTool :
    {U : Type 0} (parse : Text → Option U) (url : Option Text) → AreOfTool (url_argument parse url)
unfolding url_argument
url_argument-AreOfTool parse url =
    >>=-AreOfTool (required url _) _ (required-AreOfTool url _ refl) (λ raw.
      >>=-AreOfTool (require _ _) _ (require-AreOfTool _ _ refl)
        (λ _. required-AreOfTool (parse (trim raw)) _ refl))

module _ (env : McpEnv) (config : Config) (weather : Weather) (store : Store) where
  open env use {search, extract, print_search, print_extract}

  extract_body-AreOfTool :
      (r : Result ExtractResponse) → AreOfTool (extract_body env config weather store r)
  unfolding extract_body
  extract_body-AreOfTool (ok response) = tool_call_result-AreOfTool (print_extract response)
  extract_body-AreOfTool (err e) = extract_error-IsOfTool e

  extracted-AreOfTool :
      (metrics : MetricsCollector) (url : Rpc extract.U.Url)
      → AreOfTool url
      → AreOfTool (extracted env config weather store metrics url).body
  unfolding extracted
  extracted-AreOfTool metrics (refused e) h = h
  extracted-AreOfTool metrics (done url) h = extract_body-AreOfTool _

  search_body-AreOfTool :
      (r : Rpc SearchResponse) → AreOfTool r → AreOfTool (search_body env config weather store r)
  unfolding search_body
  search_body-AreOfTool (done response) h = tool_call_result-AreOfTool (print_search response)
  search_body-AreOfTool (refused e) h = h

  pub searched-AreOfTool :
      (metrics : MetricsCollector) (args : SearchArgs)
      → AreOfTool (searched env config weather store metrics args).body
  unfolding searched
  searched-AreOfTool metrics args =
      search_body-AreOfTool _
        (search_tool-AreOfTool search config weather.elapsed_ms store metrics args)

  pub extract_tool-AreOfTool :
      (metrics : MetricsCollector) (url : Option Text)
      → AreOfTool (extract_tool env config weather store metrics url).body
  unfolding extract_tool
  extract_tool-AreOfTool metrics url =
      extracted-AreOfTool metrics _ (url_argument-AreOfTool extract.U.parse url)
