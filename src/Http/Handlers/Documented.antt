-- ===== src/Http/Handlers/Documented.antt =====
-- The error codes that the handlers of src/gateway/http.rs answer with, beside those of README.md.
use mathlib.Core.Option
use serica.Prelude.{
  ℕ, ◌≡◌, inl, inr, true, not, Option, none, some, List, [], ◌∷◌, arith, Bool-cases, is_empty, Text,
  text, trim,
}
use serica.Error.{AppError, rate_limited, service_unavailable, Result, ok, err, ◌>>◌, guard}
use serica.Error.Documented.{
  is_documented, FailsOfRequest, >>=-FailsOfRequest, guard-FailsOfRequest, ok_or-FailsOfRequest,
  Result-is_documented, request-is_documented,
}
use serica.Config.{Config}
use serica.Fetch.{Unicode, Printer}
use serica.Ssrf.Url.{UrlLib}
use serica.Ssrf.Fetch.{unwrap_or}
use serica.Gateway.{SearchRequest, SearchResponse, SearchResult}
use serica.Engine.{
  blocked, challenged, upstream, transport, parse_empty, parse_panicked, SearchOutcome, found,
  failed, ddg_region_for_language,
}
use serica.Metrics.{MetricsCollector}
use serica.Extract.Pipeline.{Store, Env, Weather}
use serica.Extract.Pipeline.Failures.{run_extract-FailsOfRequest}
use serica.Http.{SearchParams, is_code, is_some, check_language, try_from_params, map_search_error}
use serica.Http.Key.{HeaderMap, extract_provided_key, constant_time_eq, match_key, check_api_key}
use serica.Http.Handlers.{
  SearchEnv, record_failure, conclude, fail, answer, cached_or, handle, search_handler,
  stats_handler, parse_target, run_parsed, extract_handler,
}

check_language-FailsOfRequest : (language : Option Text) → FailsOfRequest (check_language language)
unfolding check_language
check_language-FailsOfRequest none = tt
check_language-FailsOfRequest (some lang) =
    >>=-FailsOfRequest (guard (is_code lang) _) _ (guard-FailsOfRequest (is_code lang) _ tt)
      (λ _. guard-FailsOfRequest (is_some (ddg_region_for_language lang)) _ tt)

tail-FailsOfRequest :
    (language : Option Text) (request : SearchRequest)
    → FailsOfRequest (check_language language >> ok request)
tail-FailsOfRequest language request =
    >>=-FailsOfRequest (check_language language) _ (check_language-FailsOfRequest language)
      (λ _. tt)

try_from_params-FailsOfRequest :
    (unicode : Unicode) (printer : Printer) (params : SearchParams) (level : ℕ)
    → FailsOfRequest (try_from_params unicode printer params level)
unfolding try_from_params
try_from_params-FailsOfRequest unicode printer params level =
    let language = Option.map (λ l. unicode.to_lowercase (trim l)) params.lang in
    ground (
      arith,
      tail-FailsOfRequest language (record {
        query = trim (unwrap_or params.q []);
        page = unwrap_or params.page 1;
        safe_search = unwrap_or params.safe level;
        language = language;
      }),
    )

module _ (env : SearchEnv) (config : Config) (elapsed_ms : ℕ) where
  open env use {unicode, printer, hasher}

  conclude-FailsOfRequest :
      (request : SearchRequest) (metrics : MetricsCollector) (results : List SearchResult)
      → FailsOfRequest (conclude env config elapsed_ms request metrics results).result
  unfolding conclude
  conclude-FailsOfRequest request metrics results = tt

  answer-FailsOfRequest :
      (request : SearchRequest) (metrics : MetricsCollector) (o : SearchOutcome)
      → FailsOfRequest (answer env config elapsed_ms request metrics o).result
  unfolding answer fail map_search_error
  answer-FailsOfRequest request metrics (found results) =
      conclude-FailsOfRequest request metrics results
  answer-FailsOfRequest request metrics (failed parse_empty) =
      conclude-FailsOfRequest request (record_failure parse_empty metrics) []
  answer-FailsOfRequest request metrics (failed blocked) = tt
  answer-FailsOfRequest request metrics (failed challenged) = tt
  answer-FailsOfRequest request metrics (failed (upstream status)) = tt
  answer-FailsOfRequest request metrics (failed (transport e)) = tt
  answer-FailsOfRequest request metrics (failed parse_panicked) = tt

  cached_or-FailsOfRequest :
      (request : SearchRequest) (metrics : MetricsCollector) (c : Option SearchResponse)
      → FailsOfRequest (cached_or env config elapsed_ms request metrics c).result
  unfolding cached_or
  cached_or-FailsOfRequest request metrics (some response) = tt
  cached_or-FailsOfRequest request metrics none = answer-FailsOfRequest request metrics _

  handle-FailsOfRequest :
      (store : Store) (metrics : MetricsCollector) (r : Result SearchRequest)
      → FailsOfRequest r
      → FailsOfRequest (handle env config elapsed_ms store metrics r).result
  unfolding handle
  handle-FailsOfRequest store metrics (err e) h = h
  handle-FailsOfRequest store metrics (ok request) h = cached_or-FailsOfRequest request metrics _

  search-FailsOfRequest :
      (store : Store) (metrics : MetricsCollector) (params : SearchParams)
      → FailsOfRequest (search_handler env config elapsed_ms store metrics params).result
  unfolding search_handler
  search-FailsOfRequest store metrics params =
      handle-FailsOfRequest store metrics _
        (try_from_params-FailsOfRequest unicode printer params config.search.safe_search_default)

parse_target-FailsOfRequest : (U : UrlLib) (raw : Text) → FailsOfRequest (parse_target U raw)
unfolding parse_target
parse_target-FailsOfRequest U raw =
    >>=-FailsOfRequest (guard (not (is_empty (trim raw))) _) _
      (guard-FailsOfRequest (not (is_empty (trim raw))) _ tt)
      (λ _. ok_or-FailsOfRequest (U.parse (trim raw)) _ tt)

module _ (env : Env) (config : Config) (weather : Weather) (store : Store) where
  parsed-FailsOfRequest :
      (url : Result env.U.Url)
      → FailsOfRequest url
      → FailsOfRequest (run_parsed env config weather store url).result
  parsed-FailsOfRequest (err e) h = h
  parsed-FailsOfRequest (ok url) h = run_extract-FailsOfRequest env config weather store url

  extract-FailsOfRequest :
      (raw : Text) → FailsOfRequest (extract_handler env config weather store raw).result
  unfolding extract_handler
  extract-FailsOfRequest raw =
      parsed-FailsOfRequest (parse_target env.U raw) (parse_target-FailsOfRequest env.U raw)

match_key-FailsOfRequest :
    (configured : List ℕ) (provided : Option (List ℕ))
    → FailsOfRequest (match_key configured provided)
unfolding match_key
match_key-FailsOfRequest configured none = tt
match_key-FailsOfRequest configured (some provided) =
    elim (Bool-cases (constant_time_eq provided configured)) [ inl e ↦ rw e tt | inr e ↦ rw e tt ]

check_api_key-FailsOfRequest :
    (api_key : Option (List ℕ)) (headers : HeaderMap)
    → FailsOfRequest (check_api_key api_key headers)
unfolding check_api_key
check_api_key-FailsOfRequest none headers = tt
check_api_key-FailsOfRequest (some []) headers = tt
check_api_key-FailsOfRequest (some (c ∷ key)) headers =
    match_key-FailsOfRequest (c ∷ key) (extract_provided_key headers)

stats-FailsOfRequest :
    (api_key : Option (List ℕ)) (headers : HeaderMap) (metrics : MetricsCollector)
    → FailsOfRequest (stats_handler api_key headers metrics)
unfolding stats_handler
stats-FailsOfRequest api_key headers metrics =
    >>=-FailsOfRequest (check_api_key api_key headers) _
      (check_api_key-FailsOfRequest api_key headers) (λ _. tt)

-- The errors that reach a client: those of the handlers, a rate limit, and a timeout of a route.
pub data Reaches (search_env : SearchEnv) (env : Env) (config : Config) (e : AppError)
    : Type 0 where
  by_search :
      (ms : ℕ) (store : Store) (metrics : MetricsCollector) (params : SearchParams)
      → (search_handler search_env config ms store metrics params).result ≡ err e
      → Reaches search_env env config e
  by_extract :
      (weather : Weather) (store : Store) (raw : Text)
      → (extract_handler env config weather store raw).result ≡ err e
      → Reaches search_env env config e
  by_stats :
      (api_key : Option (List ℕ)) (headers : HeaderMap) (metrics : MetricsCollector)
      → stats_handler api_key headers metrics ≡ err e
      → Reaches search_env env config e
  by_limiter : e ≡ rate_limited → Reaches search_env env config e
  by_timeout : e ≡ service_unavailable (text "Request timed out") → Reaches search_env env config e

-- Whatever a client asks, and whatever the engine, the resolver, the network and the cache do: an
-- error that it gets over HTTP, from a handler, a rate limit or a timeout of a route, has one of the
-- codes that README.md lists.
pub Reaches-is_documented :
    (search_env : SearchEnv) (env : Env) (config : Config) (e : AppError)
    → Reaches search_env env config e
    → is_documented e ≡ true
Reaches-is_documented search_env env config e (by_search ms store metrics params h) =
    Result-is_documented (search_handler search_env config ms store metrics params).result e
      (search-FailsOfRequest search_env config ms store metrics params) h
Reaches-is_documented search_env env config e (by_extract weather store raw h) =
    Result-is_documented (extract_handler env config weather store raw).result e
      (extract-FailsOfRequest env config weather store raw) h
Reaches-is_documented search_env env config e (by_stats api_key headers metrics h) =
    Result-is_documented (stats_handler api_key headers metrics) e
      (stats-FailsOfRequest api_key headers metrics) h
Reaches-is_documented search_env env config e (by_limiter same) =
    rw same (request-is_documented rate_limited tt)
Reaches-is_documented search_env env config e (by_timeout same) =
    rw same (request-is_documented (service_unavailable (text "Request timed out")) tt)
