-- ===== src/Http/Handlers.antt =====
-- src/gateway/http.rs, the handlers of the routes. The JSON around a response is not modelled.
pub mod Searching
pub mod Counting
pub mod Readiness
pub mod Timeout
pub mod Guarded
pub mod Documented
use serica.Prelude.{
  ℕ, Bool, true, not, Option, none, some, List, [], ◌∷◌, if◌then◌else◌, is_empty, Text, text, trim,
}
use serica.Error.{AppError, invalid_query, Result, ok, err, ◌>>=◌, ◌>>◌, guard, ok_or}
use serica.Config.{Config}
use serica.Fetch.{Unicode, Printer}
use serica.Ssrf.Url.{UrlLib}
use serica.Gateway.{
  Hasher, SearchRequest, SearchResult, SearchResponse, cache_key, finalize_results,
}
use serica.Engine.{
  SearchError, blocked, challenged, upstream, transport, parse_empty, parse_panicked, SearchOutcome,
  found, failed, EngineHealth,
}
use serica.Metrics.{
  MetricsCollector, MetricsSnapshot, record_search, record_error, record_blocked, record_challenged,
  record_empty_parse, snapshot,
}
use serica.Extract.Pipeline.{Store, Write, Env, Weather, Ran, Sent, run_extract}
use serica.Http.{SearchParams, try_from_params, map_search_error}
use serica.Http.Key.{HeaderMap, check_api_key}

-- What a search uses of the process: the crates, the engine as a function of its arguments, and
-- `serde_json` for the response.
pub record SearchEnv : Type 1 where
  pub U : UrlLib
  pub unicode : Unicode
  pub printer : Printer
  pub hasher : Hasher
  pub engine : Text → ℕ → Option Text → ℕ → SearchOutcome
  pub from_slice : List ℕ → Option SearchResponse
  pub to_vec : SearchResponse → Option (List ℕ)

-- The response, the metrics behind it, and what is written to the cache.
pub record Searched : Type 0 where
  pub result : Result SearchResponse
  pub metrics : MetricsCollector
  pub writes : List Write

-- The counter of each failure.
unfoldable pub record_failure : SearchError → MetricsCollector → MetricsCollector
unfolding record_empty_parse record_blocked record_challenged record_error
record_failure parse_empty metrics = record_empty_parse metrics
record_failure blocked metrics = record_blocked metrics
record_failure challenged metrics = record_challenged metrics
record_failure (upstream _) metrics = record_error metrics
record_failure (transport _) metrics = record_error metrics
record_failure parse_panicked metrics = record_error metrics

module _ (env : SearchEnv) (config : Config) (elapsed_ms : ℕ) where
  open env use {U, unicode, printer, hasher, engine, from_slice, to_vec}

  abbrev pub write_of : Text → Option (List ℕ) → List Write
  write_of key none = []
  write_of key (some value) =
      record { key = key; value = value; ttl = config.cache.ttl_seconds } ∷ []

  -- The results are finalized, counted and cached.
  unfoldable pub conclude : SearchRequest → MetricsCollector → List SearchResult → Searched
  unfolding record_search
  conclude request metrics results =
      let response =
        finalize_results U unicode results request config.search.max_results_per_page elapsed_ms in
      record {
        result = ok response;
        metrics = record_search elapsed_ms metrics;
        writes = write_of (cache_key hasher request) (to_vec response);
      }

  -- `map_search_error(&e)`: an error, or no results.
  unfoldable pub fail : SearchRequest → MetricsCollector → Option AppError → Searched
  unfolding conclude
  fail request metrics none = conclude request metrics []
  fail request metrics (some e) = record { result = err e; metrics = metrics; writes = [] }

  unfoldable pub answer : SearchRequest → MetricsCollector → SearchOutcome → Searched
  unfolding fail record_failure
  answer request metrics (found results) = conclude request metrics results
  answer request metrics (failed e) =
      fail request (record_failure e metrics) (map_search_error printer.show e)

  -- The cached response, if it can be read, or the engine.
  unfoldable pub cached_or : SearchRequest → MetricsCollector → Option SearchResponse → Searched
  unfolding answer
  cached_or request metrics (some response) = record {
    result = ok (record response { cached = true; timing_ms = elapsed_ms });
    metrics = metrics;
    writes = [];
  }
  cached_or request metrics none =
      answer request metrics
        (engine request.query request.page request.language request.safe_search)

  abbrev pub read_cached : Store → Text → Option SearchResponse
  read_cached store key = elim (store key) [ none ↦ none | some bytes ↦ from_slice bytes ]

  unfoldable pub handle : Store → MetricsCollector → Result SearchRequest → Searched
  unfolding cached_or
  handle store metrics (err e) = record { result = err e; metrics = metrics; writes = [] }
  handle store metrics (ok request) =
      cached_or request metrics (read_cached store (cache_key hasher request))

  unfoldable pub search_handler : Store → MetricsCollector → SearchParams → Searched
  unfolding handle
  search_handler store metrics params =
      handle store metrics
        (try_from_params unicode printer params config.search.safe_search_default)

-- `/api/v1/stats`; the key of the configuration is given as its bytes.
unfoldable pub stats_handler :
    Option (List ℕ) → HeaderMap → MetricsCollector → Result MetricsSnapshot
stats_handler api_key headers metrics = do check_api_key api_key headers; ok (snapshot metrics)

-- `/api/v1/health/live` and `/api/v1/health/ready`: the status word, and the code of the latter.
unfoldable pub live_status : Bool → Text
live_status shutting_down = if shutting_down then text "shutting_down" else text "ok"

unfoldable pub ready_status : Bool → EngineHealth → Text × ℕ
ready_status shutting_down health =
    if shutting_down
    then (text "shutting_down", 503)
    else if health.healthy
    then (text "ok", 200)
    else (text "degraded", 503)

-- `/api/v1/extract`, with the text of the URL trimmed.
unfoldable pub parse_target : (U : UrlLib) → Text → Result U.Url
parse_target U raw = do
  let url = trim raw
  guard (not (is_empty url)) (invalid_query (text "URL is empty"))
  ok_or (U.parse url) (invalid_query (text "URL could not be parsed"))

module _ (env : Env) (config : Config) (weather : Weather) (store : Store) where
  abbrev pub run_parsed : Result env.U.Url → Ran (Sent env config)
  run_parsed (err e) = record { result = err e; writes = []; dials = [] }
  run_parsed (ok url) = run_extract env config weather store url

  unfoldable pub extract_handler : Text → Ran (Sent env config)
  unfolding parse_target
  extract_handler raw = run_parsed (parse_target env.U raw)
