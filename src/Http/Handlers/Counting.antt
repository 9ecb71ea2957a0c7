-- ===== src/Http/Handlers/Counting.antt =====
-- Which counters of src/util/metrics.rs a search of src/gateway/http.rs moves.
use serica.Prelude.{ℕ, ◌+◌, ◌%◌, ◌^◌, ◌≡◌, Option, none, some, List, [], arith}
use serica.Error.{Result, ok, err}
use serica.Config.{Config}
use serica.Gateway.{SearchRequest, SearchResponse, SearchResult, cache_key}
use serica.Engine.{
  blocked, challenged, upstream, transport, parse_empty, parse_panicked, SearchOutcome, found,
  failed,
}
use serica.Metrics.{
  MetricsCollector, record_search, record_error, record_blocked, record_challenged,
  record_empty_parse,
}
use serica.Extract.Pipeline.{Store}
use serica.Http.{SearchParams, try_from_params, map_search_error}
use serica.Http.Handlers.{
  SearchEnv, record_failure, conclude, fail, answer, cached_or, read_cached, handle, search_handler,
}

-- What the counters of outcomes come to, in 64 bits.
abbrev pub counted : MetricsCollector → ℕ
counted m = (m.total_searches + m.total_errors + m.total_blocked + m.total_challenged) % 2 ^ 64

abbrev pub next : ℕ → ℕ
next n = (n + 1) % 2 ^ 64

record_search-counted :
    (ms : ℕ) (m : MetricsCollector) → counted (record_search ms m) ≡ next (counted m)
unfolding record_search
record_search-counted ms m = omega arith

module _ (env : SearchEnv) (config : Config) (elapsed_ms : ℕ) where
  open env use {unicode, printer, hasher}

  pub conclude-counted :
      (request : SearchRequest) (m : MetricsCollector) (results : List SearchResult)
      → counted (conclude env config elapsed_ms request m results).metrics ≡ next (counted m)
  unfolding conclude
  conclude-counted request m results = record_search-counted elapsed_ms m

  answer-counted :
      (request : SearchRequest) (m : MetricsCollector) (o : SearchOutcome)
      → counted (answer env config elapsed_ms request m o).metrics ≡ next (counted m)
  unfolding answer fail record_failure record_empty_parse record_error record_blocked
      record_challenged map_search_error
  answer-counted request m (found results) = conclude-counted request m results
  answer-counted request m (failed parse_empty) = conclude-counted request (record_empty_parse m) []
  answer-counted request m (failed blocked) = omega arith
  answer-counted request m (failed challenged) = omega arith
  answer-counted request m (failed (upstream status)) = omega arith
  answer-counted request m (failed (transport e)) = omega arith
  answer-counted request m (failed parse_panicked) = omega arith

  -- One where the request is valid and not in the cache, so that the engine is asked.
  abbrev pub asked_for : Option SearchResponse → ℕ
  asked_for none = 1
  asked_for (some response) = 0

  abbrev pub asked_by : Store → Result SearchRequest → ℕ
  asked_by store (err e) = 0
  asked_by store (ok request) =
      asked_for (read_cached env config elapsed_ms store (cache_key hasher request))

  abbrev pub asked : Store → SearchParams → ℕ
  asked store params =
      asked_by store (try_from_params unicode printer params config.search.safe_search_default)

  cached_or-counted :
      (request : SearchRequest) (m : MetricsCollector) (c : Option SearchResponse)
      → counted (cached_or env config elapsed_ms request m c).metrics
        ≡ (counted m + asked_for c) % 2 ^ 64
  unfolding cached_or
  cached_or-counted request m (some response) = omega arith
  cached_or-counted request m none = answer-counted request m _

  handle-counted :
      (store : Store) (m : MetricsCollector) (r : Result SearchRequest)
      → counted (handle env config elapsed_ms store m r).metrics
        ≡ (counted m + asked_by store r) % 2 ^ 64
  unfolding handle
  handle-counted store m (err e) = omega arith
  handle-counted store m (ok request) = cached_or-counted request m _

  -- A search that asks the engine moves one of the counters of searches, errors, blocks and challenges,
  -- by one; a search that is refused or served from the cache moves none of them.
  pub search_handler-counted :
      (store : Store) (m : MetricsCollector) (params : SearchParams)
      → counted (search_handler env config elapsed_ms store m params).metrics
        ≡ (counted m + asked store params) % 2 ^ 64
  unfolding search_handler
  search_handler-counted store m params = handle-counted store m _
