-- ===== src/Http/Handlers/Searching.antt =====
-- What `search_handler` of src/gateway/http.rs answers, counts and leaves in the cache.
use serica.Ssrf.Fetch.{unwrap_or}
use serica.Prelude.{
  trim, ℕ, ◌≤◌, ◌≡◌, refl, false, Option, none, some, List, [], arith, length, All,
}
use serica.Error.{AppError, Result, ok, err, ok-injective}
use serica.Config.{Config}
use serica.Gateway.{SearchRequest, SearchResponse, SearchResult, cache_key}
use serica.Gateway.Filter.{IsClean, blocklist_at, finalize-IsClean}
use serica.Engine.{SearchOutcome, found, failed}
use serica.Metrics.{MetricsCollector}
use serica.Extract.Pipeline.{Store}
use serica.Http.{SearchParams, try_from_params}
use serica.Http.Request.{IsWellFormed, try_from_params-IsWellFormed}
use serica.Http.Handlers.{
  SearchEnv, Searched, write_of, conclude, fail, answer, cached_or, handle, search_handler,
}

module _ (env : SearchEnv) (config : Config) (elapsed_ms : ℕ) where
  -- The request that these parameters make up.
  abbrev pub AskedFor : SearchParams → SearchRequest → Type 0
  AskedFor params request =
      try_from_params env.unicode env.printer params config.search.safe_search_default ≡ ok request

  -- A response that is not from the cache: the request that the client's parameters make up is well
  -- formed, and of the level that they give or else of the configured one; each result is clean by the
  -- list of that level, the page is no longer than configured, and the response itself is cached under
  -- the request's key.
  pub record IsFreshSearch (params : SearchParams) (searched : Searched) (r : SearchResponse)
      : Type 0 where
    pub request : SearchRequest
    pub asked : AskedFor params request
    pub well_formed : IsWellFormed request
    pub query : request.query ≡ trim (unwrap_or params.q [])
    pub level : request.safe_search ≡ unwrap_or params.safe config.search.safe_search_default
    pub clean : All (IsClean env.U env.unicode (blocklist_at request.safe_search)) r.results
    pub page_bound : length r.results ≤ config.search.max_results_per_page
    pub is_written :
        searched.writes
        ≡ write_of env config elapsed_ms (cache_key env.hasher request) (env.to_vec r)

  module _ (params : SearchParams) (request : SearchRequest) (asked : AskedFor params request) where
    conclude-fresh :
        (metrics : MetricsCollector) (results : List SearchResult) {r : SearchResponse}
        → (conclude env config elapsed_ms request metrics results).result ≡ ok r
        → IsFreshSearch params (conclude env config elapsed_ms request metrics results) r
    unfolding conclude
    conclude-fresh metrics results {r} h =
        let same = ok-injective h in
        let (clean, bound, _) =
          finalize-IsClean env.U env.unicode results request config.search.max_results_per_page
            elapsed_ms in
        let accepted =
          try_from_params-IsWellFormed env.unicode env.printer params
            config.search.safe_search_default request asked in
        record {
          request = request;
          asked = asked;
          well_formed = accepted.0;
          query = accepted.1;
          level = accepted.3;
          clean = rw (← same) clean;
          page_bound = rw (← same) (omega (arith, bound));
          is_written = rw same;
        }

    fail-fresh :
        (metrics : MetricsCollector) (e : Option AppError) {r : SearchResponse}
        → (fail env config elapsed_ms request metrics e).result ≡ ok r
        → IsFreshSearch params (fail env config elapsed_ms request metrics e) r
    unfolding fail
    fail-fresh metrics none h = conclude-fresh metrics [] h
    fail-fresh metrics (some e) h = absurd (cc h)

    answer-fresh :
        (metrics : MetricsCollector) (o : SearchOutcome) {r : SearchResponse}
        → (answer env config elapsed_ms request metrics o).result ≡ ok r
        → IsFreshSearch params (answer env config elapsed_ms request metrics o) r
    unfolding answer
    answer-fresh metrics (found results) h = conclude-fresh metrics results h
    answer-fresh metrics (failed e) h = fail-fresh _ _ h

    cached_or-fresh :
        (metrics : MetricsCollector) (c : Option SearchResponse) {r : SearchResponse}
        → (cached_or env config elapsed_ms request metrics c).result ≡ ok r
        → r.cached ≡ false
        → IsFreshSearch params (cached_or env config elapsed_ms request metrics c) r
    unfolding cached_or
    cached_or-fresh metrics (some response) h fresh = absurd (cc (h, fresh))
    cached_or-fresh metrics none h fresh = answer-fresh metrics _ h

  handle-fresh :
      (params : SearchParams) (store : Store) (metrics : MetricsCollector)
      (parsed : Result SearchRequest)
      → try_from_params env.unicode env.printer params config.search.safe_search_default ≡ parsed
      → {r : SearchResponse} → (handle env config elapsed_ms store metrics parsed).result ≡ ok r
      → r.cached ≡ false
      → IsFreshSearch params (handle env config elapsed_ms store metrics parsed) r
  unfolding handle
  handle-fresh params store metrics (err e) is_parsed h fresh = absurd (cc h)
  handle-fresh params store metrics (ok request) is_parsed h fresh =
      cached_or-fresh params request is_parsed metrics _ h fresh

  -- A fresh answer belongs to the request that the client's parameters make up, which is well formed
  -- and has the client's level, or the configured one if none is given. Its results are clean by the
  -- list of that level and no more than `max_results_per_page`, and what is written to the cache is
  -- this answer, filtered, under the key of that request.
  pub search-IsFreshSearch :
      (store : Store) (metrics : MetricsCollector) (params : SearchParams) (r : SearchResponse)
      → (search_handler env config elapsed_ms store metrics params).result ≡ ok r
      → r.cached ≡ false
      → IsFreshSearch params (search_handler env config elapsed_ms store metrics params) r
  unfolding search_handler
  search-IsFreshSearch store metrics params r h fresh =
      handle-fresh params store metrics _ refl h fresh
