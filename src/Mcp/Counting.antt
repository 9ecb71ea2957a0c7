-- ===== src/Mcp/Counting.antt =====
-- What the searches of src/gateway/http.rs and src/gateway/mcp.rs make of the counters that they share.
use serica.Prelude.{ℕ, ◌+◌, ◌%◌, ◌^◌, ◌≡◌, Option, none, some, List, [], ◌∷◌, arith}
use serica.Config.{Config}
use serica.Gateway.{SearchRequest, SearchResponse, cache_key}
use serica.Engine.{
  blocked, challenged, upstream, transport, parse_empty, parse_panicked, SearchOutcome, found,
  failed,
}
use serica.Metrics.{
  MetricsCollector, record_error, record_blocked, record_challenged, record_empty_parse,
}
use serica.Extract.Pipeline.{Store}
use serica.Http.{SearchParams}
use serica.Http.Handlers.{SearchEnv, record_failure, read_cached, search_handler}
use serica.Http.Handlers.Counting.{
  counted, next, conclude-counted, asked_for, asked, search_handler-counted,
}
use serica.Mcp.{
  Rpc, done, refused, SearchArgs, search_error, fail, answer_of, cached_or, run_request,
  search_request, search_tool,
}

module _ (env : SearchEnv) (config : Config) (elapsed_ms : ℕ) where
  open env use {hasher}

  answer_of-counted :
      (request : SearchRequest) (m : MetricsCollector) (o : SearchOutcome)
      → counted (answer_of env config elapsed_ms request m o).metrics ≡ next (counted m)
  unfolding answer_of fail record_failure record_empty_parse record_error record_blocked
      record_challenged search_error
  answer_of-counted request m (found results) =
      conclude-counted env config elapsed_ms request m results
  answer_of-counted request m (failed parse_empty) =
      conclude-counted env config elapsed_ms request (record_empty_parse m) []
  answer_of-counted request m (failed blocked) = omega arith
  answer_of-counted request m (failed challenged) = omega arith
  answer_of-counted request m (failed (upstream status)) = omega arith
  answer_of-counted request m (failed (transport e)) = omega arith
  answer_of-counted request m (failed parse_panicked) = omega arith

  -- One where the arguments are valid and the search is not in the cache.
  abbrev pub tool_asked_by : Store → Rpc SearchRequest → ℕ
  tool_asked_by store (refused e) = 0
  tool_asked_by store (done request) =
      asked_for env config elapsed_ms
        (read_cached env config elapsed_ms store (cache_key hasher request))

  cached_or-counted :
      (request : SearchRequest) (m : MetricsCollector) (c : Option SearchResponse)
      → counted (cached_or env config elapsed_ms request m c).metrics
        ≡ (counted m + asked_for env config elapsed_ms c) % 2 ^ 64
  unfolding cached_or
  cached_or-counted request m (some response) = omega arith
  cached_or-counted request m none = answer_of-counted request m _

  run_request-counted :
      (store : Store) (m : MetricsCollector) (r : Rpc SearchRequest)
      → counted (run_request env config elapsed_ms store m r).metrics
        ≡ (counted m + tool_asked_by store r) % 2 ^ 64
  unfolding run_request
  run_request-counted store m (refused e) = omega arith
  run_request-counted store m (done request) = cached_or-counted request m _

  pub search_tool-counted :
      (store : Store) (m : MetricsCollector) (args : SearchArgs)
      → counted (search_tool env config elapsed_ms store m args).metrics
        ≡ (counted m + tool_asked_by store (search_request args)) % 2 ^ 64
  unfolding search_tool
  search_tool-counted store m args = run_request-counted store m _

-- A search that one of the gateways handles, with what the clock and the cache say then.
pub data Search : Type 1 where
  over_http : SearchEnv → ℕ → Store → SearchParams → Search
  over_mcp : SearchEnv → ℕ → Store → SearchArgs → Search

module _ (config : Config) where
  abbrev pub handled : Search → MetricsCollector → MetricsCollector
  handled (over_http env ms store params) m = (search_handler env config ms store m params).metrics
  handled (over_mcp env ms store args) m = (search_tool env config ms store m args).metrics

  abbrev pub asks : Search → ℕ
  asks (over_http env ms store params) = asked env config ms store params
  asks (over_mcp env ms store args) = tool_asked_by env config ms store (search_request args)

  -- The searches in turn, and how many of them asked the engine.
  abbrev pub after : List Search → MetricsCollector → MetricsCollector
  after [] m = m
  after (s ∷ searches) m = after searches (handled s m)

  abbrev pub engine_calls : List Search → ℕ
  engine_calls [] = 0
  engine_calls (s ∷ searches) = asks s + engine_calls searches

  handled-counted :
      (s : Search) (m : MetricsCollector) → counted (handled s m) ≡ (counted m + asks s) % 2 ^ 64
  handled-counted (over_http env ms store params) m =
      search_handler-counted env config ms store m params
  handled-counted (over_mcp env ms store args) m = search_tool-counted env config ms store m args

  -- Of searches that run to their end, over HTTP or MCP, each call of the engine is counted once: as a
  -- search, an error, a block or a challenge. One that its route's timeout cuts off is not counted. In 64 bits the four counters rise by the number of the calls.
  pub calls_counted_once :
      (searches : List Search) (m : MetricsCollector)
      → counted (after searches m) ≡ (counted m + engine_calls searches) % 2 ^ 64
  calls_counted_once [] m = omega arith
  calls_counted_once (s ∷ searches) m =
      omega (arith, calls_counted_once searches (handled s m), handled-counted s m)
