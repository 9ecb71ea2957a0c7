-- ===== src/Mcp/Sharing.antt =====
-- The cache that the two gateways of src/gateway/http.rs and src/gateway/mcp.rs share: what one leaves
-- in it, the other serves.
use mathlib.Core.Path.{subst}
use serica.Prelude.{ℕ, ◌≡◌, ap, ◌∙◌, true, false, Option, none, some, List, [], Text}
use serica.Error.{AppError, ok, ok-injective}
use serica.Config.{Config}
use serica.Gateway.{SearchRequest, SearchResponse, SearchResult, cache_key}
use serica.Engine.{SearchOutcome, found, failed}
use serica.Metrics.{MetricsCollector}
use serica.Extract.Pipeline.{Store, Write}
use serica.Extract.Pipeline.Caching.{Keeps}
use serica.Http.{SearchParams, try_from_params}
use serica.Http.Handlers
use serica.Http.Handlers.{SearchEnv, search_handler, handle, conclude, write_of, read_cached}
use serica.Mcp.{JsonRpcErrorObject, done, SearchArgs, search_request, search_tool, run_request}
use serica.Mcp

done-injective : {A : Type 0} {a b : A} → done a ≡ done b → a ≡ b
done-injective e = cc e

-- The response as a hit serves it.
abbrev pub as_hit : ℕ → SearchResponse → SearchResponse
as_hit ms r = record r { cached = true; timing_ms = ms }

module _ (env : SearchEnv) (config : Config) (elapsed_ms : ℕ) where
  open env use {hasher, to_vec, from_slice, unicode, printer}

  abbrev pub key_of : SearchRequest → Text
  key_of req = cache_key hasher req

  -- The response is written under the request's key.
  abbrev pub WritesUnder : SearchRequest → List Write → SearchResponse → Type 0
  WritesUnder req writes r = writes ≡ write_of env config elapsed_ms (key_of req) (to_vec r)

  concluded-WritesUnder :
      (req : SearchRequest) (metrics : MetricsCollector) (results : List SearchResult)
      → {r : SearchResponse} → (conclude env config elapsed_ms req metrics results).result ≡ ok r
      → WritesUnder req (conclude env config elapsed_ms req metrics results).writes r
  unfolding conclude
  concluded-WritesUnder req metrics results h = rw (ok-injective h)

  http-WritesUnder_by :
      (req : SearchRequest) (metrics : MetricsCollector) (o : Option AppError) {r : SearchResponse}
      → (Handlers.fail env config elapsed_ms req metrics o).result ≡ ok r
      → WritesUnder req (Handlers.fail env config elapsed_ms req metrics o).writes r
  unfolding Handlers.fail
  http-WritesUnder_by req metrics none h = concluded-WritesUnder req metrics [] h
  http-WritesUnder_by req metrics (some e) h = absurd (cc h)

  http-WritesUnder_of :
      (req : SearchRequest) (metrics : MetricsCollector) (o : SearchOutcome) {r : SearchResponse}
      → (Handlers.answer env config elapsed_ms req metrics o).result ≡ ok r
      → WritesUnder req (Handlers.answer env config elapsed_ms req metrics o).writes r
  unfolding Handlers.answer
  http-WritesUnder_of req metrics (found results) h = concluded-WritesUnder req metrics results h
  http-WritesUnder_of req metrics (failed e) h = http-WritesUnder_by req _ _ h

  http-WritesUnder :
      (req : SearchRequest) (metrics : MetricsCollector) (c : Option SearchResponse)
      {r : SearchResponse}
      → (Handlers.cached_or env config elapsed_ms req metrics c).result ≡ ok r
      → r.cached ≡ false
      → WritesUnder req (Handlers.cached_or env config elapsed_ms req metrics c).writes r
  unfolding Handlers.cached_or
  http-WritesUnder req metrics (some response) h fresh = absurd (cc (h, fresh))
  http-WritesUnder req metrics none h fresh = http-WritesUnder_of req metrics _ h

  search_handler-WritesUnder :
      (store : Store) (metrics : MetricsCollector) (params : SearchParams) (req : SearchRequest)
      → {r : SearchResponse}
      → try_from_params unicode printer params config.search.safe_search_default ≡ ok req
      → (search_handler env config elapsed_ms store metrics params).result ≡ ok r
      → r.cached ≡ false
      → WritesUnder req (search_handler env config elapsed_ms store metrics params).writes r
  unfolding search_handler handle
  search_handler-WritesUnder store metrics params req e = rw e (http-WritesUnder req metrics _)

  mcp_concluded-WritesUnder :
      (req : SearchRequest) (metrics : MetricsCollector) (results : List SearchResult)
      → {r : SearchResponse}
      → (Mcp.concluded env config elapsed_ms
          (conclude env config elapsed_ms req metrics results)).answer
        ≡ done r
      → WritesUnder req (conclude env config elapsed_ms req metrics results).writes r
  unfolding conclude
  mcp_concluded-WritesUnder req metrics results h = let same = done-injective h in rw same

  mcp-WritesUnder_by :
      (req : SearchRequest) (metrics : MetricsCollector) (o : Option JsonRpcErrorObject)
      → {r : SearchResponse} → (Mcp.fail env config elapsed_ms req metrics o).answer ≡ done r
      → WritesUnder req (Mcp.fail env config elapsed_ms req metrics o).writes r
  unfolding Mcp.fail
  mcp-WritesUnder_by req metrics none h = mcp_concluded-WritesUnder req metrics [] h
  mcp-WritesUnder_by req metrics (some e) h = absurd (cc h)

  mcp-WritesUnder_of :
      (req : SearchRequest) (metrics : MetricsCollector) (o : SearchOutcome) {r : SearchResponse}
      → (Mcp.answer_of env config elapsed_ms req metrics o).answer ≡ done r
      → WritesUnder req (Mcp.answer_of env config elapsed_ms req metrics o).writes r
  unfolding Mcp.answer_of
  mcp-WritesUnder_of req metrics (found results) h = mcp_concluded-WritesUnder req metrics results h
  mcp-WritesUnder_of req metrics (failed e) h = mcp-WritesUnder_by req _ _ h

  mcp-WritesUnder :
      (req : SearchRequest) (metrics : MetricsCollector) (c : Option SearchResponse)
      {r : SearchResponse}
      → (Mcp.cached_or env config elapsed_ms req metrics c).answer ≡ done r
      → r.cached ≡ false
      → WritesUnder req (Mcp.cached_or env config elapsed_ms req metrics c).writes r
  unfolding Mcp.cached_or
  mcp-WritesUnder req metrics (some response) h fresh = absurd (cc (h, fresh))
  mcp-WritesUnder req metrics none h fresh = mcp-WritesUnder_of req metrics _ h

  search_tool-WritesUnder :
      (store : Store) (metrics : MetricsCollector) (args : SearchArgs) (req : SearchRequest)
      → {r : SearchResponse} → search_request args ≡ done req
      → (search_tool env config elapsed_ms store metrics args).answer ≡ done r
      → r.cached ≡ false
      → WritesUnder req (search_tool env config elapsed_ms store metrics args).writes r
  unfolding search_tool run_request
  search_tool-WritesUnder store metrics args req e = rw e (mcp-WritesUnder req metrics _)

  held :
      (store : Store) (key : Text) {bytes : List ℕ}
      → store key ≡ some bytes
      → read_cached env config elapsed_ms store key ≡ from_slice bytes
  held store key e = ap (λ o. elim o [ none ↦ none | some bytes ↦ from_slice bytes ]) e

  -- What was written is read again.
  read_back :
      (req : SearchRequest) (writes : List Write) (store : Store) (r : SearchResponse)
      (bytes : List ℕ)
      → WritesUnder req writes r
      → Keeps writes store
      → to_vec r ≡ some bytes
      → from_slice bytes ≡ some r
      → read_cached env config elapsed_ms store (key_of req) ≡ some r
  read_back req writes store r bytes written kept e trip =
      let is_written = written ∙ ap (write_of env config elapsed_ms (key_of req)) e in
      let holds = subst (λ ws. Keeps ws store) is_written kept in
      held store (key_of req) holds.0 ∙ trip

  mcp_hit :
      (store : Store) (metrics : MetricsCollector) (args : SearchArgs) (req : SearchRequest)
      → (r : SearchResponse) → search_request args ≡ done req
      → read_cached env config elapsed_ms store (key_of req) ≡ some r
      → search_tool env config elapsed_ms store metrics args
        ≡ record { answer = done (as_hit elapsed_ms r); metrics = metrics; writes = [] }
  unfolding search_tool run_request Mcp.cached_or
  mcp_hit store metrics args req r e hit = rw (e, hit)

  http_hit :
      (store : Store) (metrics : MetricsCollector) (params : SearchParams) (req : SearchRequest)
      → (r : SearchResponse)
      → try_from_params unicode printer params config.search.safe_search_default ≡ ok req
      → read_cached env config elapsed_ms store (key_of req) ≡ some r
      → search_handler env config elapsed_ms store metrics params
        ≡ record { result = ok (as_hit elapsed_ms r); metrics = metrics; writes = [] }
  unfolding search_handler handle Handlers.cached_or
  http_hit store metrics params req r e hit = rw (e, hit)

  -- The two gateways are asked for one request, and its response can be written and read.
  pub record IsShared (params : SearchParams) (args : SearchArgs) (r : SearchResponse)
      : Type 0 where
    pub req : SearchRequest
    pub by_http : try_from_params unicode printer params config.search.safe_search_default ≡ ok req
    pub by_mcp : search_request args ≡ done req
    pub bytes : List ℕ
    pub is_written : to_vec r ≡ some bytes
    pub is_read : from_slice bytes ≡ some r

module _ (env : SearchEnv) (config : Config) (ms ms' : ℕ) where
  -- A fresh answer of the HTTP gateway, if it can be written and read, is what the MCP gateway then
  -- serves for the same request, while the cache that both use still holds it, marked as cached and
  -- with its own time: the engine is not asked, nothing is counted and nothing is written.
  pub http_then_mcp :
      (store later : Store) (metrics metrics' : MetricsCollector) (params : SearchParams)
      (args : SearchArgs)
      → (r : SearchResponse) → IsShared env config ms params args r
      → (search_handler env config ms store metrics params).result ≡ ok r
      → r.cached ≡ false
      → Keeps (search_handler env config ms store metrics params).writes later
      → search_tool env config ms' later metrics' args
        ≡ record { answer = done (as_hit ms' r); metrics = metrics'; writes = [] }
  http_then_mcp store later metrics metrics' params args r s h fresh kept =
      mcp_hit env config ms' _ metrics' args s.req r s.by_mcp (
        read_back env config ms s.req _ later r s.bytes
          (search_handler-WritesUnder env config ms store metrics params s.req s.by_http h fresh)
          kept s.is_written s.is_read)

  -- A fresh answer of the MCP gateway, if it can be written and read, is what the HTTP gateway then
  -- serves for the same request, while the cache that both use still holds it, marked as cached and
  -- with its own time: the engine is not asked, nothing is counted and nothing is written.
  pub mcp_then_http :
      (store later : Store) (metrics metrics' : MetricsCollector) (params : SearchParams)
      (args : SearchArgs)
      → (r : SearchResponse) → IsShared env config ms params args r
      → (search_tool env config ms store metrics args).answer ≡ done r
      → r.cached ≡ false
      → Keeps (search_tool env config ms store metrics args).writes later
      → search_handler env config ms' later metrics' params
        ≡ record { result = ok (as_hit ms' r); metrics = metrics'; writes = [] }
  mcp_then_http store later metrics metrics' params args r s h fresh kept =
      http_hit env config ms' _ metrics' params s.req r s.by_http (
        read_back env config ms s.req _ later r s.bytes
          (search_tool-WritesUnder env config ms store metrics args s.req s.by_mcp h fresh) kept
          s.is_written s.is_read)
