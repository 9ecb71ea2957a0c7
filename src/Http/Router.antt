-- ===== src/Http/Router.antt =====
-- src/gateway/http.rs, `router`: which handler serves a path, and the layers around it. Of the layers
-- of other crates it has those that answer in a handler's place: the rate limiters, the timeouts and
-- the body limit. The requests are GETs.
pub mod Budget
pub mod Envelopes
pub mod Clients
mod Tests
use mathlib.Core.Option
use serica.Prelude.{
  ℕ, ◌+◌, ◌*◌, Option, none, some, List, [], map, leb, if◌then◌else◌, Text, text, text_eq,
}
use serica.Error.{rate_limited}
use serica.Config.{Config}
use serica.Ssrf.Fetch.{extract_timeout_secs}
use serica.Http.{Render, HttpResponse, into_response, convert_timeout_response}

-- `EXTRACT_TIMEOUT + Duration::from_secs(5)`, in milliseconds
abbrev pub extract_budget_ms : ℕ
extract_budget_ms = (extract_timeout_secs + 5) * 1000

-- `TIMEOUT_MARKER_STATUS`
abbrev pub timeout_marker_status : ℕ
timeout_marker_status = 504

pub data Handler : Type 0 where
  health_live_handler health_ready_handler search_handler stats_handler extract_handler : Handler

-- The `route` calls.
unfoldable pub route : Text → Option Handler
route path =
    if text_eq path (text "/api/v1/health")
    then some health_live_handler
    else if text_eq path (text "/api/v1/health/live")
    then some health_live_handler
    else if text_eq path (text "/api/v1/health/ready")
    then some health_ready_handler
    else if text_eq path (text "/api/v1/search")
    then some search_handler
    else if text_eq path (text "/api/v1/stats")
    then some stats_handler
    else if text_eq path (text "/api/v1/extract")
    then some extract_handler
    else none

-- A response with the milliseconds that it took, or `none` where it never comes.
pub record Answer : Type 0 where
  pub response : HttpResponse
  pub ms : ℕ

abbrev pub Service : Type 0
Service = Option Answer

abbrev pub at_once : HttpResponse → Service
at_once response = some (record { response = response; ms = 0 })

-- `tower_governor::GovernorError`
pub data GovernorError : Type 0 where
  too_many_requests : Option (List (Text × Text)) → GovernorError
  unable_to_extract_key : GovernorError
  other : GovernorError

-- What a rate limiter decides of a request.
pub data Verdict : Type 0 where
  admitted : Verdict
  rejected : GovernorError → Verdict

-- `unwrap_or_default` of the headers.
abbrev pub headers_of : Option (List (Text × Text)) → List (Text × Text)
headers_of none = []
headers_of (some extra) = extra

-- `TimeoutLayer::with_status_code`, which answers with an empty body.
unfoldable pub timeout_layer : ℕ → Service → Service
timeout_layer budget none =
    some
      (record { response = record { status = timeout_marker_status; body = some [] }; ms = budget })
timeout_layer budget (some a) =
    if leb a.ms budget
    then some a
    else some (record {
      response = record { status = timeout_marker_status; body = some [] };
      ms = budget;
    })

pub record Request : Type 0 where
  pub path : Text
  pub content_length : ℕ

-- What the crates and the handlers do to one request.
pub record Outside : Type 0 where
  pub render : Render
  pub from_governor : GovernorError → HttpResponse
  pub not_found : HttpResponse
  pub too_large : HttpResponse
  pub general : Verdict
  pub extract : Verdict
  pub handle : Handler → Service

-- `rate_limit_error_handler`, with the headers that it adds.
unfoldable pub rate_limit_error_handler :
    Outside → GovernorError → HttpResponse × List (Text × Text)
rate_limit_error_handler out (too_many_requests headers) =
    (into_response out.render rate_limited, headers_of headers)
rate_limit_error_handler out unable_to_extract_key = (out.from_governor unable_to_extract_key, [])
rate_limit_error_handler out other = (out.from_governor other, [])

module _ (config : Config) (out : Outside) where
  -- `GovernorLayer` with that handler.
  unfoldable pub governor_layer : Verdict → Service → Service
  unfolding rate_limit_error_handler
  governor_layer admitted inner = inner
  governor_layer (rejected e) inner = at_once (rate_limit_error_handler out e).0

  -- The handler below its route layers, of which the one that is added last is outermost.
  unfoldable pub routed : Handler → Service
  unfolding governor_layer timeout_layer
  routed search_handler =
      timeout_layer config.search.default_timeout_ms
        (governor_layer out.general (out.handle search_handler))
  routed stats_handler =
      timeout_layer config.search.default_timeout_ms
        (governor_layer out.general (out.handle stats_handler))
  routed extract_handler =
      timeout_layer extract_budget_ms (governor_layer out.extract (out.handle extract_handler))
  routed health_live_handler = out.handle health_live_handler
  routed health_ready_handler = out.handle health_ready_handler

  -- `map_response(convert_timeout_response)`
  abbrev pub converted : Service → Service
  converted s =
      Option.map
        (λ a. record { response = convert_timeout_response out.render a.response; ms = a.ms }) s

  abbrev pub routed_or_not_found : Option Handler → Service
  routed_or_not_found none = at_once out.not_found
  routed_or_not_found (some h) = routed h

  -- `RequestBodyLimitLayer::new(8 * 1024)`, and what stands below it.
  unfoldable pub serve : Request → Service
  unfolding route routed
  serve request =
      let below = converted (routed_or_not_found (route request.path)) in
      if leb request.content_length (8 * 1024) then below else at_once out.too_large
