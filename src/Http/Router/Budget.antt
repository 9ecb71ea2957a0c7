-- ===== src/Http/Router/Budget.antt =====
-- How long src/gateway/http.rs lets its routes take, and what a client sees of a timeout.
use serica.Prelude.{
  ℕ, ◌*◌, ◌≤◌, ◌<◌, ◌≡◌, refl, ap, ◌∙◌, inl, inr, Option, none, some, List, [], ◌∷◌, arith, leb,
  leb→le, le→leb, Bool-cases, length, Text, text,
}
use serica.Error.{service_unavailable, extract_timeout, rate_limited, error_body, to_http_parts}
use serica.Config.{Config}
use serica.Http.{into_response, rewrap, convert_timeout_response}
use serica.Http.Handlers.Timeout.{envelope_kept}
use serica.Http.Router.{
  extract_budget_ms, timeout_marker_status, Handler, health_live_handler, health_ready_handler,
  search_handler, stats_handler, extract_handler, route, Answer, Service, at_once,
  too_many_requests, admitted, rejected, timeout_layer, Request, Outside, rate_limit_error_handler,
  governor_layer, routed, converted, serve,
}

-- The time that a route may take, if it is limited.
abbrev pub budget : Config → Handler → Option ℕ
budget config search_handler = some config.search.default_timeout_ms
budget config stats_handler = some config.search.default_timeout_ms
budget config extract_handler = some extract_budget_ms
budget config health_live_handler = none
budget config health_ready_handler = none

-- An answer within the time.
abbrev pub ComesWithin : ℕ → Service → Type 0
ComesWithin d s = (a : Answer) × (s ≡ some a) × (a.ms ≤ d)

timeout_layer-ComesWithin : (d : ℕ) (s : Service) → ComesWithin d (timeout_layer d s)
unfolding timeout_layer
timeout_layer-ComesWithin d none = (_, refl, omega arith)
timeout_layer-ComesWithin d (some a) = elim (Bool-cases (leb a.ms d)) [
  | inl e ↦ rw e (a, refl, leb→le _ _ e)
  | inr e ↦ rw e (_, refl, omega arith)
]

within :
    (d d' : ℕ) (s : Service)
    → ◌≡◌ {A = Option ℕ} (some d') (some d)
    → ComesWithin d (timeout_layer d' s)
within d d' s e = let same : d' ≡ d = cc e in rw same (timeout_layer-ComesWithin d s)

timeout_layer_in_time : (d : ℕ) (a : Answer) → a.ms ≤ d → timeout_layer d (some a) ≡ some a
unfolding timeout_layer
timeout_layer_in_time d a h = rw (le→leb _ _ h)

timeout_layer_late :
    (d : ℕ) (a : Answer)
    → d < a.ms
    → timeout_layer d (some a)
      ≡ some
          (record { response = record { status = timeout_marker_status; body = some [] }; ms = d })
unfolding timeout_layer
timeout_layer_late d a h = elim (Bool-cases (leb a.ms d)) [
  | inl e ↦ absurd (omega (arith, leb→le _ _ e, h))
  | inr e ↦ rw e
]

module _ (config : Config) (out : Outside) where
  routed-ComesWithin :
      (h : Handler) (d : ℕ) → budget config h ≡ some d → ComesWithin d (routed config out h)
  unfolding routed
  routed-ComesWithin search_handler d e = within _ _ _ e
  routed-ComesWithin stats_handler d e = within _ _ _ e
  routed-ComesWithin extract_handler d e =
      within d extract_budget_ms
        (governor_layer config out out.extract (out.handle extract_handler)) e
  routed-ComesWithin health_live_handler d e = absurd (cc e)
  routed-ComesWithin health_ready_handler d e = absurd (cc e)

  converted-ComesWithin :
      (d : ℕ) (s : Service) → ComesWithin d s → ComesWithin d (converted config out s)
  converted-ComesWithin d s (a, e, h) = rw e (_, refl, h)

  -- A request to a limited route is answered within the route's budget, even where its handler never
  -- answers.
  pub serve-ComesWithin :
      (request : Request) (h : Handler) (d : ℕ)
      → route request.path ≡ some h
      → budget config h ≡ some d
      → ComesWithin d (serve config out request)
  unfolding serve
  serve-ComesWithin request h d found limited =
      elim (Bool-cases (leb request.content_length (8 * 1024))) [
        | inl e ↦ rw (e, found) (converted-ComesWithin d _ (routed-ComesWithin h d limited))
        | inr e ↦ rw e (_, refl, omega arith)
      ]

  served :
      (request : Request) (h : Handler)
      → route request.path ≡ some h
      → request.content_length ≤ 8 * 1024
      → serve config out request ≡ converted config out (routed config out h)
  unfolding serve
  served request h found small = rw (le→leb _ _ small, found)

  empty_timeout :
      convert_timeout_response out.render
        (record { status = timeout_marker_status; body = some [] })
      ≡ into_response out.render (service_unavailable (text "Request timed out"))
  unfolding convert_timeout_response rewrap
  empty_timeout = refl

  -- For a request within the body limit, a rate limit that is met answers 429 on the limited
  -- routes, and the health routes do not know of it.
  pub over_limit :
      (request : Request) (h : Handler) (extra : Option (List (Text × Text)))
      → route request.path ≡ some h
      → request.content_length ≤ 8 * 1024
      → out.general ≡ rejected (too_many_requests extra)
      → out.extract ≡ rejected (too_many_requests extra)
      → serve config out request ≡ elim (budget config h) [
        | none ↦ converted config out (out.handle h)
        | some d ↦ at_once (into_response out.render rate_limited)
      ]
  unfolding routed governor_layer rate_limit_error_handler timeout_layer convert_timeout_response
      into_response to_http_parts
  over_limit request search_handler extra found small g x =
      served request _ found small
      ∙ rw (g, le→leb 0 config.search.default_timeout_ms (omega arith)) refl
  over_limit request stats_handler extra found small g x =
      served request _ found small
      ∙ rw (g, le→leb 0 config.search.default_timeout_ms (omega arith)) refl
  over_limit request extract_handler extra found small g x =
      served request _ found small ∙ rw x refl
  over_limit request health_live_handler extra found small g x = served request _ found small
  over_limit request health_ready_handler extra found small g x = served request _ found small

  -- `run_extract` timed out.
  abbrev pub timed_out_answer : Text → ℕ → Answer
  timed_out_answer message ms = record {
    response = into_response out.render (extract_timeout message);
    ms = ms;
  }

  envelope_passes :
      (message : Text) (b : ℕ) (bytes : List ℕ)
      → out.render (error_body (to_http_parts (extract_timeout message))) ≡ b ∷ bytes
      → length (b ∷ bytes) ≤ 8192
      → convert_timeout_response out.render (into_response out.render (extract_timeout message))
        ≡ into_response out.render (extract_timeout message)
  unfolding into_response
  envelope_passes message b bytes printed short =
      envelope_kept out.render _ b bytes (ap some printed) short

  -- What a client sees of an extraction that ran into `extract.timeout_ms`, where the limiter
  -- admits it, the request is within the body limit, and its envelope is not empty and has at most
  -- 8192 bytes: the 504 envelope if it was answered within 20 seconds, and else, after 20 seconds,
  -- the 503 of a route that timed out.
  pub extract_timeout_seen :
      (request : Request) (message : Text) (ms b : ℕ) (bytes : List ℕ)
      → route request.path ≡ some extract_handler
      → request.content_length ≤ 8 * 1024
      → out.extract ≡ admitted
      → out.handle extract_handler ≡ some (timed_out_answer message ms)
      → out.render (error_body (to_http_parts (extract_timeout message))) ≡ b ∷ bytes
      → length (b ∷ bytes) ≤ 8192
      → (ms ≤ 20000 → serve config out request ≡ some (timed_out_answer message ms))
        × (20000 < ms
            → serve config out request
              ≡ some (record {
                response =
                    into_response out.render (service_unavailable (text "Request timed out"));
                ms = 20000;
              }))
  unfolding routed governor_layer
  extract_timeout_seen request message ms b bytes found small open_ answers printed short = (
    λ soon.
        served request _ found small
        ∙ rw
            (
              open_,
              answers,
              timeout_layer_in_time extract_budget_ms (timed_out_answer message ms) soon,
            )
            (ap (λ r. some (record { response = r; ms = ms }))
              (envelope_passes message b bytes printed short)),
    λ late.
        served request _ found small
        ∙ rw
            (
              open_,
              answers,
              timeout_layer_late extract_budget_ms (timed_out_answer message ms) late,
            )
            (ap (λ r. some (record { response = r; ms = 20000 })) empty_timeout),
  )
