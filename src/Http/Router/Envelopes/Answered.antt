-- ===== src/Http/Router/Envelopes/Answered.antt =====
-- src/gateway/http.rs, `router` with its handlers: what a client gets on each route.
use mathlib.Core.Option
use serica.Prelude.{false, ℕ, ◌*◌, ◌≤◌, ◌≡◌, refl, Bool, Option, none, some, ◌==◌, le→leb}
use serica.Error.{Result}
use serica.Config.{Config}
use serica.Engine.{EngineHealth}
use serica.Json.{Json}
use serica.Http.{Render, HttpResponse, convert_timeout_response}
use serica.Gateway.{SearchResponse}
use serica.Metrics.{MetricsSnapshot}
use serica.Extract.Pipeline.{ExtractResponse}
use serica.Models.{search_response_json, extract_response_json}
use serica.Http.Bodies.{
  Queried, bad_query, good_query, answer_query, snapshot_json, search_answer, stats_answer,
  extract_answer, answer_of, live_answer, ready_answer,
}
use serica.Http.Router.{
  Handler, health_live_handler, health_ready_handler, search_handler, stats_handler,
  extract_handler, route, Service, at_once, admitted, timeout_layer, Request, Outside,
  governor_layer, routed, serve,
}
use serica.Http.Router.Envelopes.{
  answer_of-IsEnveloped, live_answer-IsEnveloped, ready_answer-IsEnveloped,
}
use serica.Http.Router.Envelopes.Layers.{AreEnveloped, IsAnswered, RejectsByRate, serve-IsAnswered}

-- What the handlers give: the result of each or a rejected query, with the milliseconds that it took,
-- or nothing where it never ends; and what the health routes read.
pub record Results : Type 0 where
  pub search : Option (Queried SearchResponse × ℕ)
  pub stats : Option (Result MetricsSnapshot × ℕ)
  pub extract : Option (Queried ExtractResponse × ℕ)
  pub shutting_down : Bool
  pub uptime : ℕ
  pub health : EngineHealth

module _ (render : Render) (results : Results) where
  abbrev timely : {A : Type 0} → (A → HttpResponse) → Option (A × ℕ) → Service
  timely answer result = Option.map (λ r. record { response = answer r.0; ms = r.1 }) result

  -- The handlers' answers.
  abbrev pub handle_of : Handler → Service
  handle_of search_handler = timely (search_answer render) results.search
  handle_of stats_handler = timely (stats_answer render) results.stats
  handle_of extract_handler = timely (extract_answer render) results.extract
  handle_of health_live_handler =
      at_once (live_answer render results.shutting_down results.uptime results.health)
  handle_of health_ready_handler =
      at_once (ready_answer render results.shutting_down results.uptime results.health)

module _ (config : Config) (out : Outside) (results : Results) where
  -- The router with these handlers.
  abbrev pub gateway : Outside
  gateway = record out { handle = handle_of out.render results }

  timely-AreEnveloped :
      {A : Type 0} (json : A → Json) (result : Option (Result A × ℕ))
      → AreEnveloped config gateway (timely out.render results (answer_of out.render json) result)
  timely-AreEnveloped json none = tt
  timely-AreEnveloped json (some (r, ms)) = answer_of-IsEnveloped out.render json r

  -- The query string was read, if the handler has come so far.
  abbrev pub IsRead : {A : Type 0} → Option (Queried A × ℕ) → Type 0
  IsRead none = Unit
  IsRead (some (good_query result, ms)) = Unit
  IsRead (some (bad_query response, ms)) = ⊥

  queried-AreEnveloped :
      {A : Type 0} (json : A → Json) (result : Option (Queried A × ℕ))
      → IsRead result
      → AreEnveloped config gateway
          (timely out.render results (answer_query out.render json) result)
  unfolding answer_query
  queried-AreEnveloped json none h = tt
  queried-AreEnveloped json (some (good_query result, ms)) h =
      answer_of-IsEnveloped out.render json result
  queried-AreEnveloped json (some (bad_query response, ms)) h = absurd h

  handled-AreEnveloped :
      IsRead results.search
      → IsRead results.extract
      → (h : Handler) → AreEnveloped config gateway (handle_of out.render results h)
  handled-AreEnveloped searched extracted search_handler =
      queried-AreEnveloped search_response_json results.search searched
  handled-AreEnveloped searched extracted stats_handler =
      timely-AreEnveloped snapshot_json results.stats
  handled-AreEnveloped searched extracted extract_handler =
      queried-AreEnveloped extract_response_json results.extract extracted
  handled-AreEnveloped searched extracted health_live_handler =
      live_answer-IsEnveloped out.render _ _ _
  handled-AreEnveloped searched extracted health_ready_handler =
      ready_answer-IsEnveloped out.render _ _ _

  -- Whatever its handlers give, and even where they never end, the gateway answers on each of its
  -- paths by an envelope: either a success with its data, or a failure with a code and a message and a
  -- status from 400 to 504. The request is within the body limit, its query string is of the types of
  -- the parameters, and the limiters reject only for the rate.
  pub gateway-IsAnswered :
      (request : Request) (h : Handler)
      → RejectsByRate config out out.general
      → RejectsByRate config out out.extract
      → IsRead results.search
      → IsRead results.extract
      → route request.path ≡ some h
      → request.content_length ≤ 8 * 1024
      → IsAnswered config gateway (serve config gateway request)
  gateway-IsAnswered request h general extract searched extracted found small =
      serve-IsAnswered config gateway general extract (handled-AreEnveloped searched extracted)
        (live_answer-IsEnveloped out.render _ _ _) (ready_answer-IsEnveloped out.render _ _ _)
        request h found small

  -- A search whose query string is rejected, say for a page that is no number, is answered as `axum`
  -- does, which is no envelope of this server: its response is passed on unchanged, if it comes in
  -- time and its status is not 504.
  pub rejection_passes :
      (request : Request) (response : HttpResponse) (ms : ℕ)
      → results.search ≡ some (bad_query response, ms)
      → route request.path ≡ some search_handler
      → request.content_length ≤ 8 * 1024
      → out.general ≡ admitted
      → ms ≤ config.search.default_timeout_ms
      → (response.status == 504) ≡ false
      → serve config gateway request ≡ some (record { response = response; ms = ms })
  unfolding serve routed governor_layer timeout_layer convert_timeout_response answer_query
  rejection_passes request response ms e found small open_ soon other_status =
      rw (le→leb _ _ small, found, open_, e, le→leb _ _ soon, other_status) refl
