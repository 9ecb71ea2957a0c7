-- ===== src/Http/Bodies.antt =====
-- src/gateway/http.rs: the bodies of the responses.
use serica.Prelude.{ℕ, Bool, true, Option, none, some, [], ◌∷◌, Text, text}
use serica.Error.{Result, ok, err}
use serica.Json.{Json, boolean, number, quotient, string, fields}
use serica.Gateway.{SearchResponse, cargo_pkg_version}
use serica.Engine.{EngineHealth}
use serica.Metrics.{MetricsSnapshot}
use serica.Extract.Pipeline.{ExtractResponse}
use serica.Models.{search_response_json, extract_response_json}
use serica.Http.{Render, HttpResponse, into_response}
use serica.Http.Handlers.{live_status, ready_status}

-- `json!({ "success": true, "data": … })`
abbrev pub success : Json → Json
success value = fields ((text "success", boolean true) ∷ (text "data", value) ∷ [])

-- A handler's `Result<Json<Value>, AppError>`, as `axum` answers it.
unfoldable pub answer_of : {A : Type 0} → Render → (A → Json) → Result A → HttpResponse
unfolding into_response
answer_of render json (ok a) = record { status = 200; body = some (render (success (json a))) }
answer_of render json (err e) = into_response render e

-- The average is an `f64`, and 0 where nothing was searched.
abbrev pub average : Option (ℕ × ℕ) → Json
average none = quotient 0 1
average (some (total, count)) = quotient total count

-- What `Serialize` derives for the snapshot.
unfoldable pub snapshot_json : MetricsSnapshot → Json
snapshot_json s = fields (
    (text "total_searches", number s.total_searches)
    ∷ (text "avg_latency_ms", average s.avg_latency_ms)
    ∷ (text "total_errors", number s.total_errors)
    ∷ (text "total_blocked", number s.total_blocked)
    ∷ (text "total_challenged", number s.total_challenged)
    ∷ (text "total_empty_parses", number s.total_empty_parses)
    ∷ [])

-- What comes of a handler that takes a `Query`: the rejection by which `axum` answers in its place
-- where the query string is not of the parameters' types, or the handler's result.
pub data Queried (A : Type 0) : Type 0 where
  bad_query : HttpResponse → Queried A
  good_query : Result A → Queried A

unfoldable pub answer_query : {A : Type 0} → Render → (A → Json) → Queried A → HttpResponse
unfolding answer_of
answer_query render json (bad_query response) = response
answer_query render json (good_query result) = answer_of render json result

-- The answers of `search_handler`, `extract_handler` and `stats_handler`.
abbrev pub search_answer : Render → Queried SearchResponse → HttpResponse
search_answer render result = answer_query render search_response_json result

abbrev pub extract_answer : Render → Queried ExtractResponse → HttpResponse
extract_answer render result = answer_query render extract_response_json result

abbrev pub stats_answer : Render → Result MetricsSnapshot → HttpResponse
stats_answer render result = answer_of render snapshot_json result

abbrev pub health_json : Text → ℕ → EngineHealth → Json
health_json status uptime health = fields (
    (text "status", string status)
    ∷ (text "version", string cargo_pkg_version)
    ∷ (text "uptime_seconds", number uptime)
    ∷ (text "engine_healthy", boolean health.healthy)
    ∷ (text "engine_last_checked", number health.last_checked)
    ∷ [])

-- `health_live_handler`, and `health_ready_handler`.
unfoldable pub live_answer : Render → Bool → ℕ → EngineHealth → HttpResponse
unfolding live_status
live_answer render shutting_down uptime health = record {
  status = 200;
  body = some (render (success (health_json (live_status shutting_down) uptime health)));
}

unfoldable pub ready_answer : Render → Bool → ℕ → EngineHealth → HttpResponse
unfolding ready_status
ready_answer render shutting_down uptime health =
    let (status, code) = ready_status shutting_down health in
    record { status = code; body = some (render (success (health_json status uptime health))) }
