-- ===== src/Http/Router/Envelopes.antt =====
-- The envelope around each body of src/gateway/http.rs.
pub mod Layers
pub mod Answered
use serica.Prelude.{ℕ, ◌≤◌, ◌≡◌, refl, Bool, true, false, none, some, Text, text, text_eq}
use serica.Error.{AppError, Result, ok, err, error_body, to_http_parts, to_http_parts_status}
use serica.Engine.{EngineHealth}
use serica.Json.{Json, boolean, string, get}
use serica.Http.{Render, HttpResponse, into_response}
use serica.Http.Bodies.{success, answer_of, live_answer, ready_answer}

-- The two shapes of a body: a success with its data, and a failure with the code and the message of
-- its error. A failure has a status from 400 to 504.
pub data IsEnvelope (status : ℕ) (j : Json) : Type 0 where
  successful :
      {data_of : Json}
      → get (text "success") j ≡ some (boolean true)
      → get (text "data") j ≡ some data_of
      → get (text "error") j ≡ none
      → IsEnvelope status j
  failed :
      {e : Json} {code message : Text}
      → (400 ≤ status) × (status ≤ 504)
      → get (text "success") j ≡ some (boolean false)
      → get (text "data") j ≡ none
      → get (text "error") j ≡ some e
      → get (text "code") e ≡ some (string code)
      → get (text "message") e ≡ some (string message)
      → IsEnvelope status j

-- The body is an envelope that is printed.
pub record IsEnveloped (render : Render) (response : HttpResponse) : Type 0 where
  pub json : Json
  pub is_body : response.body ≡ some (render json)
  pub envelope : IsEnvelope response.status json

success-IsEnveloped :
    (render : Render) (status : ℕ) (j : Json)
    → IsEnveloped render (record { status = status; body = some (render (success j)) })
unfolding get text_eq
success-IsEnveloped render status j = record {
  json = success j;
  is_body = refl;
  envelope = successful refl refl refl;
}

pub into_response-IsEnveloped :
    (render : Render) (e : AppError) → IsEnveloped render (into_response render e)
unfolding into_response get text_eq
into_response-IsEnveloped render e = record {
  json = error_body (to_http_parts e);
  is_body = refl;
  envelope = failed (to_http_parts_status e) refl refl refl refl refl;
}

-- The answers of the handlers are envelopes.
pub answer_of-IsEnveloped :
    {A : Type 0} (render : Render) (json : A → Json) (result : Result A)
    → IsEnveloped render (answer_of render json result)
unfolding answer_of
answer_of-IsEnveloped render json (ok a) = success-IsEnveloped render 200 (json a)
answer_of-IsEnveloped render json (err e) = into_response-IsEnveloped render e

pub live_answer-IsEnveloped :
    (render : Render) (shutting_down : Bool) (uptime : ℕ) (health : EngineHealth)
    → IsEnveloped render (live_answer render shutting_down uptime health)
unfolding live_answer
live_answer-IsEnveloped render shutting_down uptime health = success-IsEnveloped render 200 _

pub ready_answer-IsEnveloped :
    (render : Render) (shutting_down : Bool) (uptime : ℕ) (health : EngineHealth)
    → IsEnveloped render (ready_answer render shutting_down uptime health)
unfolding ready_answer
ready_answer-IsEnveloped render shutting_down uptime health = success-IsEnveloped render _ _
