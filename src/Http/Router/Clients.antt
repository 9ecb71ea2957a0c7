-- ===== src/Http/Router/Clients.antt =====
-- What a client of src/gateway/http.rs reads from the body of a response, through the router.
use mathlib.Core.Option
use serica.Prelude.{ℕ, ◌*◌, ◌^◌, ◌≤◌, ◌<◌, ◌≡◌, refl, Option, some, List, le→leb, text, text_eq}
use serica.Error.{ok}
use serica.Config.{Config}
use serica.Json.{Json, get}
use serica.Gateway.{SearchResponse}
use serica.Extract.Pipeline.{ExtractResponse}
use serica.Models.{
  search_response_json, search_response_of, extract_response_json, extract_response_of,
}
use serica.Models.Trips.{Fits, search_response_trip, extract_response_trip}
use serica.Http.{HttpResponse, convert_timeout_response}
use serica.Http.Bodies.{success, answer_of, good_query, answer_query}
use serica.Http.Router.{
  search_handler, extract_handler, extract_budget_ms, route, admitted, Answer, Service,
  timeout_layer, Request, Outside, governor_layer, routed, serve,
}
use serica.Http.Router.Envelopes.Answered.{Results, gateway}

-- The `data` of a body, as a client reads it.
abbrev pub data_of :
    {A : Type 0} → (List ℕ → Option Json) → (Json → Option A) → HttpResponse → Option A
data_of parse read response =
    Option.bind (Option.bind (Option.bind response.body parse) (get (text "data"))) read

-- The client gets a response of status 200 after this time, and reads this value from it.
pub record Reads {A : Type 0} (parse : List ℕ → Option Json) (read : Json → Option A) (a : A)
    (ms : ℕ) (s : Service) : Type 0 where
  pub answer : Answer
  pub is_answer : s ≡ some answer
  pub succeeds : answer.response.status ≡ 200
  pub in_time : answer.ms ≡ ms
  pub value : data_of parse read answer.response ≡ some a

module _ (config : Config) (out : Outside) (results : Results) (parse : List ℕ → Option Json) where
  -- The client reads this value's JSON again as the server has printed it.
  abbrev pub ReadsBack : Json → Type 0
  ReadsBack j = parse (out.render j) ≡ some j

  -- A search that has found something, in time and within the limits, is read by the client as the
  -- very response that the handler has made, whatever the layers around it; if its numbers fit in
  -- their types and the client reads JSON as `serde_json` prints it.
  pub search_read :
      (request : Request) (r : SearchResponse) (ms : ℕ)
      → route request.path ≡ some search_handler
      → request.content_length ≤ 8 * 1024
      → out.general ≡ admitted
      → results.search ≡ some (good_query (ok r), ms)
      → ms ≤ config.search.default_timeout_ms
      → Fits r
      → ReadsBack (success (search_response_json r))
      → Reads parse search_response_of r ms (serve config (gateway config out results) request)
  unfolding serve routed governor_layer timeout_layer convert_timeout_response answer_query
      answer_of Option.bind get text_eq
  search_read request r ms found small open_ made soon fits back = record {
    answer = record {
      response = record {
        status = 200;
        body = some (out.render (success (search_response_json r)));
      };
      ms = ms;
    };
    is_answer = rw (le→leb _ _ small, found, open_, made, le→leb _ _ soon) refl;
    succeeds = refl;
    in_time = refl;
    value = rw back (search_response_trip r fits);
  }

  -- The same of an extraction, within its 20 seconds.
  pub extract_read :
      (request : Request) (r : ExtractResponse) (ms : ℕ)
      → route request.path ≡ some extract_handler
      → request.content_length ≤ 8 * 1024
      → out.extract ≡ admitted
      → results.extract ≡ some (good_query (ok r), ms)
      → ms ≤ extract_budget_ms
      → r.timing_ms < 2 ^ 64
      → ReadsBack (success (extract_response_json r))
      → Reads parse extract_response_of r ms (serve config (gateway config out results) request)
  unfolding serve routed governor_layer timeout_layer convert_timeout_response answer_query
      answer_of Option.bind get text_eq
  extract_read request r ms found small open_ made soon fits back = record {
    answer = record {
      response = record {
        status = 200;
        body = some (out.render (success (extract_response_json r)));
      };
      ms = ms;
    };
    is_answer = rw (le→leb _ _ small, found, open_, made, le→leb _ _ soon) refl;
    succeeds = refl;
    in_time = refl;
    value = rw back (extract_response_trip r fits);
  }
