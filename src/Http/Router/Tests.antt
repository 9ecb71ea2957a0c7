-- ===== src/Http/Router/Tests.antt =====
-- src/gateway/http.rs, `router` and `build_cors_layer`, on small requests.
use serica.Prelude.{◌≤◌, ◌<◌, ◌≡◌, refl, none, some, [], ◌∷◌, arith, text, text_eq}
use serica.Error.{service_unavailable}
use serica.Config.{default_config}
use serica.Http.{HttpResponse, into_response}
use serica.Http.Cors.{build_cors_layer, IsAllowed, build_cors_layer-IsAllowed}
use serica.Prelude.{◌↔◌, List, [], ◌∷◌, false}
use serica.Ssrf.Tests.{simple_urls}
use serica.Engine.{answered}
use serica.Engine.Tests.{plain}
use serica.Engine.Monitor.{Tick, monitored}
use serica.Http.Handlers.{ready_status}
use serica.Http.Handlers.Readiness.{LastGotPage, ready_iff}
use serica.Http.Router.{
  search_handler, extract_handler, route, too_many_requests, admitted, rejected, Request, Outside,
  serve,
}
use serica.Prelude.{true}
use serica.Http.Router.Envelopes.Layers.{IsAnswered}
use serica.Http.Router.Envelopes.Answered.{Results, gateway, gateway-IsAnswered}
use serica.Prelude.{ℕ, Option}
use serica.Error.{ok}
use serica.Json.{Json}
use serica.Models.{search_response_json, search_response_of}
use serica.Models.Trips.{Fits}
use serica.Http.Tests.{filtered}
use serica.Http.Bodies.{success, good_query}
use serica.Http.Router.Clients.{Reads, search_read}
use serica.Http.Router.Budget.{
  ComesWithin, serve-ComesWithin, timed_out_answer, extract_timeout_seen,
}

abbrev empty : HttpResponse
empty = record { status = 200; body = some [] }

-- No handler answers.
abbrev stalled : Outside
stalled = record {
  render = λ body. text "{}";
  from_governor = λ e. empty;
  not_found = empty;
  too_large = empty;
  general = admitted;
  extract = admitted;
  handle = λ h. none;
}

abbrev search : Request
search = record { path = text "/api/v1/search"; content_length = 0 }

search_found : route search.path ≡ some search_handler
unfolding route text_eq
search_found = refl

serve-ComesWithin_example : ComesWithin 4000 (serve default_config stalled search)
serve-ComesWithin_example =
    serve-ComesWithin default_config stalled search search_handler 4000 search_found refl

abbrev busy : Outside
busy = record stalled {
  general = rejected (too_many_requests none);
  extract = rejected (too_many_requests none);
}

-- The extraction runs into the 30 seconds of the default settings.
abbrev slow : Outside
slow = record stalled {
  handle =
      λ h. some (timed_out_answer default_config stalled (text "extract exceeded 30000ms") 30000);
}

abbrev extraction : Request
extraction = record { path = text "/api/v1/extract"; content_length = 0 }

extract_found : route extraction.path ≡ some extract_handler
unfolding route text_eq
extract_found = refl

extract_timeout_seen_example :
    (30000 ≤ 20000
      → serve default_config slow extraction
        ≡ some (timed_out_answer default_config slow (text "extract exceeded 30000ms") 30000))
    × (20000 < 30000
        → serve default_config slow extraction
          ≡ some (record {
            response = into_response slow.render (service_unavailable (text "Request timed out"));
            ms = 20000;
          }))
extract_timeout_seen_example =
    extract_timeout_seen default_config slow extraction (text "extract exceeded 30000ms") 30000 b'{'
      (b'}' ∷ []) extract_found (omega arith) refl refl refl (omega arith)

build_cors_layer-IsAllowed_example :
    IsAllowed
      (λ origin. none)
      (some (text "*"))
      (build_cors_layer (λ origin. none) (some (text "*")))
build_cors_layer-IsAllowed_example = build_cors_layer-IsAllowed (λ origin. none) (some (text "*"))

-- The first probe finds the engine blocking, the second finds a page.
abbrev ticks : List Tick
ticks =
    record { answer = answered 200 (text "page"); now = 61 }
    ∷ (record { answer = answered 403 []; now = 1 } ∷ [])

ready_iff_example :
    ((ready_status false (monitored ticks)).1 ≡ 200)
    ↔ ((false ≡ false) × LastGotPage simple_urls plain ticks)
ready_iff_example = ready_iff simple_urls plain false ticks

-- No handler ends, and the process shuts down.
abbrev none_ends : Results
none_ends = record {
  search = none;
  stats = none;
  extract = none;
  shutting_down = true;
  uptime = 9;
  health = record { healthy = true; last_checked = 0 };
}

gateway-IsAnswered_example :
    IsAnswered default_config
      (gateway default_config stalled none_ends)
      (serve default_config (gateway default_config stalled none_ends) search)
gateway-IsAnswered_example =
    gateway-IsAnswered default_config stalled none_ends search search_handler tt tt tt tt
      search_found (omega arith)

-- The search of the small request is found after 5 milliseconds.
abbrev found_soon : Results
found_soon = record none_ends { search = some (good_query (ok filtered), 5) }

-- A client that knows the one body.
abbrev parse : List ℕ → Option Json
parse bytes = some (success (search_response_json filtered))

small : Fits filtered
small = record { total = omega arith; page = omega arith; timing = omega arith }

search_read_example :
    Reads parse search_response_of filtered 5
      (serve default_config (gateway default_config stalled found_soon) search)
search_read_example =
    search_read default_config stalled found_soon parse search filtered 5 search_found (omega arith)
      refl refl (omega arith) small refl
