-- ===== src/Http/Tests.antt =====
-- src/gateway/http.rs on small requests.
use mathlib.Core.Option
use serica.Prelude.{
  All, ℕ, ◌≡◌, refl, ◌↔◌, ◌⊎◌, false, ◌&&◌, none, some, List, [], ◌∷◌, map, arith, length, leb,
  text, text_eq, to_ascii_lowercase, trim,
}
use serica.Prelude.{true}
use serica.Error.{ok, err, invalid_query}
use serica.Error.Documented.{is_documented}
use serica.Http.Handlers.Documented.{by_extract, Reaches-is_documented}
use serica.Json.{Json}
use serica.Config.{default_config}
use serica.Fetch.{Unicode, Printer}
use serica.Ssrf.Fetch.{unwrap_or, fetch_extract_target}
use serica.Ssrf.Address.{is_forbidden_target}
use serica.Ssrf.Normalize.{normalize_extract_url}
use serica.Extract.Pipeline.{run_extract}
use serica.Extract.Pipeline.Guarded.{AreGuarded, IsDirect}
use serica.Extract.Tests as ExtractTests
use serica.Extract.Tests.{calm}
use serica.Http.Handlers.Guarded.{extract_handler-AreGuarded}
use serica.Ssrf.Tests.{simple_urls}
use serica.Gateway.{SearchRequest, SearchResponse, finalize_results}
use serica.Engine.{found}
use serica.Metrics.{new_metrics}
use serica.Http.{SearchParams, try_from_params, HttpResponse, convert_timeout_response}
use serica.Http.Key.{HeaderMap, extract_provided_key, check_api_key, check_api_key_iff}
use serica.Http.Request.{IsWellFormed, try_from_params-IsWellFormed}
use serica.Http.Handlers.{SearchEnv, search_handler, extract_handler}
use serica.Http.Handlers.Searching.{IsFreshSearch, search-IsFreshSearch}

abbrev pub plain : Printer
plain = record { show = λ n. [] }

abbrev pub ascii : Unicode
ascii = record {
  is_alphanumeric = λ c. leb 97 (to_ascii_lowercase c) && leb (to_ascii_lowercase c) 122;
  to_lowercase = map to_ascii_lowercase;
  from_utf8_lossy = λ bytes. bytes;
}

abbrev pub params : SearchParams
params = record { q = some (text " rust "); page = none; safe = none; lang = some (text "de") }

abbrev pub request : SearchRequest
request = record { query = text "rust"; page = 1; safe_search = 1; language = some (text "de") }

pub accepted : try_from_params ascii plain params 1 ≡ ok request
unfolding try_from_params to_ascii_lowercase
accepted = refl

try_from_params-IsWellFormed_example :
    IsWellFormed request
    × (request.query ≡ trim (unwrap_or params.q []))
    × (request.page ≡ unwrap_or params.page 1)
    × (request.safe_search ≡ unwrap_or params.safe 1)
try_from_params-IsWellFormed_example =
    try_from_params-IsWellFormed ascii plain params 1 request accepted

abbrev bearer : HeaderMap
bearer = record { authorization = some (text "Bearer k"); x_api_key = none }

provided_k : extract_provided_key bearer ≡ some (text "k")
unfolding extract_provided_key
provided_k = refl

check_api_key_iff_example :
    (check_api_key (some (text "k")) bearer ≡ ok tt) ↔ ((text "k" ≡ []) ⊎ (text "k" ≡ text "k"))
check_api_key_iff_example =
    check_api_key_iff (text "k") bearer (text "k") (omega arith, tt) (omega arith, tt) provided_k

abbrev pub env : SearchEnv
env = record {
  U = simple_urls;
  unicode = ascii;
  printer = plain;
  hasher = λ written. [];
  engine = λ query page language level.
      found (record { url = text "a"; title = text "Porn"; snippet = [] } ∷ []);
  from_slice = λ bytes. none;
  to_vec = λ response. some [];
}

abbrev pub filtered : SearchResponse
filtered = record { results = []; total_results = 0; page = 1; timing_ms = 3; cached = false }

searched :
    (search_handler env default_config 3 (λ key. none) new_metrics params).result ≡ ok filtered
unfolding search_handler try_from_params to_ascii_lowercase finalize_results text_eq
searched = refl

search-IsFreshSearch_example :
    IsFreshSearch env default_config 3 params
      (search_handler env default_config 3 (λ key. none) new_metrics params)
      filtered
search-IsFreshSearch_example =
    search-IsFreshSearch env default_config 3 (λ key. none) new_metrics params filtered searched
      refl

abbrev timeout_envelope : HttpResponse
timeout_envelope = record { status = 504; body = some (text "{}") }

abbrev no_render : Json → List ℕ
no_render body = []

passes : (convert_timeout_response no_render timeout_envelope).status ≡ 504
unfolding convert_timeout_response
passes = refl

trimmed : trim (unwrap_or params.q []) ≡ request.query
unfolding trim
trimmed = refl

lowered : Option.map (λ l. ascii.to_lowercase (trim l)) params.lang ≡ request.language
unfolding trim to_ascii_lowercase
lowered = refl

-- A request is sent, under a cap or not.
one_sent :
    length (extract_handler ExtractTests.env default_config calm (λ key. none) (text "a")).dials ≡ 1
unfolding extract_handler trim run_extract fetch_extract_target normalize_extract_url text_eq
    is_forbidden_target
one_sent = refl

extract_handler-AreGuarded_example :
    AreGuarded ExtractTests.env default_config
      (extract_handler ExtractTests.env default_config calm (λ key. none) (text "a")).dials
    × All
        (IsDirect ExtractTests.env default_config)
        (extract_handler ExtractTests.env default_config calm (λ key. none) (text "a")).dials
extract_handler-AreGuarded_example =
    extract_handler-AreGuarded ExtractTests.env default_config calm (λ key. none) (text "a") refl

-- A URL of spaces is refused.
no_url :
    (extract_handler ExtractTests.env default_config calm (λ key. none) (text " ")).result
    ≡ err (invalid_query (text "URL is empty"))
unfolding extract_handler trim
no_url = refl

Reaches-is_documented_example : is_documented (invalid_query (text "URL is empty")) ≡ true
Reaches-is_documented_example =
    Reaches-is_documented env ExtractTests.env default_config (invalid_query (text "URL is empty"))
      (by_extract calm (λ key. none) (text " ") no_url)
