-- ===== src/Http.antt =====
-- src/gateway/http.rs: the checks of the parameters, the rate limits, the API key, and the handlers.
pub mod Request
pub mod Key
pub mod Handlers
pub mod Bodies
pub mod Router
pub mod Cors
pub mod Tests
use mathlib.Core.Option
use serica.Prelude.{
  ℕ, ◌/◌, max, Bool, true, false, not, ◌&&◌, Option, none, some, List, [], ◌∷◌, ◌++◌, leb, ◌==◌,
  if◌then◌else◌, length, is_empty, all, Text, text, len, trim,
}
use serica.Json.{Json}
use serica.Error.{
  AppError, invalid_query, invalid_page, invalid_safe_search, invalid_language, internal,
  service_unavailable, Result, ok, ◌>>=◌, ◌>>◌, guard, error_body, to_http_parts,
}
use serica.Fetch.{Unicode, Printer}
use serica.Ssrf.Fetch.{unwrap_or}
use serica.Gateway.{SearchRequest}
use serica.Engine.{
  SearchError, blocked, challenged, upstream, transport, parse_empty, parse_panicked,
  supported_languages, ddg_region_for_language,
}

pub record SearchParams : Type 0 where
  pub q : Option Text
  pub page : Option ℕ
  pub safe : Option ℕ
  pub lang : Option Text

-- `char::is_ascii_lowercase`
abbrev pub is_ascii_lowercase : ℕ → Bool
is_ascii_lowercase c = leb b'a' c && leb c b'z'

abbrev pub is_some {ℓ} : {A : Type ℓ} → Option A → Bool
is_some none = false
is_some (some a) = true

-- `join(", ")`
unfoldable pub join_comma : List Text → Text
join_comma [] = []
join_comma (s ∷ []) = s
join_comma (s ∷ t ∷ ts) = s ++ b',' ∷ b' ' ∷ join_comma (t ∷ ts)

-- `lang.len() == 2 && lang.chars().all(|c| c.is_ascii_lowercase())`
abbrev pub is_code : Text → Bool
is_code lang = len lang == 2 && all is_ascii_lowercase lang

-- `if let Some(ref lang) = language { … }`
unfoldable pub check_language : Option Text → Result (Unit {0})
unfolding ddg_region_for_language join_comma
check_language none = ok tt
check_language (some lang) = do
  guard (is_code lang) (
      invalid_language
        (text "Invalid language code: " ++ (lang ++ text ". Expected 2-letter ISO 639-1 code")))
  guard (is_some (ddg_region_for_language lang)) (
      invalid_language (
        text "Unsupported language code: "
        ++ (lang ++ (text ". Supported languages: " ++ join_comma supported_languages))))

module _ (unicode : Unicode) (printer : Printer) where
  unfoldable pub try_from_params : SearchParams → ℕ → Result SearchRequest
  unfolding check_language trim
  try_from_params params default_safe_search = do
    let trimmed = trim (unwrap_or params.q [])
    guard (not (is_empty trimmed)) (invalid_query (text "Query is empty"))
    guard (leb (length trimmed) 500)
        (invalid_query (text "Query exceeds maximum length of 500 characters"))
    let page = unwrap_or params.page 1
    guard (leb 1 page && leb page 50)
        (invalid_page (text "Page must be between 1 and 50, got " ++ printer.show page))
    let safe_search = unwrap_or params.safe default_safe_search
    guard (leb safe_search 2) (invalid_safe_search safe_search)
    let language = Option.map (λ l. unicode.to_lowercase (trim l)) params.lang
    check_language language
    ok (record { query = trimmed; page = page; safe_search = safe_search; language = language })

-- The token bucket that the governor is told.
pub record GovernorConfig : Type 0 where
  pub period_ms : ℕ
  pub burst_size : ℕ

unfoldable pub build_governor_config : ℕ → GovernorConfig
build_governor_config requests_per_minute =
    let effective_rpm = max requests_per_minute 1 in
    record { period_ms = max (60000 / effective_rpm) 1; burst_size = effective_rpm }

-- The budget of `/api/v1/extract`, in `router`.
abbrev pub extract_rate_limit_per_minute : ℕ → ℕ
extract_rate_limit_per_minute general = max (general / 4) 1

-- A response by its status and its body, `none` where the body cannot be read.
pub record HttpResponse : Type 0 where
  pub status : ℕ
  pub body : Option (List ℕ)

-- How `serde_json` prints the JSON of a body.
abbrev pub Render : Type 0
Render = Json → List ℕ

unfoldable pub into_response : Render → AppError → HttpResponse
into_response render e =
    let p = to_http_parts e in record { status = p.status; body = some (render (error_body p)) }

-- `Ok(bytes) if bytes.is_empty()`, `Ok(bytes)` and `Err(_)`; `to_bytes` fails above 8192 bytes.
unfoldable pub rewrap : Render → HttpResponse → Option (List ℕ) → HttpResponse
unfolding into_response
rewrap render response none = into_response render (service_unavailable (text "Request timed out"))
rewrap render response (some []) =
    into_response render (service_unavailable (text "Request timed out"))
rewrap render response (some (b ∷ bytes)) =
    if leb (length (b ∷ bytes)) 8192
    then response
    else into_response render (service_unavailable (text "Request timed out"))

unfoldable pub convert_timeout_response : Render → HttpResponse → HttpResponse
unfolding rewrap
convert_timeout_response render response =
    if not (response.status == 504) then response else rewrap render response response.body

-- `SearchError`'s `Display`, with the status as it is printed.
abbrev pub display : (ℕ → Text) → SearchError → Text
display show blocked = text "upstream blocked the request (403)"
display show challenged = text "upstream returned an anti-bot challenge (202) instead of results"
display show (upstream status) = text "upstream returned non-success status: " ++ show status
display show (transport e) = text "transport error: " ++ e
display show parse_empty = text "upstream returned a success status but zero results were parsed"
display show parse_panicked = text "search result parser task panicked"

unfoldable pub map_search_error : (ℕ → Text) → SearchError → Option AppError
map_search_error show parse_empty = none
map_search_error show blocked =
    some (service_unavailable (text "Search engine is currently blocked upstream"))
map_search_error show challenged =
    some (service_unavailable (text "Search engine is presenting an anti-bot challenge upstream"))
map_search_error show (upstream status) =
    some (service_unavailable (display show (upstream status)))
map_search_error show (transport e) = some (service_unavailable (display show (transport e)))
map_search_error show parse_panicked = some (internal (display show parse_panicked))
