-- ===== src/Engine.antt =====
-- src/engines/duckduckgo.rs: the adapter of the search engine, its parser and the health that is
-- recorded of it.
pub mod Types
pub mod Client
pub mod Results
pub mod Health
pub mod Monitor
pub mod Tests
use mathlib.Core.Option
use serica.Prelude.{
  ℕ, zero, suc, ◌+◌, ◌-◌, ◌*◌, ◌/◌, ◌%◌, ◌^◌, Bool, true, false, not, ◌&&◌, ◌||◌, Option, none,
  some, List, [], ◌∷◌, ◌++◌, ltb, leb, ◌==◌, if◌then◌else◌, is_empty, Text, text, text_eq, trim,
  starts_with, contains,
}
use serica.Gateway.{SearchResult}
use serica.Ssrf.Url.{UrlLib}
use serica.Ssrf.Fetch.{unwrap_or}
pub use Types.*

infixl 5 ◌>>=◌
-- The `?` of an `Option`.
abbrev pub ◌>>=◌ {ℓ κ} : {A : Type ℓ} {B : Type κ} → Option A → (A → Option B) → Option B
none >>= f = none
some a >>= f = f a

unfoldable pub is_challenge_page : ℕ → Text → Bool
unfolding contains
is_challenge_page status body =
    status == 202 && (contains (text "anomaly-modal") body || contains (text "challenge-form") body)

abbrev pub supported_languages : List Text
supported_languages = text "en" ∷ text "de" ∷ text "fr" ∷ text "es" ∷ []

unfoldable pub ddg_region_for_language : Text → Option Text
unfolding text_eq
ddg_region_for_language lang =
    if text_eq lang (text "en")
    then some (text "us-en")
    else if text_eq lang (text "de")
    then some (text "de-de")
    else if text_eq lang (text "fr")
    then some (text "fr-fr")
    else if text_eq lang (text "es")
    then some (text "es-es")
    else none

unfoldable pub ddg_kp_for_safe_search : ℕ → Text
ddg_kp_for_safe_search zero = text "-2"
ddg_kp_for_safe_search (suc zero) = text "-1"
ddg_kp_for_safe_search (suc (suc _)) = text "1"

-- `language.and_then(ddg_region_for_language)`
unfoldable pub region_of : Option Text → Option Text
unfolding ddg_region_for_language
region_of none = none
region_of (some language) = ddg_region_for_language language

abbrev pub kl_of : Option Text → Text
kl_of none = []
kl_of (some region) = text "&kl=" ++ region

-- `join(" ")`
unfoldable pub join : List Text → Text
join [] = []
join (s ∷ []) = s
join (s ∷ t ∷ ts) = s ++ b' ' ∷ join (t ∷ ts)

abbrev pub is_success_status : ℕ → Bool
is_success_status status = leb 200 status && ltb status 300

module _ (U : UrlLib) (lib : EngineLib) where
  -- `starts_with("//")` and `starts_with("http")`
  unfoldable pub absolute : Text → Option Text
  unfolding starts_with
  absolute href =
      if starts_with (text "//") href
      then some (text "https:" ++ href)
      else if starts_with (text "http") href
      then some href
      else none

  -- `find(|(k, _)| k == "uddg")`
  unfoldable pub find_uddg : List (Text × Text) → Option Text
  unfolding text_eq
  find_uddg [] = none
  find_uddg ((k, v) ∷ pairs) = if text_eq k (text "uddg") then some v else find_uddg pairs

  abbrev pub is_web : U.Url → Bool
  is_web url = text_eq (U.scheme url) (text "http") || text_eq (U.scheme url) (text "https")

  -- A target that is empty is refused.
  abbrev pub nonempty : Text → Option Text
  nonempty [] = none
  nonempty (c ∷ s) = some (c ∷ s)

  abbrev pub only_web : U.Url → Option Text
  only_web url = if not (is_web url) then none else some (U.as_str url)

  unfoldable pub extract_uddg_url : Text → Option Text
  unfolding absolute find_uddg
  extract_uddg_url href = do
    url ← absolute href
    parsed ← U.parse url
    value ← find_uddg (U.query_pairs parsed)
    target ← nonempty value
    parsed' ← U.parse target
    only_web parsed'

  abbrev pub texts_of : List Text → Text
  texts_of texts = trim (join texts)

  -- `and_then(|el| …)` of the title's link.
  unfoldable pub url_and_title : Option Link → Option (Text × Text)
  unfolding extract_uddg_url
  url_and_title link = do
    el ← link
    href ← el.href
    url ← extract_uddg_url href
    some (url, texts_of el.texts)

  unfoldable pub snippet_of : Option (List Text) → Text
  snippet_of none = []
  snippet_of (some texts) = texts_of texts

  -- One round of the loop: the result that is pushed, or `continue`.
  unfoldable pub result_of : Option (List Text) → Text × Text → List SearchResult
  unfolding snippet_of
  result_of snippet (url, title) =
      if is_empty url || is_empty title
      then []
      else record { url = url; title = title; snippet = snippet_of snippet } ∷ []

  unfoldable pub parse_containers : List Container → List SearchResult
  unfolding url_and_title result_of
  parse_containers [] = []
  parse_containers (el ∷ elements) =
      result_of el.snippet_texts (unwrap_or (url_and_title el.title_link) ([], []))
      ++ parse_containers elements

  unfoldable pub build_search_url : Text → Text → ℕ → Option Text → ℕ → Text
  unfolding region_of ddg_kp_for_safe_search
  build_search_url base query offset language safe_search =
      base
      ++ (text "?q="
          ++ (lib.byte_serialize query
              ++ (text "&s="
                  ++ (lib.show offset
                      ++ (kl_of (region_of language)
                          ++ (text "&kp=" ++ ddg_kp_for_safe_search safe_search))))))

  -- `(page.saturating_sub(1)) * 20` on u32
  abbrev pub offset_of : ℕ → ℕ
  offset_of page = (page - 1) * 20 % 2 ^ 32

  -- What is parsed, if anything.
  unfoldable pub check_results : Option (List SearchResult) → SearchOutcome
  check_results none = failed parse_panicked
  check_results (some []) = failed parse_empty
  check_results (some (r ∷ results)) = found (r ∷ results)

  -- What is made of the answer.
  unfoldable pub outcome_of : Answer → SearchOutcome
  unfolding is_challenge_page check_results parse_containers
  outcome_of (unsent e) = failed (transport e)
  outcome_of (unread status e) =
      if status == 403
      then failed blocked
      else if not (is_success_status status)
      then failed (upstream status)
      else failed (transport e)
  outcome_of (answered status body) =
      if status == 403
      then failed blocked
      else if not (is_success_status status)
      then failed (upstream status)
      else if is_challenge_page status body
      then failed challenged
      else check_results (Option.map parse_containers (lib.select_containers body))

  -- `get` is the request for a URL.
  unfoldable pub search : (Text → Answer) → Text → Text → ℕ → Option Text → ℕ → SearchOutcome
  unfolding build_search_url outcome_of
  search get search_url query page language safe_search =
      outcome_of (get (build_search_url search_url query (offset_of page) language safe_search))

-- What `probe_upstream` makes of the answer.
unfoldable pub probe_of : Answer → Bool
unfolding is_challenge_page
probe_of (unsent e) = false
probe_of (unread status e) = false
probe_of (answered status body) =
    if not (is_success_status status) then false else not (is_challenge_page status body)

-- `EngineHealth::new`
abbrev pub new_health : EngineHealth
new_health = record { healthy = true; last_checked = 0 }

-- `record`, at a time in Unix seconds.
unfoldable pub record_health : Bool → ℕ → EngineHealth → EngineHealth
record_health healthy now self = record { healthy = healthy; last_checked = now }
