-- ===== src/Gateway.antt =====
-- src/gateway/mod.rs and src/models/search.rs: the cache keys and the step that both gateways share
-- behind a search: the local safe-search filter and the page-size cap.
pub mod Words
pub mod Filter
mod Tests
use serica.Prelude.{
  ℕ, zero, suc, ◌+◌, Bool, false, not, Option, none, some, List, [], ◌∷◌, ◌++◌, map, if◌then◌else◌,
  length, take, any, retain, Text, text, text_eq, to_ascii_lowercase,
}
use serica.Ssrf.Url.{UrlLib}
use serica.Ssrf.Fetch.{unwrap_or}
use serica.Fetch.{Unicode}

pub record SearchRequest : Type 0 where
  pub query : Text
  pub page : ℕ
  pub safe_search : ℕ
  pub language : Option Text

-- `env!("CARGO_PKG_VERSION")`, of Cargo.toml.
abbrev pub cargo_pkg_version : Text
cargo_pkg_version = text "0.2.0"

pub record SearchResult : Type 0 where
  pub url : Text
  pub title : Text
  pub snippet : Text

pub record SearchResponse : Type 0 where
  pub results : List SearchResult
  pub total_results : ℕ
  pub page : ℕ
  pub timing_ms : ℕ
  pub cached : Bool

-- What is written to a `DefaultHasher`, one item for each `hash` call.
pub data Hashed : Type 0 where
  str : Text → Hashed
  uint : ℕ → Hashed
  opt : Option Text → Hashed

-- `finish` behind these writes, printed by `{:016x}`.
abbrev pub Hasher : Type 0
Hasher = List Hashed → Text

unfoldable pub cache_key : Hasher → SearchRequest → Text
cache_key finish req =
    text "serica:v1:search:"
    ++ finish (str req.query ∷ uint req.page ∷ uint req.safe_search ∷ opt req.language ∷ [])

unfoldable pub extract_cache_key : (U : UrlLib) → Hasher → U.Url → Text
extract_cache_key U finish url = text "serica:v1:extract:" ++ finish (str (U.as_str url) ∷ [])

abbrev pub safe_search_blocklist_strict : List Text
safe_search_blocklist_strict =
    text "porn"
    ∷ text "xxx"
    ∷ text "adult"
    ∷ text "nsfw"
    ∷ text "sex"
    ∷ text "pornography"
    ∷ text "explicit"
    ∷ text "nude"
    ∷ text "nudity"
    ∷ text "erotic"
    ∷ text "fetish"
    ∷ text "hentai"
    ∷ text "onlyfans"
    ∷ text "escort"
    ∷ text "camgirl"
    ∷ text "webcam"
    ∷ text "stripper"
    ∷ text "stripclub"
    ∷ []

abbrev pub safe_search_blocklist_moderate : List Text
safe_search_blocklist_moderate =
    text "porn"
    ∷ text "xxx"
    ∷ text "nsfw"
    ∷ text "pornography"
    ∷ text "explicit"
    ∷ text "nudity"
    ∷ text "erotic"
    ∷ text "fetish"
    ∷ text "hentai"
    ∷ text "onlyfans"
    ∷ text "escort"
    ∷ text "camgirl"
    ∷ text "stripper"
    ∷ text "stripclub"
    ∷ []

-- The character joins the first of the words.
unfoldable pub grow : ℕ → List Text → List Text
grow c [] = (c ∷ []) ∷ []
grow c (word ∷ words) = (c ∷ word) ∷ words

-- `str::split` at the characters that pass the test.
unfoldable pub split : (ℕ → Bool) → Text → List Text
unfolding grow
split is_separator [] = [] ∷ []
split is_separator (c ∷ s) =
    let words = split is_separator s in if is_separator c then [] ∷ words else grow c words

-- `blocklist.contains(word.to_ascii_lowercase())`
unfoldable pub is_blocked : List Text → Text → Bool
is_blocked blocklist word = any (text_eq (map to_ascii_lowercase word)) blocklist

module _ (U : UrlLib) (unicode : Unicode) where
  -- `Url::parse(&r.url).ok().and_then(|u| u.host_str()).unwrap_or_default()`
  unfoldable pub host_of : Text → Text
  host_of url = unwrap_or (elim (U.parse url) [ none ↦ none | some u ↦ U.host_str u ]) []

  abbrev pub is_separator : ℕ → Bool
  is_separator c = not (unicode.is_alphanumeric c)

  unfoldable pub is_clean : List Text → SearchResult → Bool
  unfolding split is_blocked host_of
  is_clean blocklist r = not (
      any (is_blocked blocklist) (
        split is_separator r.title
        ++ (split is_separator r.snippet ++ split is_separator (host_of r.url))))

  unfoldable pub apply_safe_search_filter : List SearchResult → ℕ → List SearchResult
  unfolding is_clean
  apply_safe_search_filter results zero = results
  apply_safe_search_filter results (suc zero) =
      retain (is_clean safe_search_blocklist_moderate) results
  apply_safe_search_filter results (suc (suc _)) =
      retain (is_clean safe_search_blocklist_strict) results

  unfoldable pub finalize_results : List SearchResult → SearchRequest → ℕ → ℕ → SearchResponse
  unfolding apply_safe_search_filter
  finalize_results results req max_per_page timing_ms =
      let filtered = apply_safe_search_filter results req.safe_search in
      record {
        results = take max_per_page filtered;
        total_results = length filtered;
        page = req.page;
        timing_ms = timing_ms;
        cached = false;
      }
