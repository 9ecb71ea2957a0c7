-- ===== src/Gateway/Tests.antt =====
-- The safe-search filter of src/gateway/mod.rs on a few results.
use serica.Prelude.{
  ◌≡◌, refl, ◌↔◌, true, false, ◌&&◌, none, map, leb, text, text_eq, to_ascii_lowercase,
}
use serica.Fetch.{Unicode}
use serica.Gateway.{SearchRequest, SearchResult, is_clean}
use serica.Gateway.Filter.{IsClean, is_clean_iff, blocklist_at}
use serica.Ssrf.Tests.{simple_urls}

abbrev ascii : Unicode
ascii = record {
  is_alphanumeric = λ c. leb 97 (to_ascii_lowercase c) && leb (to_ascii_lowercase c) 122;
  to_lowercase = map to_ascii_lowercase;
  from_utf8_lossy = λ bytes. bytes;
}

abbrev course : SearchResult
course = record { url = text "a"; title = text "Adult education"; snippet = text "Essex" }

abbrev request : SearchRequest
request = record { query = text "q"; page = 1; safe_search = 2; language = none }

is_clean_iff_example :
    (is_clean simple_urls ascii (blocklist_at 2) course ≡ true)
    ↔ IsClean simple_urls ascii (blocklist_at 2) course
is_clean_iff_example = is_clean_iff simple_urls ascii (blocklist_at 2) course

-- Level 2 drops what level 1 keeps.
levels :
    (is_clean simple_urls ascii (blocklist_at 2) course ≡ false)
    × (is_clean simple_urls ascii (blocklist_at 1) course ≡ true)
unfolding is_clean text_eq to_ascii_lowercase
levels = (refl, refl)
