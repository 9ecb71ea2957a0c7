-- ===== src/Models.antt =====
-- src/models/search.rs and src/models/extract.rs: what `Serialize` and `Deserialize` derive for the
-- responses. A field of an `Option` is null where there is none, and may be absent; any other field
-- must be there, and of its type; other fields are passed over.
pub mod Trips
pub mod Cached
mod Tests
use serica.Prelude.{ℕ, ◌^◌, Option, none, some, List, [], ◌∷◌, map, ltb, if◌then◌else◌, Text, text}
use serica.Json.{
  Json, null, boolean, number, string, array, Items, no_item, item, list, fields, get, as_str,
  as_u64, as_bool, nullable,
}
use serica.Gateway.{SearchResult, SearchResponse}
use serica.Extract.Pipeline.{ExtractResponse}

infixl 5 ◌>>=◌
abbrev ◌>>=◌ {ℓ κ} :
    {Field : Type ℓ} {Model : Type κ} → Option Field → (Field → Option Model) → Option Model
none >>= read = none
some field >>= read = read field

unfoldable pub search_result_json : SearchResult → Json
search_result_json r = fields (
    (text "url", string r.url)
    ∷ (text "title", string r.title)
    ∷ (text "snippet", string r.snippet)
    ∷ [])

unfoldable pub search_response_json : SearchResponse → Json
unfolding search_result_json
search_response_json r = fields (
    (text "results", list (map search_result_json r.results))
    ∷ (text "total_results", number r.total_results)
    ∷ (text "page", number r.page)
    ∷ (text "timing_ms", number r.timing_ms)
    ∷ (text "cached", boolean r.cached)
    ∷ [])

unfoldable pub extract_response_json : ExtractResponse → Json
extract_response_json r = fields (
    (text "url", string r.url)
    ∷ (text "title", nullable r.title)
    ∷ (text "author", nullable r.author)
    ∷ (text "date", nullable r.date)
    ∷ (text "sitename", nullable r.sitename)
    ∷ (text "page_type", nullable r.page_type)
    ∷ (text "content", nullable r.content)
    ∷ (text "excerpt", nullable r.excerpt)
    ∷ (text "timing_ms", number r.timing_ms)
    ∷ (text "cached", boolean r.cached)
    ∷ [])

-- A number that fits in a `u32`.
unfoldable pub as_u32 : Json → Option ℕ
as_u32 (number n) = if ltb n (2 ^ 32) then some n else none
as_u32 _ = none

-- An `Option<String>` that is there.
abbrev pub as_nullable : Json → Option (Option Text)
as_nullable null = some none
as_nullable (string s) = some (some s)
as_nullable _ = none

-- An `Option<String>` that may be absent.
abbrev pub if_any : Option Json → Option (Option Text)
if_any none = some none
if_any (some value) = as_nullable value

abbrev pub read_items : {A : Type 0} → (Json → Option A) → Items → Option (List A)
read_items read no_item = some []
read_items read (item value rest) = do
  let others = read_items read rest
  a ← read value
  found ← others
  some (a ∷ found)

abbrev pub as_list : {A : Type 0} → (Json → Option A) → Json → Option (List A)
as_list read (array items) = read_items read items
as_list read _ = none

unfoldable pub search_result_of : Json → Option SearchResult
unfolding get as_str
search_result_of j = do
  url ← get (text "url") j >>= as_str
  title ← get (text "title") j >>= as_str
  snippet ← get (text "snippet") j >>= as_str
  some (record { url = url; title = title; snippet = snippet })

unfoldable pub search_response_of : Json → Option SearchResponse
unfolding get as_u64 as_bool as_u32 search_result_of
search_response_of j = do
  results ← get (text "results") j >>= as_list search_result_of
  total_results ← get (text "total_results") j >>= as_u64
  page ← get (text "page") j >>= as_u32
  timing_ms ← get (text "timing_ms") j >>= as_u64
  cached ← get (text "cached") j >>= as_bool
  some (record {
    results = results;
    total_results = total_results;
    page = page;
    timing_ms = timing_ms;
    cached = cached;
  })

unfoldable pub extract_response_of : Json → Option ExtractResponse
unfolding get as_str as_u64 as_bool
extract_response_of j = do
  url ← get (text "url") j >>= as_str
  title ← if_any (get (text "title") j)
  author ← if_any (get (text "author") j)
  date ← if_any (get (text "date") j)
  sitename ← if_any (get (text "sitename") j)
  page_type ← if_any (get (text "page_type") j)
  content ← if_any (get (text "content") j)
  excerpt ← if_any (get (text "excerpt") j)
  timing_ms ← get (text "timing_ms") j >>= as_u64
  cached ← get (text "cached") j >>= as_bool
  some (record {
    url = url;
    title = title;
    author = author;
    date = date;
    sitename = sitename;
    page_type = page_type;
    content = content;
    excerpt = excerpt;
    timing_ms = timing_ms;
    cached = cached;
  })
