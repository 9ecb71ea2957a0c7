-- ===== src/Models/Trips.antt =====
-- The responses of src/models/search.rs and src/models/extract.rs, written and read again.
use serica.Prelude.{
  ◌^◌, ◌<◌, ◌≡◌, refl, Option, none, some, List, [], ◌∷◌, map, lt→ltb, Text, text_eq,
}
use serica.Json.{nullable, list}
use serica.Gateway.{SearchResult, SearchResponse}
use serica.Extract.Pipeline.{ExtractResponse}
use serica.Models.{
  search_result_json, search_response_json, extract_response_json, as_nullable, as_list,
  search_result_of, search_response_of, extract_response_of,
}

-- The numbers fit in the types of the fields.
pub record Fits (r : SearchResponse) : Type 0 where
  pub total : r.total_results < 2 ^ 64
  pub page : r.page < 2 ^ 32
  pub timing : r.timing_ms < 2 ^ 64

search_result_trip : (r : SearchResult) → search_result_of (search_result_json r) ≡ some r
unfolding search_result_of search_result_json text_eq
search_result_trip r = refl

results_trip :
    (rs : List SearchResult) → as_list search_result_of (list (map search_result_json rs)) ≡ some rs
results_trip [] = refl
results_trip (r ∷ rs) = rw (search_result_trip r, results_trip rs) refl

nullable_trip : (o : Option Text) → as_nullable (nullable o) ≡ some o
nullable_trip none = refl
nullable_trip (some s) = refl

-- A search response is read again as it was written, if its numbers fit in their types.
pub search_response_trip :
    (r : SearchResponse) → Fits r → search_response_of (search_response_json r) ≡ some r
unfolding search_response_of search_response_json text_eq
search_response_trip r fits =
    rw (results_trip r.results, lt→ltb _ _ fits.total, lt→ltb _ _ fits.page, lt→ltb _ _ fits.timing)
      refl

-- A response to an extraction is read again as it was written, if its time fits in 64 bits.
pub extract_response_trip :
    (r : ExtractResponse)
    → r.timing_ms < 2 ^ 64
    → extract_response_of (extract_response_json r) ≡ some r
unfolding extract_response_of extract_response_json text_eq
extract_response_trip r fits =
    rw
      (
        nullable_trip r.title,
        nullable_trip r.author,
        nullable_trip r.date,
        nullable_trip r.sitename,
        nullable_trip r.page_type,
        nullable_trip r.content,
        nullable_trip r.excerpt,
        lt→ltb _ _ fits,
      )
      refl
