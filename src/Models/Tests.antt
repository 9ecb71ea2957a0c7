-- ===== src/Models/Tests.antt =====
-- The responses of src/models in a small world.
use serica.Prelude.{ℕ, ◌≡◌, refl, Option, none, some, List, []}
use serica.Json.{Json, fields}
use serica.Extract.Pipeline.{Store}
use serica.Extract.Tests as ExtractTests
use serica.Extract.Tests.{empty_response}
use serica.Http.Tests as HttpTests
use serica.Http.Tests.{filtered}
use serica.Models.{search_response_json, extract_response_json, extract_response_of}

-- `serde_json` for one value.
abbrev print : Json → List ℕ
print j = []

abbrev parse_extract : List ℕ → Option Json
parse_extract bytes = some (extract_response_json empty_response)

abbrev parse_search : List ℕ → Option Json
parse_search bytes = some (search_response_json filtered)

-- Nothing is cached yet.
abbrev no_store : Store
no_store key = none

-- A response needs more than an empty object.
incomplete : extract_response_of (fields []) ≡ none
unfolding extract_response_of
incomplete = refl

-- A store that holds this response, whatever it is asked for.
abbrev holding : Json → Store
holding j key = some (print j)
