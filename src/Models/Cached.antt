-- ===== src/Models/Cached.antt =====
-- The responses of src/models/extract.rs and src/models/search.rs in the cache that src/util/extract.rs,
-- src/gateway/http.rs and src/gateway/mcp.rs share.
use mathlib.Core.Option
use serica.Prelude.{ℕ, ◌≡◌, Option, some, List}
use serica.Config.{Config}
use serica.Json.{Json}
use serica.Models.{
  search_response_json, search_response_of, extract_response_json, extract_response_of,
}
use serica.Extract.Pipeline.{Env}
use serica.Http.Handlers.{SearchEnv}

-- How `serde_json` prints a value, and reads it.
module _ (print : Json → List ℕ) (parse : List ℕ → Option Json) where
  -- `serde_json` reads this value again as it has printed it.
  abbrev pub ReadsBack : Json → Type 0
  ReadsBack j = parse (print j) ≡ some j

  -- The crates, with the derived reading and writing.
  abbrev pub with_models : Env → Env
  with_models env = record env {
    from_slice = λ bytes. Option.bind (parse bytes) extract_response_of;
    to_vec = λ r. some (print (extract_response_json r));
  }

  abbrev pub with_search_models : SearchEnv → SearchEnv
  with_search_models env = record env {
    from_slice = λ bytes. Option.bind (parse bytes) search_response_of;
    to_vec = λ r. some (print (search_response_json r));
  }
