-- ===== src/Mcp/Tests.antt =====
-- src/gateway/mcp.rs on small arguments.
use serica.Prelude.{◌≡◌, refl, true, none, some, [], arith, text}
use serica.Prelude.{[], ◌∷◌, text_eq, trim}
use serica.Json.{Json, string, fields, get}
use serica.Mcp.Tools.Schema.{FitsSchema}
use serica.Error.{ok}
use serica.Fetch.{Unicode, Printer}
use serica.Gateway.{SearchRequest}
use serica.Http.{try_from_params}
use serica.Mcp.{SearchArgs, done, search_request}
use serica.Mcp.Arguments.{same_request}

abbrev args : SearchArgs
args = record {
  query = some (text " rust ");
  page = some 2;
  safe_search = none;
  language = some (text "de");
}

abbrev request : SearchRequest
request = record { query = text "rust"; page = 2; safe_search = 1; language = some (text "de") }

accepted : search_request args ≡ done request
unfolding search_request
accepted = refl

abbrev keeping : Unicode
keeping = record {
  is_alphanumeric = λ c. true;
  to_lowercase = λ s. s;
  from_utf8_lossy = λ bytes. bytes;
}

abbrev plain : Printer
plain = record { show = λ n. [] }

same_request_example :
    try_from_params keeping plain
      (record { q = some (text " rust "); page = some 2; safe = none; lang = some (text "de") })
      1
    ≡ ok request
same_request_example =
    same_request keeping plain args request (λ s h. refl) (omega arith) (omega arith) accepted

-- Page 2^32 + 2 is accepted, as page 2.
wrapped : search_request (record args { page = some 4294967298 }) ≡ done request
unfolding search_request
wrapped = refl

-- Arguments as a client sends them.
abbrev schema_args : Json
schema_args =
    fields ((text "query", string (text " rust ")) ∷ (text "language", string (text "de")) ∷ [])

fits : FitsSchema schema_args (text " rust ") none none (some (text "de"))
unfolding get text_eq trim
fits = record {
  has_query = refl;
  has_page = refl;
  has_safe_search = refl;
  has_language = refl;
  characters = omega arith;
  pages = omega arith;
  levels = omega arith;
  listed = refl;
}
