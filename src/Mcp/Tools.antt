-- ===== src/Mcp/Tools.antt =====
-- src/gateway/mcp.rs: the JSON of the results, the list of the tools, and what is read of the
-- arguments.
pub mod Schema
use mathlib.Core.Option
use serica.Prelude.{false, Option, List, [], ◌∷◌, map, Text, text}
use serica.Gateway.{cargo_pkg_version}
use serica.Json.{Json, boolean, number, string, list, fields, get, as_str, as_u64}
use serica.Mcp.{SearchArgs, protocol_version}

-- `args.get(…).and_then(|v| v.as_str())`, and the like for a number.
unfoldable pub search_args : Json → SearchArgs
unfolding get as_str as_u64 Option.bind
search_args args = record {
  query = Option.bind (get (text "query") args) as_str;
  page = Option.bind (get (text "page") args) as_u64;
  safe_search = Option.bind (get (text "safe_search") args) as_u64;
  language = Option.bind (get (text "language") args) as_str;
}

-- The result of `tool_call_result`.
unfoldable pub tool_content : Text → Json
tool_content s = fields (
    (
      text "content",
      list (fields ((text "type", string (text "text")) ∷ (text "text", string s) ∷ []) ∷ []),
    )
    ∷ (text "isError", boolean false)
    ∷ [])

-- `params.and_then(|p| p.get("protocolVersion")).and_then(|v| v.as_str())`
unfoldable pub asked_version : Option Json → Option Text
unfolding get as_str Option.bind
asked_version params = Option.bind (Option.bind params (get (text "protocolVersion"))) as_str

-- The result of `handle_initialize`.
unfoldable pub initialize_result : Option Text → Json
unfolding protocol_version
initialize_result asked = fields (
    (text "protocolVersion", string (protocol_version asked))
    ∷ (
      text "serverInfo",
      fields
          ((text "name", string (text "serica")) ∷ (text "version", string cargo_pkg_version) ∷ []),
    )
    ∷ (text "capabilities", fields ((text "tools", fields []) ∷ []))
    ∷ [])

-- A property of an input schema: its type, its description, and what is said of it besides.
abbrev property : Text → Text → List (Text × Json) → Json
property type description others =
    fields ((text "type", string type) ∷ (text "description", string description) ∷ others)

abbrev tool : Text → Text → List (Text × Json) → Text → Json
tool name description properties required_one = fields (
    (text "name", string name)
    ∷ (text "description", string description)
    ∷ (
      text "inputSchema",
      fields (
          (text "type", string (text "object"))
          ∷ (text "properties", fields properties)
          ∷ (text "required", list (string required_one ∷ []))
          ∷ []),
    )
    ∷ [])

-- The codes that the schema of `serica_search` lists.
abbrev pub listed_languages : List Text
listed_languages = text "en" ∷ text "de" ∷ text "fr" ∷ text "es" ∷ []

abbrev search_properties : List (Text × Json)
search_properties =
    (text "query", property (text "string") (text "Search query (1-500 characters)") [])
    ∷ (
      text "page",
      property (text "integer") (text "Page number (1-50)") ((text "default", number 1) ∷ []),
    )
    ∷ (
      text "safe_search",
      property (text "integer") (text "Safe search level: 0=off, 1=moderate, 2=strict") (
          (text "default", number 1)
          ∷ (text "enum", list (number 0 ∷ number 1 ∷ number 2 ∷ []))
          ∷ []),
    )
    ∷ (
      text "language",
      property (text "string")
          (text
            "2-letter ISO 639-1 language code. Only 'en', 'de', 'fr', and 'es' are supported — results are constrained via DuckDuckGo's own region parameter for these. Any other code is rejected.")
          ((text "enum", list (map string listed_languages)) ∷ []),
    )
    ∷ []

abbrev extract_properties : List (Text × Json)
extract_properties =
    (
      text "url",
      property (text "string") (text "The URL of the page to extract content from")
          ((text "format", string (text "uri")) ∷ []),
    )
    ∷ []

-- The result of `handle_tools_list`.
abbrev pub tools_list : Json
tools_list = fields (
    (
      text "tools",
      list (
          tool (text "serica_search") (text "Search the web using DuckDuckGo.") search_properties
            (text "query")
          ∷ tool (text "serica_extract")
              (text
                "Fetch a URL and extract clean article content (title, author, date, main text, excerpt). Strips ads, nav, and boilerplate. Content is returned as Markdown by default (server-configured).")
              extract_properties (text "url")
          ∷ []),
    )
    ∷ [])
