-- ===== src/Mcp/Wire.antt =====
-- src/gateway/mcp.rs: the JSON of a response, as its `Serialize` attributes give it.
use mathlib.Core.Option
use serica.Prelude.{Option, none, some, List, [], ◌∷◌, ◌++◌, Text, text}
use serica.Json.{Json, minus, string, fields}
use serica.Mcp.{JsonRpcErrorObject}
use serica.Mcp.Server.{JsonRpcResponse}

-- `skip_serializing_if = "Option::is_none"`
abbrev pub optional : Text → Option Json → List (Text × Json)
optional key none = []
optional key (some value) = (key, value) ∷ []

-- The `data` of an error: the field and what is wrong with it.
abbrev pub data_json : Text × Text → Json
data_json (field, message) =
    fields ((text "field", string field) ∷ (text "message", string message) ∷ [])

unfoldable pub error_json : JsonRpcErrorObject → Json
error_json e = fields (
    (text "code", minus e.minus_code)
    ∷ (text "message", string e.message)
    ∷ optional (text "data") (Option.map data_json e.data_of))

unfoldable pub response_json : JsonRpcResponse → Json
response_json r = fields (
    (text "jsonrpc", string r.jsonrpc)
    ∷ (text "id", r.id)
    ∷ (optional (text "result") r.result
        ++ optional (text "error") (Option.map error_json r.error)))
