-- ===== src/Mcp/Server/Valid.antt =====
-- The JSON that src/gateway/mcp.rs sends, beside what JSON-RPC 2.0 says of a response.
use serica.Prelude.{
  ℕ, ◌≤◌, ◌≡◌, refl, sym, ◌⊎◌, inl, inr, Option, none, some, ◌++◌, arith, Bool-cases, Text, text,
  text_eq,
}
use serica.Config.{Config}
use serica.Metrics.{MetricsCollector}
use serica.Extract.Pipeline.{Store, Weather}
use serica.Json.{Json, null, minus, string, get}
use mathlib.Core.Path.{subst}
use serica.Mcp.{JsonRpcErrorObject, jsonrpc_error, Rpc, done, refused}
use serica.Mcp.Server.Replies.{respond-id}
use serica.Mcp.Wire.{error_json, response_json}
use serica.Mcp.Server.{
  JsonRpcRequest, Parsed, request, malformed, JsonRpcResponse, respond, McpEnv, dispatch, reply,
  handle_parsed, handle_message,
}
use serica.Mcp.Server.Coded.{IsReserved, AreReserved}
use serica.Mcp.Server.Provided.{dispatch-AreReserved}

-- The value has this field, or has it not.
abbrev Has : Text → Json → Json → Type 0
Has key j value = get key j ≡ some value

abbrev Lacks : Text → Json → Type 0
Lacks key j = get key j ≡ none

-- An error object: a code from -32768 to -32000, and a message that is a string.
pub record IsErrorObject (j : Json) : Type 0 where
  pub code : ℕ
  pub has_code : Has (text "code") j (minus code)
  pub reserved : (32000 ≤ code) × (code ≤ 32768)
  pub message : Text
  pub has_message : Has (text "message") j (string message)

-- A response object for this id: the version, the id, and either a result or an error, not both.
pub record IsResponseObject (id j : Json) : Type 0 where
  pub version : Has (text "jsonrpc") j (string (text "2.0"))
  pub same_id : Has (text "id") j id
  pub outcome :
      ((result : Json) × Has (text "result") j result × Lacks (text "error") j)
      ⊎ ((error : Json) × Has (text "error") j error
          × Lacks (text "result") j
          × IsErrorObject error)

error_json-IsErrorObject : (e : JsonRpcErrorObject) → IsReserved e → IsErrorObject (error_json e)
unfolding error_json get text_eq
error_json-IsErrorObject e h = record {
  code = e.minus_code;
  has_code = refl;
  reserved = h;
  message = e.message;
  has_message = refl;
}

respond-IsResponseObject :
    (id : Json) (body : Rpc Json)
    → AreReserved body
    → IsResponseObject id (response_json (respond id body))
unfolding response_json respond get text_eq
respond-IsResponseObject id (done result) h = record {
  version = refl;
  same_id = refl;
  outcome = inl (result, refl, refl);
}
respond-IsResponseObject id (refused e) h = record {
  version = refl;
  same_id = refl;
  outcome = inr (error_json e, refl, refl, error_json-IsErrorObject e h);
}

module _ (env : McpEnv) (config : Config) (weather : Weather) (store : Store) where
  -- What is sent, if anything, is a response object for the id that it names.
  abbrev IsSent : Option JsonRpcResponse → Type 0
  IsSent none = Unit
  IsSent (some r) = IsResponseObject r.id (response_json r)

  respond-IsSent :
      (id : Json) (body : Rpc Json) → AreReserved body → IsSent (some (respond id body))
  respond-IsSent id body h =
      subst (λ named. IsResponseObject named (response_json (respond id body)))
        (sym (respond-id id body)) (respond-IsResponseObject id body h)

  reply-IsSent :
      (metrics : MetricsCollector) (r : JsonRpcRequest) (id : Option Json)
      → IsSent (reply env config weather store metrics r id).response
  unfolding reply
  reply-IsSent metrics r none = tt
  reply-IsSent metrics r (some id) =
      respond-IsSent id (dispatch env config weather store metrics r).body
        (dispatch-AreReserved env config weather store metrics r)

  parsed-IsSent :
      (metrics : MetricsCollector) (p : Parsed)
      → IsSent (handle_parsed env config weather store metrics p).response
  unfolding handle_parsed
  parsed-IsSent metrics (malformed e) =
      respond-IsSent null (refused (jsonrpc_error 32700 (text "Parse error: " ++ e))) (omega arith)
  parsed-IsSent metrics (request r) =
      elim (Bool-cases (text_eq r.method (text "notifications/initialized"))) [
        | inl e ↦ rw e tt
        | inr e ↦ rw e (reply-IsSent metrics r r.id)
      ]

  -- Whatever a client sends, what is sent back is a JSON-RPC 2.0 response object: it names the version
  -- and an id, and has a result or an error but not both; an error has a string for its message and
  -- one of the codes that JSON-RPC reserves.
  pub handle_message-IsResponseObject :
      (metrics : MetricsCollector) (line : Text) (r : JsonRpcResponse)
      → (handle_message env config weather store metrics line).response ≡ some r
      → IsResponseObject r.id (response_json r)
  unfolding handle_message
  handle_message-IsResponseObject metrics line r h =
      subst IsSent h (parsed-IsSent metrics (env.parse line))
