-- ===== src/Mcp/Server/Provided.antt =====
-- The methods that src/gateway/mcp.rs answers, beside the tools that it lists.
use mathlib.Core.Option
use mathlib.Core.Option
use serica.Prelude.{
  ◌≡◌, refl, sym, ap, inl, inr, Bool, true, false, not, ◌&&◌, ◌||◌, Option, none, some, List, [],
  ◌∷◌, arith, ◌==◌, Bool-cases, any, Text, text, text_eq,
}
use mathlib.Core.Path.{subst}
use serica.Config.{Config}
use serica.Metrics.{MetricsCollector}
use serica.Extract.Pipeline.{Store, Weather}
use serica.Ssrf.Fetch.{unwrap_or}
use serica.Json.{Json, array, Items, no_item, item, fields, get, as_str}
use serica.Mcp.{JsonRpcErrorObject, Rpc, done, refused}
use serica.Mcp.Tools.{search_args, tools_list}
use serica.Mcp.Server.{
  JsonRpcRequest, request, JsonRpcResponse, respond, Outcome, McpEnv, call_tool, handle_tools_call,
  dispatch, reply, handle_parsed, handle_message,
}
use serica.Mcp.Server.Coded.{
  IsOfTool, AreReserved, AreOfTool, AreOfTool-AreReserved, searched-AreOfTool,
  extract_tool-AreOfTool,
}

-- The names of a listing, as a client reads them.
abbrev names_of : Items → List (Option Text)
names_of no_item = []
names_of (item tool tools) = Option.bind (get (text "name") tool) as_str ∷ names_of tools

abbrev names_in : Option Json → List (Option Text)
names_in (some (array tools)) = names_of tools
names_in _ = []

abbrev is_named : Text → Option Text → Bool
is_named name none = false
is_named name (some listed) = text_eq name listed

abbrev is_listed : Text → Bool
is_listed name = any (is_named name) (names_in (get (text "tools") tools_list))

-- A call without arguments is refused for that, whatever tool it names.
abbrev has_tool : Text → Option Json → Bool
has_tool name none = true
has_tool name (some args) = is_listed name

abbrev tool_of : Json → Bool
tool_of params =
    has_tool (unwrap_or (Option.bind (get (text "name") params) as_str) [])
      (get (text "arguments") params)

-- A method of the three, and of a call with arguments the name of a tool in the listing.
abbrev pub is_provided : JsonRpcRequest → Bool
is_provided r =
    any (text_eq r.method) (text "initialize" ∷ text "tools/list" ∷ [])
    || (text_eq r.method (text "tools/call") && tool_of (unwrap_or r.params (fields [])))

listing_lem :
    names_in (get (text "tools") tools_list)
    ≡ (some (text "serica_search") ∷ (some (text "serica_extract") ∷ []))
unfolding get as_str Option.bind text_eq
listing_lem = refl

-- What is answered to what is provided, and to what is not.
abbrev IsMissing : Rpc Json → Type 0
IsMissing (done a) = ⊥
IsMissing (refused e) = e.minus_code ≡ 32601

abbrev Fits : Bool → Rpc Json → Type 0
Fits true body = AreOfTool body
Fits false body = IsMissing body

Fits-AreReserved : (b : Bool) (body : Rpc Json) → Fits b body → AreReserved body
Fits-AreReserved true body h = AreOfTool-AreReserved body h
Fits-AreReserved false (done a) h = absurd h
Fits-AreReserved false (refused e) h = ground (arith, h)

-- The error code for a method that is not there.
abbrev pub is_not_found : JsonRpcResponse → Bool
is_not_found response = elim response.error [ none ↦ false | some e ↦ e.minus_code == 32601 ]

-- A tool has codes of its own.
of_tool-not_found : (e : JsonRpcErrorObject) → IsOfTool e → (e.minus_code == 32601) ≡ false
of_tool-not_found e h = ground arith

Fits-code :
    (id : Json) (b : Bool) (body : Rpc Json) → Fits b body → is_not_found (respond id body) ≡ not b
unfolding respond
Fits-code id true (done a) h = refl
Fits-code id true (refused e) h = of_tool-not_found e h
Fits-code id false (done a) h = absurd h
Fits-code id false (refused e) h = ground (arith, h)

module _ (env : McpEnv) (config : Config) (weather : Weather) (store : Store) where
  call_tool-Fits :
      (metrics : MetricsCollector) (name : Text) (args : Option Json)
      → Fits (has_tool name args) (call_tool env config weather store metrics name args).body
  unfolding call_tool
  call_tool-Fits metrics name none = refl
  call_tool-Fits metrics name (some args) =
      rw listing_lem (elim (Bool-cases (text_eq name (text "serica_search"))) [
        | inl e ↦ rw e (searched-AreOfTool env config weather store metrics (search_args args))
        | inr e ↦ elim (Bool-cases (text_eq name (text "serica_extract"))) [
          | inl e' ↦
              rw (e, e')
                (extract_tool-AreOfTool env config weather store metrics
                  (Option.bind (get (text "url") args) as_str))
          | inr e' ↦ rw (e, e') refl
        ]
      ])

  dispatch-Fits :
      (metrics : MetricsCollector) (r : JsonRpcRequest)
      → Fits (is_provided r) (dispatch env config weather store metrics r).body
  unfolding dispatch handle_tools_call
  dispatch-Fits metrics r = elim (Bool-cases (text_eq r.method (text "initialize"))) [
    | inl e ↦ rw e tt
    | inr e ↦ elim (Bool-cases (text_eq r.method (text "tools/list"))) [
      | inl e' ↦ rw (e, e') tt
      | inr e' ↦ elim (Bool-cases (text_eq r.method (text "tools/call"))) [
        | inl e'' ↦
            rw (e, e', e'')
              (let params = unwrap_or r.params (fields []) in
                call_tool-Fits metrics
                  (unwrap_or (Option.bind (get (text "name") params) as_str) [])
                  (get (text "arguments") params))
        | inr e'' ↦ rw (e, e', e'') refl
      ]
    ]
  ]

  -- Every error of every method has a code that JSON-RPC reserves.
  pub dispatch-AreReserved :
      (metrics : MetricsCollector) (r : JsonRpcRequest)
      → AreReserved (dispatch env config weather store metrics r).body
  dispatch-AreReserved metrics r =
      Fits-AreReserved (is_provided r) (dispatch env config weather store metrics r).body
        (dispatch-Fits metrics r)

  abbrev codes : Outcome env config weather store → Option Bool
  codes outcome = Option.map is_not_found outcome.response

  reply-is_not_found :
      (metrics : MetricsCollector) (r : JsonRpcRequest) (id : Json)
      → codes (reply env config weather store metrics r (some id)) ≡ some (not (is_provided r))
  unfolding reply
  reply-is_not_found metrics r id = ap some (
      Fits-code id (is_provided r) (dispatch env config weather store metrics r).body
        (dispatch-Fits metrics r))

  -- To a message that is read as a request with an id, and is not `notifications/initialized`: the
  -- answer is the error -32601 exactly if the method is none of `initialize`, `tools/list` and
  -- `tools/call`, or it is a call with arguments that names a tool which the answer to `tools/list` does
  -- not list. No error of a listed tool has that code.
  pub handle_message-is_not_found :
      (metrics : MetricsCollector) (line : Text) (r : JsonRpcRequest) (id : Json)
      → env.parse line ≡ request r
      → r.id ≡ some id
      → text_eq r.method (text "notifications/initialized") ≡ false
      → Option.map is_not_found (handle_message env config weather store metrics line).response
        ≡ some (not (is_provided r))
  unfolding handle_message handle_parsed
  handle_message-is_not_found metrics line r id read asked method =
      rw (read, method)
        (subst
          (λ given.
            codes (reply env config weather store metrics r given) ≡ some (not (is_provided r)))
          (sym asked) (reply-is_not_found metrics r id))
