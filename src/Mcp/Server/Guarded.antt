-- ===== src/Mcp/Server/Guarded.antt =====
-- src/gateway/mcp.rs, `handle_message`: the requests that it has sent for an extraction.
use serica.Prelude.{
  ◌≡◌, All, inl, inr, Option, none, some, List, [], Bool-cases, Text, text, text_eq,
}
use serica.Config.{Config}
use serica.Metrics.{MetricsCollector}
use serica.Extract.Pipeline.{Store, Weather}
use serica.Extract.Pipeline.Guarded.{
  AreGuarded, IsDirect, AreGuarded-IsDirect, none-AreGuarded, run_extract-AreGuarded,
}
use serica.Ssrf.Fetch.{unwrap_or}
use serica.Mcp.{Rpc, done, refused}
use serica.Json.{Json, fields, get, as_str}
use mathlib.Core.Option
use serica.Mcp.Server.{
  JsonRpcRequest, Parsed, request, malformed, McpEnv, url_argument, Extracting, extracted,
  extract_tool, searched, call_tool, handle_tools_call, dispatch, reply, handle_parsed,
  handle_message,
}

module _ (env : McpEnv) (config : Config) (weather : Weather) (store : Store) where
  open env use {parse, extract}

  abbrev Guarded : List (Extracting env config weather store) → Type 0
  Guarded dials = AreGuarded extract config dials

  extracted-AreGuarded :
      (metrics : MetricsCollector) (url : Rpc extract.U.Url)
      → Guarded (extracted env config weather store metrics url).dials
  unfolding extracted
  extracted-AreGuarded metrics (refused e) = none-AreGuarded extract config
  extracted-AreGuarded metrics (done url) = run_extract-AreGuarded extract config weather store url

  call_tool-AreGuarded :
      (metrics : MetricsCollector) (name : Text) (args : Option Json)
      → Guarded (call_tool env config weather store metrics name args).dials
  unfolding call_tool extract_tool searched
  call_tool-AreGuarded metrics name none = none-AreGuarded extract config
  call_tool-AreGuarded metrics name (some args) =
      elim (Bool-cases (text_eq name (text "serica_search"))) [
        | inl e ↦ rw e (none-AreGuarded extract config)
        | inr e ↦ elim (Bool-cases (text_eq name (text "serica_extract"))) [
          | inl e' ↦
              rw (e, e')
                (extracted-AreGuarded metrics
                  (url_argument extract.U.parse (Option.bind (get (text "url") args) as_str)))
          | inr e' ↦ rw (e, e') (none-AreGuarded extract config)
        ]
      ]

  dispatch-AreGuarded :
      (metrics : MetricsCollector) (r : JsonRpcRequest)
      → Guarded (dispatch env config weather store metrics r).dials
  unfolding dispatch handle_tools_call
  dispatch-AreGuarded metrics r = elim (Bool-cases (text_eq r.method (text "initialize"))) [
    | inl e ↦ rw e (none-AreGuarded extract config)
    | inr e ↦ elim (Bool-cases (text_eq r.method (text "tools/list"))) [
      | inl e' ↦ rw (e, e') (none-AreGuarded extract config)
      | inr e' ↦ elim (Bool-cases (text_eq r.method (text "tools/call"))) [
        | inl e'' ↦
            rw (e, e', e'')
              (let params = unwrap_or r.params (fields []) in
                call_tool-AreGuarded metrics
                  (unwrap_or (Option.bind (get (text "name") params) as_str) [])
                  (get (text "arguments") params))
        | inr e'' ↦ rw (e, e', e'') (none-AreGuarded extract config)
      ]
    ]
  ]

  reply-AreGuarded :
      (metrics : MetricsCollector) (r : JsonRpcRequest) (id : Option Json)
      → Guarded (reply env config weather store metrics r id).dials
  unfolding reply
  reply-AreGuarded metrics r none = none-AreGuarded extract config
  reply-AreGuarded metrics r (some id) = dispatch-AreGuarded metrics r

  parsed-AreGuarded :
      (metrics : MetricsCollector) (p : Parsed)
      → Guarded (handle_parsed env config weather store metrics p).dials
  unfolding handle_parsed
  parsed-AreGuarded metrics (malformed e) = none-AreGuarded extract config
  parsed-AreGuarded metrics (request r) =
      elim (Bool-cases (text_eq r.method (text "notifications/initialized"))) [
        | inl e ↦ rw e (none-AreGuarded extract config)
        | inr e ↦ rw e (reply-AreGuarded metrics r r.id)
      ]

  -- Where no extract proxy is configured, whatever line a client of the MCP gateway sends, and whatever
  -- the resolver and the network do: the requests that are sent for an extraction are at most six. The
  -- n-th of them is for a normalised `https` URL, and its client is pinned to the address which the
  -- guard has validated at the n-th hop, and goes there through no proxy.
  pub handle_message-AreGuarded :
      (metrics : MetricsCollector) (line : Text)
      → config.proxy.extract_url ≡ none
      → AreGuarded extract config (handle_message env config weather store metrics line).dials
        × All (IsDirect extract config) (handle_message env config weather store metrics line).dials
  unfolding handle_message
  handle_message-AreGuarded metrics line direct =
      AreGuarded-IsDirect extract config _ direct (parsed-AreGuarded metrics (parse line))
