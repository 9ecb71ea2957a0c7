-- ===== src/Mcp/Server/Tests.antt =====
-- src/gateway/mcp.rs on small messages, and beside src/gateway/http.rs on one store.
use mathlib.Core.Option
use serica.Prelude.{All, ◌≡◌, refl, true, none, some, [], text, text_eq, to_ascii_lowercase}
use serica.Error.{ok}
use serica.Config.{default_config}
use serica.Gateway.{finalize_results}
use serica.Metrics.{new_metrics}
use serica.Ssrf.Fetch.{fetch_extract_target}
use serica.Prelude.{length, trim}
use serica.Ssrf.Address.{is_forbidden_target}
use serica.Ssrf.Normalize.{normalize_extract_url}
use serica.Extract.Pipeline.{Store, run_extract}
use serica.Extract.Pipeline.Guarded.{AreGuarded, IsDirect}
use serica.Mcp.Server.Guarded.{handle_message-AreGuarded}
use serica.Extract.Tests as ExtractTests
use serica.Extract.Tests.{calm}
use serica.Http.{try_from_params}
use serica.Http.Handlers.{SearchEnv, search_handler}
use serica.Http.Tests as HttpTests
use serica.Http.Tests.{params, filtered}
use serica.Mcp.{SearchArgs, done, search_tool, search_request}
use serica.Json.{number, string, fields, get, as_str}
use serica.Mcp.Tools.{tools_list}
use serica.Mcp.Wire.{response_json}
use serica.Mcp.Server.Valid.{IsResponseObject, handle_message-IsResponseObject}
use serica.Mcp.Server.Provided.{is_not_found, handle_message-is_not_found}
use serica.Mcp.Server.{
  JsonRpcRequest, JsonRpcResponse, respond, request, McpEnv, printed, handle_message,
}
use serica.Mcp.Server.Replies.{IsAnswered, handle_message-IsAnswered}
use serica.Prelude.{◌∷◌}
use serica.Mcp.Sharing.{IsShared}

-- A cache that can hold one response.
abbrev sharing : SearchEnv
sharing = record HttpTests.env { from_slice = λ bytes. some filtered; to_vec = λ response. some [] }

abbrev pub args : SearchArgs
args = record {
  query = some (text " rust ");
  page = none;
  safe_search = none;
  language = some (text "de");
}

abbrev none_stored : Store
none_stored key = none

shared : IsShared sharing default_config 3 params args filtered
unfolding search_request
shared = record {
  req = HttpTests.request;
  by_http = HttpTests.accepted;
  by_mcp = refl;
  bytes = [];
  is_written = refl;
  is_read = refl;
}

served :
    (search_handler sharing default_config 3 none_stored new_metrics params).result ≡ ok filtered
unfolding search_handler try_from_params to_ascii_lowercase finalize_results text_eq
served = refl

answered :
    (search_tool sharing default_config 3 none_stored new_metrics args).answer ≡ done filtered
unfolding search_tool search_request finalize_results text_eq to_ascii_lowercase
answered = refl

-- A line that asks for the tools under the id 4.
abbrev pub server : McpEnv
server = record {
  parse = λ line. request (record {
    jsonrpc = text "2.0";
    id = some (number 4);
    method = text "tools/list";
    params = none;
  });
  search = sharing;
  extract = ExtractTests.env;
  print_search = λ response. printed [];
  print_extract = λ response. printed [];
}

handle_message-IsAnswered_example :
    IsAnswered server default_config calm none_stored new_metrics
      (server.parse [])
      (handle_message server default_config calm none_stored new_metrics [])
handle_message-IsAnswered_example =
    handle_message-IsAnswered server default_config calm none_stored new_metrics []

-- Each line is the URL of a call of `serica_extract`.
abbrev extracting : McpEnv
extracting = record server {
  parse = λ line. request (record {
    jsonrpc = text "2.0";
    id = some (number 4);
    method = text "tools/call";
    params = some (
        fields (
          (text "name", string (text "serica_extract"))
          ∷ (text "arguments", fields ((text "url", string line) ∷ []))
          ∷ []));
  });
}

one_sent :
    length (handle_message extracting default_config calm none_stored new_metrics (text "a")).dials
    ≡ 1
unfolding handle_message text_eq trim run_extract fetch_extract_target normalize_extract_url
    is_forbidden_target
one_sent = refl

handle_message-AreGuarded_example :
    AreGuarded ExtractTests.env default_config
      (handle_message extracting default_config calm none_stored new_metrics (text "a")).dials
    × All
        (IsDirect ExtractTests.env default_config)
        (handle_message extracting default_config calm none_stored new_metrics (text "a")).dials
handle_message-AreGuarded_example =
    handle_message-AreGuarded extracting default_config calm none_stored new_metrics (text "a") refl

-- The tools are listed.
abbrev listing : JsonRpcResponse
listing = respond (number 4) (done tools_list)

listed :
    (handle_message server default_config calm none_stored new_metrics []).response ≡ some listing
unfolding handle_message text_eq
listed = refl

handle_message-IsResponseObject_example : IsResponseObject listing.id (response_json listing)
handle_message-IsResponseObject_example =
    handle_message-IsResponseObject server default_config calm none_stored new_metrics [] listing
      listed

-- A call of a tool that is not there.
abbrev no_tool : JsonRpcRequest
no_tool = record {
  jsonrpc = text "2.0";
  id = some (number 4);
  method = text "tools/call";
  params =
      some
        (fields ((text "name", string (text "serica_map")) ∷ (text "arguments", fields []) ∷ []));
}

abbrev asked_for : McpEnv
asked_for = record server { parse = λ line. request no_tool }

handle_message-is_not_found_example :
    Option.map is_not_found
      (handle_message asked_for default_config calm none_stored new_metrics []).response
    ≡ some true
unfolding text_eq get as_str Option.bind
handle_message-is_not_found_example =
    handle_message-is_not_found asked_for default_config calm none_stored new_metrics [] no_tool
      (number 4) refl refl refl
