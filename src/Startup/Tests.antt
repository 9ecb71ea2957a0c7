-- ===== src/Startup/Tests.antt =====
-- src/main.rs with the default settings.
use serica.Prelude.{◌≡◌, refl, true, none, some, text, text_eq}
use serica.Config.{default_config, validate, checks, first_failure}
use serica.Startup.{
  Cli, mcp, got, Outside, Server, mcp_stdio, noop, parts_of, runs, main, load, open_cache, prepare,
  run_command,
}
use serica.Startup.Checked.{IsStarted, main-IsStarted}
use serica.Startup.Hosts.{with_host}

-- Nothing fails but the addresses.
abbrev calm : Outside
calm = record {
  exists = λ path. true;
  figment = λ path. got default_config;
  parses_directive = λ level. true;
  parses_url = λ url. true;
  redis_feature = true;
  redis_client = λ url. none;
  new_client = none;
  proxied_client = λ url. none;
  header_value = λ origin. none;
  socket_addr = λ host port. some (text "invalid socket address syntax");
  bind = λ host port. none;
}

abbrev asks_mcp : Cli
asks_mcp = record { config = none; command = some mcp }

abbrev mcp_server : Server
mcp_server = mcp_stdio (parts_of default_config true noop none)

starts_mcp : main calm asks_mcp ≡ got (runs mcp_server)
unfolding main load run_command prepare open_cache validate checks first_failure text_eq
starts_mcp = refl

main-IsStarted_example : IsStarted calm asks_mcp mcp_server
main-IsStarted_example = main-IsStarted calm asks_mcp mcp_server starts_mcp

abbrev local : Outside
local = record calm { figment = λ path. got (with_host (text "localhost") default_config) }

loads_local : load local none ≡ got (with_host (text "localhost") default_config)
unfolding load
loads_local = refl

default_valid : validate local.parses_directive local.parses_url default_config ≡ none
unfolding validate checks first_failure text_eq
default_valid = refl
