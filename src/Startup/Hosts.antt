-- ===== src/Startup/Hosts.antt =====
-- A setting that src/main.rs uses and `validate` of src/config.rs does not check.
use serica.Prelude.{◌≡◌, refl, false, none, some, Text}
use serica.Config.{Config, validate}
use serica.Http.Cors.{build_cors_layer}
use serica.Startup.{
  Cli, got, failure, panicked, noop, parts_of, Outside, load, open_cache, prepare, start_http,
  run_command, main,
}

abbrev pub with_host : Text → Config → Config
with_host host config = record config { server = record config.server { host = host } }

module _ (out : Outside) where
  validate_any_host :
      (host : Text) (config : Config)
      → validate out.parses_directive out.parses_url (with_host host config)
        ≡ validate out.parses_directive out.parses_url config
  unfolding validate
  validate_any_host host config = refl

  prepare_plain :
      (config : Config)
      → config.cache.redis_url ≡ none
      → config.proxy.search_url ≡ none
      → out.new_client ≡ none
      → prepare out config false ≡ got (parts_of config false noop none)
  unfolding prepare open_cache
  prepare_plain config no_redis no_proxy built = rw (no_redis, no_proxy, built) refl

  start_http_panics :
      (config : Config) (e : Text)
      → config.cors.origin ≡ none
      → out.socket_addr config.server.host config.server.port ≡ some e
      → start_http out (parts_of config false noop none) ≡ failure (panicked e)
  unfolding start_http parts_of build_cors_layer
  start_http_panics config e no_cors bad = rw (no_cors, bad) refl

  -- If a valid configuration names no Redis, no search proxy and no CORS origin, the search
  -- engine's client can be built, and the host is replaced by one that cannot be parsed as an address with its port, the HTTP server panics as it
  -- starts: a name like `localhost` is not refused as the other settings are.
  pub unchecked_host :
      (cli : Cli) (config : Config) (host e : Text)
      → load out cli.config ≡ got (with_host host config)
      → cli.command ≡ none
      → validate out.parses_directive out.parses_url config ≡ none
      → config.cache.redis_url ≡ none
      → config.proxy.search_url ≡ none
      → config.cors.origin ≡ none
      → out.new_client ≡ none
      → out.socket_addr host config.server.port ≡ some e
      → main out cli ≡ failure (panicked e)
  unfolding main run_command
  unchecked_host cli config host e loaded plain valid no_redis no_proxy no_cors built bad =
      rw
        (
          loaded,
          plain,
          validate_any_host host config,
          valid,
          prepare_plain (with_host host config) no_redis no_proxy built,
        )
        (start_http_panics (with_host host config) e no_cors bad)
