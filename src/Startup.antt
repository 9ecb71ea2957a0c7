-- ===== src/Startup.antt =====
-- src/main.rs: what the process does up to the start of one of its servers, with `Config::load` of
-- src/config.rs and `init_logging` of src/util/tracing.rs.
pub mod Prepared
pub mod Checked
pub mod Hosts
pub mod Shutdown
mod Tests
use serica.Prelude.{
  ℕ, Bool, true, false, not, ◌&&◌, Option, none, some, [], ◌∷◌, ◌++◌, ltb, leb, if◌then◌else◌,
  is_empty, Text, text, text_eq,
}
use serica.Config.{Config, Invalid, validate, check_mcp_enabled}
use serica.Http.Cors.{CorsLayer, Built, built, invalid, build_cors_layer}
use serica.Ssrf.Fetch.{unwrap_or}

pub data Command : Type 0 where
  server mcp healthcheck : Command

pub record Cli : Type 0 where
  pub config : Option Text
  pub command : Option Command

-- Why `main` returns an error, and where it panics.
pub data Failure : Type 0 where
  not_loaded : Text → Failure
  not_valid : Invalid → Failure
  mcp_disabled : Text → Failure
  built_without_redis : Text → Failure
  search_proxy : Text → Failure
  cors_origin : Text → Failure
  bind_error : Text → Failure
  panicked : Text → Failure

pub data Tried (A : Type 0) : Type 0 where
  got : A → Tried A
  failure : Failure → Tried A

infixl 5 ◌>>=◌
abbrev pub ◌>>=◌ : {A B : Type 0} → Tried A → (A → Tried B) → Tried B
got a >>= next = next a
failure why >>= next = failure why

-- A check that gives the error, if there is one.
abbrev pub passes : {E : Type 0} → (E → Failure) → Option E → Tried (Unit {0})
passes blame none = got tt
passes blame (some e) = failure (blame e)

pub data Writer : Type 0 where
  stderr stdout : Writer

-- What the subscriber of `init_logging` is built with.
pub record Logging : Type 0 where
  pub default_directive : Text
  pub writer : Writer
  pub json : Bool
  pub thread_ids : Bool
  pub file_and_line : Bool
  pub spans : Bool

unfoldable pub init_logging : Config → Bool → Logging
init_logging config use_stderr =
    let writer = if use_stderr then stderr else stdout in
    if text_eq config.server.log_format (text "pretty")
    then record {
      default_directive = config.server.log_level;
      writer = writer;
      json = false;
      thread_ids = true;
      file_and_line = true;
      spans = false;
    }
    else record {
      default_directive = config.server.log_level;
      writer = writer;
      json = true;
      thread_ids = false;
      file_and_line = false;
      spans = true;
    }

pub data Cache : Type 0 where
  lazy_redis : Text → Cache
  noop : Cache

-- What both servers are given.
pub record Parts : Type 0 where
  pub config : Config
  pub logging : Logging
  pub warns_of_proxy : Bool
  pub cache : Cache
  pub search_proxy_url : Option Text
  pub extract_permits : ℕ

-- A server that runs.
pub data Server : Type 0 where
  mcp_stdio : Parts → Server
  http : Parts → Option CorsLayer → (monitored : Bool) → Server

pub data Outcome : Type 0 where
  probes : (port : ℕ) → Outcome
  runs : Server → Outcome

-- What other crates and the system say: `none` is success, and a text is an error as it is printed.
pub record Outside : Type 0 where
  pub exists : Text → Bool
  pub figment : Text → Tried Config
  pub parses_directive : Text → Bool
  pub parses_url : Text → Bool
  pub redis_feature : Bool
  pub redis_client : Text → Option Text
  pub new_client : Option Text
  pub proxied_client : Text → Option Text
  pub header_value : Text → Option Text
  pub socket_addr : Text → ℕ → Option Text
  pub bind : Text → ℕ → Option Text

-- `config_path.filter(|p| !p.is_empty())`
abbrev pub non_empty : Option Text → Option Text
non_empty none = none
non_empty (some []) = none
non_empty (some (c ∷ path)) = some (c ∷ path)

abbrev pub is_set : Option Text → Bool
is_set none = false
is_set (some url) = true

-- `init_logging`, the warning of the extract proxy, and what is handed to a gateway.
unfoldable pub parts_of : Config → Bool → Cache → Option Text → Parts
unfolding init_logging
parts_of config is_mcp cache search_proxy_url = record {
  config = config;
  logging = init_logging config is_mcp;
  warns_of_proxy = is_set config.proxy.extract_url;
  cache = cache;
  search_proxy_url = search_proxy_url;
  extract_permits = config.server.max_concurrent_extracts;
}

-- The cache at the URL, by what the client's construction says.
abbrev pub cache_at : Text → Option Text → Cache
cache_at url none = lazy_redis url
cache_at url (some e) = noop

module _ (out : Outside) where
  abbrev pub load_from : Option Text → Tried Config
  load_from none = out.figment (text "serica.toml")
  load_from (some path) =
      if out.exists path
      then out.figment path
      else failure (
          not_loaded (
            text "config file '"
            ++ (path ++ text "' not found (from --config / SERICA_CONFIG_FILE)")))

  -- `Config::load`, where `figment` merges the defaults, the file and the environment.
  unfoldable pub load : Option Text → Tried Config
  load config_path = load_from (non_empty config_path)

  unfoldable pub open_cache : Config → Tried Cache
  open_cache config =
      let redis_url = unwrap_or config.cache.redis_url [] in
      if is_empty redis_url
      then got noop
      else if out.redis_feature
      then got (cache_at redis_url (out.redis_client redis_url))
      else failure (built_without_redis redis_url)

  -- The proxy of the search engine's client, if it has one; `DuckDuckGoAdapter::new` panics where its
  -- client cannot be built.
  abbrev pub open_engine : Option Text → Tried (Option Text)
  open_engine none = do _ ← passes panicked out.new_client; got none
  open_engine (some url) = do _ ← passes search_proxy (out.proxied_client url); got (some url)

  -- From `init_logging` up to the match on the command.
  unfoldable pub prepare : Config → Bool → Tried Parts
  unfolding parts_of open_cache
  prepare config is_mcp = do
    cache ← open_cache config
    search_proxy_url ← open_engine config.proxy.search_url
    got (parts_of config is_mcp cache search_proxy_url)

  abbrev pub layer_of : Built → Tried (Option CorsLayer)
  layer_of (built layer) = got layer
  layer_of (invalid message) = failure (cors_origin message)

  -- The arm of `None | Some(Command::Server)`; `expect` panics.
  unfoldable pub start_http : Parts → Tried Outcome
  unfolding build_cors_layer
  start_http parts = do
    let server = parts.config.server
    layer ← layer_of (build_cors_layer out.header_value parts.config.cors.origin)
    _ ← passes panicked (out.socket_addr server.host server.port)
    _ ← passes bind_error (out.bind server.host server.port)
    got (runs (http parts layer true))

  unfoldable pub run_command : Config → Command → Tried Outcome
  unfolding prepare start_http check_mcp_enabled
  run_command config healthcheck = got (probes config.server.port)
  run_command config mcp = do
    _ ← passes mcp_disabled (check_mcp_enabled config)
    parts ← prepare config true
    got (runs (mcp_stdio parts))
  run_command config server = do parts ← prepare config false; start_http parts

  -- `main`, up to where a server runs.
  unfoldable pub main : Cli → Tried Outcome
  unfolding load validate run_command
  main cli = do
    config ← load cli.config
    _ ← passes not_valid (validate out.parses_directive out.parses_url config)
    run_command config (unwrap_or cli.command server)

-- `run_healthcheck`: whether the probe of `/api/v1/health/live` was answered with a 2xx status.
unfoldable pub run_healthcheck : Option ℕ → Bool
run_healthcheck none = false
run_healthcheck (some status) = leb 200 status && ltb status 300
