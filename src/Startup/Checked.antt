-- ===== src/Startup/Checked.antt =====
-- What src/main.rs has checked of a server that it runs.
use serica.Prelude.{◌≡◌, refl, sym, ◌⊎◌, inl, inr, true, false, Option, none, some, arith, Text}
use serica.Config.{Config, validate, check_mcp_enabled}
use serica.Http.Cors.{
  CorsLayer, Built, built, invalid, build_cors_layer, IsAllowed, build_cors_layer-IsAllowed,
}
use serica.Ssrf.Fetch.{unwrap_or}
use serica.Startup.{
  Command, server, mcp, healthcheck, Cli, got, passes, Parts, Server, mcp_stdio, http, runs,
  Outside, load, prepare, panicked, bind_error, mcp_disabled, not_valid, layer_of, start_http,
  run_command, main,
}
use serica.Startup.Prepared.{
  bind-eq-got, got-injective, passes-none, IsPrepared, prepare-IsPrepared,
}

module _ (out : Outside) where
  pub data IsStarted (cli : Cli) : Server → Type 0 where
    as_mcp :
        {p : Parts}
        → cli.command ≡ some mcp
        → IsPrepared out cli true p
        → p.config.mcp.enabled ≡ true
        → IsStarted cli (mcp_stdio p)
    as_http :
        {p : Parts} {layer : Option CorsLayer}
        → (cli.command ≡ none) ⊎ (cli.command ≡ some server)
        → IsPrepared out cli false p
        → IsAllowed out.header_value p.config.cors.origin (built layer)
        → IsStarted cli (http p layer true)

  layer_of-built :
      (o : Option Text) (b : Built) (layer : Option CorsLayer)
      → layer_of out b ≡ got layer
      → IsAllowed out.header_value o b
      → IsAllowed out.header_value o (built layer)
  layer_of-built o (built l) layer h allowed = let same = got-injective h in rw (sym same) allowed
  layer_of-built o (invalid m) layer h allowed = absurd (cc h)

  start_http-IsStarted :
      (cli : Cli) (p : Parts) {s : Server}
      → (cli.command ≡ none) ⊎ (cli.command ≡ some server)
      → IsPrepared out cli false p
      → start_http out p ≡ got (runs s)
      → IsStarted cli s
  unfolding start_http
  start_http-IsStarted cli p {s} asked prepared h =
      let origin = p.config.cors.origin in
      let (layer, h1, h2) =
        bind-eq-got (layer_of out (build_cors_layer out.header_value origin)) _ h in
      let (_, _, h3) =
        bind-eq-got (passes panicked (out.socket_addr p.config.server.host p.config.server.port)) _
          h2 in
      let (_, _, h4) =
        bind-eq-got (passes bind_error (out.bind p.config.server.host p.config.server.port)) _ h3 in
      let same : http p layer true ≡ s = cc h4 in
      rw (sym same) (
        as_http asked prepared
          (layer_of-built origin _ layer h1 (build_cors_layer-IsAllowed out.header_value origin)))

  check_mcp_enabled-none :
      (config : Config) → check_mcp_enabled config ≡ none → config.mcp.enabled ≡ true
  unfolding check_mcp_enabled
  check_mcp_enabled-none config h = grind arith

  run_command-IsStarted :
      (cli : Cli) (config : Config) (c : Option Command) {s : Server}
      → cli.command ≡ c
      → load out cli.config ≡ got config
      → validate out.parses_directive out.parses_url config ≡ none
      → run_command out config (unwrap_or c server) ≡ got (runs s)
      → IsStarted cli s
  unfolding run_command
  run_command-IsStarted cli config none e l v h =
      let (p, h1, h2) = bind-eq-got (prepare out config false) _ h in
      start_http-IsStarted cli p (inl e) (prepare-IsPrepared out cli config false l v h1).0 h2
  run_command-IsStarted cli config (some server) e l v h =
      let (p, h1, h2) = bind-eq-got (prepare out config false) _ h in
      start_http-IsStarted cli p (inr e) (prepare-IsPrepared out cli config false l v h1).0 h2
  run_command-IsStarted cli config (some healthcheck) e l v h = absurd (cc h)
  run_command-IsStarted cli config (some mcp) {s} e l v h =
      let (_, enabled, h1) = bind-eq-got (passes mcp_disabled (check_mcp_enabled config)) _ h in
      let (p, h2, h3) = bind-eq-got (prepare out config true) _ h1 in
      let (prepared, same_config) = prepare-IsPrepared out cli config true l v h2 in
      let same : mcp_stdio p ≡ s = cc h3 in
      let on : p.config.mcp.enabled ≡ true =
        rw same_config (check_mcp_enabled-none config (passes-none mcp_disabled _ enabled)) in
      rw (sym same) (as_mcp e prepared on)

  -- A server that `main` runs has a configuration that was loaded and is valid, and uses Redis only
  -- where that is configured and built in. The MCP server runs only if it is asked for and enabled, and
  -- logs to stderr; the HTTP server logs to stdout, watches the engine's health, and allows the origin
  -- that is configured.
  pub main-IsStarted : (cli : Cli) (s : Server) → main out cli ≡ got (runs s) → IsStarted cli s
  unfolding main
  main-IsStarted cli s h =
      let (config, l, h1) = bind-eq-got (load out cli.config) _ h in
      let (_, v, h2) =
        bind-eq-got (passes not_valid (validate out.parses_directive out.parses_url config)) _ h1 in
      run_command-IsStarted cli config cli.command refl l (passes-none not_valid _ v) h2
