-- ===== src/Lib.antt =====
-- Serica: a search and extraction service that answers over HTTP and over MCP.
--
-- A search goes from a gateway (src/gateway/http.rs, src/gateway/mcp.rs) through the checks of its
-- parameters and the cache to the adapter of the search engine (src/engines/duckduckgo.rs), and back
-- through the filter and the cap that both gateways share (src/gateway/mod.rs) into the cache. An
-- extraction goes from a gateway through the cache to the guarded fetch (src/util/ssrf.rs), the capped
-- read (src/util/fetch.rs), two repairs of the HTML (src/util/codespan_fixup.rs and
-- src/util/codeblock_linebreaks.rs) and the cascade of fallbacks (src/util/extract.rs).
--
-- Files and the code they model:
--   Error        src/error.rs: AppError, to_http_parts, the body of into_response
--   Json         JSON values, which the bodies and the messages are built of
--   Models       src/models/search.rs, src/models/extract.rs: the JSON of the responses
--   Html         the tag scanners that src/util/codespan_fixup.rs and src/util/codeblock_linebreaks.rs
--                share (find_tag_end, is_tag_open_at, closing_tag_len), and their loop (Html/Rewrite);
--                Html/Tag/Grammar says where tags open, end and close without them
--   Codespan     src/util/codespan_fixup.rs
--   Codeblock    src/util/codeblock_linebreaks.rs
--   Ssrf         src/util/ssrf.rs: Address (is_forbidden_target), Url (the url crate), Normalize
--                (normalize_extract_url), Fetch (validate_extract_target, fetch_extract_target)
--   Fetch        src/util/fetch.rs
--   Extract      src/util/extract.rs, src/util/prune.rs, src/models/extract.rs; Extract/Pipeline is
--                run_extract, and Extract/Limiter its semaphore
--   Gateway      src/gateway/mod.rs, src/models/search.rs
--   Engine       src/engines/duckduckgo.rs; Engine/Client has the constructors of its adapter
--   Http         src/gateway/http.rs: parameters and limits, Key (check_api_key), Handlers, Bodies (the
--                JSON of the responses), Router (router and its layers), Cors (build_cors_layer)
--   Mcp          src/gateway/mcp.rs: the two tools, Tools (their listing and their arguments in JSON),
--                Server (handle_message), Wire (the JSON of a response), Stdio (run_stdio)
--   Cache        src/cache/mod.rs, src/cache/noop.rs; Cache/Redis is src/cache/redis.rs, and
--                Cache/Redis/Attempts its connection state under many tasks
--   Config       src/config.rs
--   Startup      src/main.rs, with Config::load of src/config.rs and src/util/tracing.rs; Shutdown is
--                the drain behind a signal
--   Metrics      src/util/metrics.rs
--   Prelude      what all of them share: tests, lists, and Rust's `str`
--
-- How the code is read. A `String` is the list of its characters; `len` counts its UTF-8 bytes,
-- where the code does. Errors are values. The asynchronous code of one request is read in
-- sequence; the clock, the time-out, the resolver and the network are inputs. Where tasks share a
-- lock or a semaphore, in Mcp/Stdio, Cache/Redis/Attempts and Extract/Limiter, a step relation
-- interleaves them in any order. Crates are parameters (UrlLib, Network, HtmlLib, EngineLib,
-- ClientLib, Unicode, Hasher, Server), with laws only for the setters of a URL, for GET and SETEX
-- of Redis, and for the text that serde_json prints, where a theorem says so. A `u32` or `u64`
-- wraps around where the code can make it. A ratio of two lengths is compared by multiplying out,
-- which agrees with the division of floating-point numbers for lengths below 2^48.
--
-- Loops. The two scanners run on fuel, the length of the document; each round is proved to
-- consume a character at least, so that the fuel is enough (Html/Rewrite, Codespan/Spacers,
-- Codeblock/Progress). The redirect loop counts down the hops that are left, so that it needs no
-- fuel. All else is structural recursion. The loop of Mcp/Stdio needs no fuel: each step lowers
-- the work that is left (Mcp/Stdio/Finishing).
--
-- Not modelled: a read of stdin that fails, the route's timeout as it cancels a search handler
-- in the middle of its effects (Http/Router has the answer that the client then gets), the
-- command line and the signal handlers of src/main.rs, the layers of src/gateway/http.rs that
-- trace, compress or copy headers, the clock of the health monitor of src/engines/duckduckgo.rs,
-- and how serde_json prints a JSON value as text and reads it.
pub mod Prelude
pub mod Error
pub mod Json
pub mod Models
pub mod Html
pub mod Ssrf
pub mod Fetch
pub mod Codespan
pub mod Codeblock
pub mod Cache
pub mod Config
pub mod Gateway
pub mod Extract
pub mod Engine
pub mod Metrics
pub mod Http
pub mod Mcp
pub mod Startup
