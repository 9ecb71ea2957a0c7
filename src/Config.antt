-- ===== src/Config.antt =====
-- src/config.rs: the settings, their defaults, and which of them `validate` refuses.
pub mod Valid
mod Tests
use mathlib.Core.Option
use serica.Prelude.{
  ℕ, ◌*◌, Bool, true, not, ◌&&◌, ◌||◌, Option, none, some, List, [], ◌∷◌, leb, if◌then◌else◌, Text,
  text, text_eq,
}
use serica.Fetch.{default_max_extract_bytes}

pub record ServerConfig : Type 0 where
  pub host : Text
  pub port : ℕ
  pub log_level : Text
  pub log_format : Text
  pub shutdown_drain_timeout_seconds : ℕ
  pub rate_limit_per_minute : ℕ
  pub api_key : Option Text
  pub max_concurrent_extracts : ℕ

pub record SearchConfig : Type 0 where
  pub default_timeout_ms : ℕ
  pub max_results_per_page : ℕ
  pub safe_search_default : ℕ

pub record CacheConfig : Type 0 where
  pub ttl_seconds : ℕ
  pub extract_ttl_seconds : ℕ
  pub redis_url : Option Text

pub record McpConfig : Type 0 where
  pub enabled : Bool

pub record CorsConfig : Type 0 where
  pub origin : Option Text

pub record ExtractConfig : Type 0 where
  pub max_content_chars : ℕ
  pub output_format : Text
  pub max_raw_bytes : ℕ
  pub timeout_ms : ℕ

pub record ProxyConfig : Type 0 where
  pub search_url : Option Text
  pub extract_url : Option Text

pub record Config : Type 0 where
  pub server : ServerConfig
  pub search : SearchConfig
  pub cache : CacheConfig
  pub mcp : McpConfig
  pub cors : CorsConfig
  pub extract : ExtractConfig
  pub proxy : ProxyConfig

-- The `Default` of each struct.
abbrev pub default_server : ServerConfig
default_server = record {
  host = text "127.0.0.1";
  port = 3000;
  log_level = text "info";
  log_format = text "json";
  shutdown_drain_timeout_seconds = 10;
  rate_limit_per_minute = 30;
  api_key = none;
  max_concurrent_extracts = 2;
}

abbrev pub default_search : SearchConfig
default_search = record {
  default_timeout_ms = 4000;
  max_results_per_page = 20;
  safe_search_default = 1;
}

abbrev pub default_cache : CacheConfig
default_cache = record { ttl_seconds = 300; extract_ttl_seconds = 3600; redis_url = none }

abbrev pub default_extract : ExtractConfig
default_extract = record {
  max_content_chars = 50000;
  output_format = text "markdown";
  max_raw_bytes = default_max_extract_bytes;
  timeout_ms = 30000;
}

abbrev pub default_config : Config
default_config = record {
  server = default_server;
  search = default_search;
  cache = default_cache;
  mcp = record { enabled = true };
  cors = record { origin = none };
  extract = default_extract;
  proxy = record { search_url = none; extract_url = none };
}

-- What a `figment::Error` of `validate` says is wrong.
pub data Invalid : Type 0 where
  rate_limit_per_minute port max_results_per_page ttl_seconds extract_ttl_seconds : Invalid
  safe_search_default log_level log_format max_content_chars output_format : Invalid
  max_raw_bytes timeout_ms max_concurrent_extracts search_url extract_url : Invalid

-- `(lo..=hi).contains(&n)`
abbrev pub in_range : ℕ → ℕ → ℕ → Bool
in_range lo hi n = leb lo n && leb n hi

-- `if let Some(url) = … { parse(url)? }`
abbrev pub optional : (Text → Bool) → Option Text → Bool
optional parses none = true
optional parses (some url) = parses url

-- The parsers of other crates: of a tracing directive, and of a URL.
module _ (parses_directive parses_url : Text → Bool) where
  -- The checks in the source's order, each with what it requires.
  unfoldable pub checks : Config → List (Bool × Invalid)
  checks self =
      (leb 1 self.server.rate_limit_per_minute, rate_limit_per_minute)
      ∷ (leb 1 self.server.port, port)
      ∷ (in_range 1 100 self.search.max_results_per_page, max_results_per_page)
      ∷ (leb 1 self.cache.ttl_seconds, ttl_seconds)
      ∷ (leb 1 self.cache.extract_ttl_seconds, extract_ttl_seconds)
      ∷ (leb self.search.safe_search_default 2, safe_search_default)
      ∷ (parses_directive self.server.log_level, log_level)
      ∷ (
        text_eq self.server.log_format (text "json")
            || text_eq self.server.log_format (text "pretty"),
        log_format,
      )
      ∷ (leb 1 self.extract.max_content_chars, max_content_chars)
      ∷ (
        text_eq self.extract.output_format (text "text")
            || text_eq self.extract.output_format (text "markdown"),
        output_format,
      )
      ∷ (in_range (64 * 1024) (16 * 1024 * 1024) self.extract.max_raw_bytes, max_raw_bytes)
      ∷ (leb 1 self.extract.timeout_ms, timeout_ms)
      ∷ (in_range 1 16 self.server.max_concurrent_extracts, max_concurrent_extracts)
      ∷ (optional parses_url self.proxy.search_url, search_url)
      ∷ (optional parses_url self.proxy.extract_url, extract_url)
      ∷ []

  unfoldable pub first_failure : List (Bool × Invalid) → Option Invalid
  first_failure [] = none
  first_failure ((holds, what) ∷ rest) = if holds then first_failure rest else some what

  -- `none` for `Ok(())`.
  unfoldable pub validate : Config → Option Invalid
  unfolding checks first_failure
  validate self = first_failure (checks self)

-- `none` for `Ok(())`, or the message.
unfoldable pub check_mcp_enabled : Config → Option Text
check_mcp_enabled self =
    if not self.mcp.enabled
    then some (text "MCP server is disabled via config; set SERICA_MCP__ENABLED=true to enable it")
    else none
