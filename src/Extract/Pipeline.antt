-- ===== src/Extract/Pipeline.antt =====
-- src/util/extract.rs, `run_extract`, and src/models/extract.rs: the pipeline behind both gateways, with
-- the cache before it and behind it.
pub mod Caching
pub mod Guarded
pub mod Failures
use serica.Prelude.{
  ℕ, ◌+◌, ◌-◌, ◌/◌, ◌<◌, Bool, true, false, not, Option, none, some, List, [], ◌∷◌, ◌++◌,
  if◌then◌else◌, take, Text, text,
}
use serica.Error.{
  Result, ok, err, ◌>>=◌, ◌>>◌, guard, AppError, invalid_query, internal, service_unavailable,
  extract_timeout,
}
use serica.Config.{Config}
use serica.Gateway.{Hasher, extract_cache_key}
use serica.Ssrf.Url.{UrlLib}
use serica.Ssrf.Normalize.{normalize_extract_url}
use serica.Ssrf.Fetch.{Network, Response, Dial, is_success, fetch_extract_target, unwrap_or}
use serica.Fetch.{Unicode, Printer, is_extractable_content_type_header, read_capped_body}
use serica.Extract.{HtmlLib, ExtractOutcome, extract_options_from_config, extract_from_html}

pub record ExtractResponse : Type 0 where
  pub url : Text
  pub title : Option Text
  pub author : Option Text
  pub date : Option Text
  pub sitename : Option Text
  pub page_type : Option Text
  pub content : Option Text
  pub excerpt : Option Text
  pub timing_ms : ℕ
  pub cached : Bool

-- What a cache holds for each key, and a call of `set`: the key, the value and the time to live.
abbrev pub Store : Type 0
Store = Text → Option (List ℕ)

pub record Write : Type 0 where
  pub key : Text
  pub value : List ℕ
  pub ttl : ℕ

-- The crates that the pipeline calls, and `serde_json` for its response.
pub record Env : Type 1 where
  pub U : UrlLib
  pub net : Network U
  pub unicode : Unicode
  pub printer : Printer
  pub html : HtmlLib
  pub hasher : Hasher
  pub from_slice : List ℕ → Option ExtractResponse
  pub to_vec : ExtractResponse → Option (List ℕ)

-- What the clock and the executor do to one request; `begun` is the number of the requests that are
-- sent before the time is out.
pub record Weather : Type 0 where
  pub elapsed_ms : ℕ
  pub times_out : Bool
  pub begun : ℕ
  pub panics : Bool

-- The response, what is written to the cache, and the requests that were sent.
pub record Ran (D : Type 0) : Type 0 where
  pub result : Result ExtractResponse
  pub writes : List Write
  pub dials : List D

module _ (env : Env) (config : Config) where
  open env use {U, net, unicode, printer, html, hasher, from_slice, to_vec}

  -- A request of the fetch.
  abbrev pub Sent : Type 0
  Sent = Dial U net config.proxy.extract_url

  -- The part inside the timeout, behind the permit.
  unfoldable pub attempt : Weather → U.Url → Result (Text × ExtractOutcome)
  unfolding read_capped_body is_extractable_content_type_header
  attempt weather url = do
    (response, final_url) ← (fetch_extract_target U net config.proxy.extract_url url).result
    guard (is_success response)
        (service_unavailable (text "URL returned HTTP " ++ net.show_status response.status))
    guard (is_extractable_content_type_header unicode response.content_type) (
        invalid_query (
          text "URL returned Content-Type '"
          ++ (unwrap_or response.content_type (text "<missing or unparseable>")
              ++ text "', expected text/html")))
    body ← read_capped_body unicode printer response config.extract.max_raw_bytes
    guard (not weather.panics) (internal (text "Extraction task panicked"))
    ok (
      U.as_str final_url,
      extract_from_html html body (extract_options_from_config config) config.extract,
    )

  unfoldable pub response_of : Weather → Text × ExtractOutcome → ExtractResponse
  response_of weather (url, outcome) = record {
    url = url;
    title = outcome.metadata.title;
    author = outcome.metadata.author;
    date = outcome.metadata.date;
    sitename = outcome.metadata.sitename;
    page_type = outcome.metadata.page_type;
    content = outcome.content;
    excerpt = outcome.metadata.excerpt;
    timing_ms = weather.elapsed_ms;
    cached = false;
  }

  abbrev pub write_of : Text → Option (List ℕ) → List Write
  write_of key none = []
  write_of key (some value) =
      record { key = key; value = value; ttl = config.cache.extract_ttl_seconds } ∷ []

  unfoldable pub conclude : Weather → Text → List Sent → Result (Text × ExtractOutcome) → Ran Sent
  unfolding response_of
  conclude weather key dials (err e) = record { result = err e; writes = []; dials = dials }
  conclude weather key dials (ok fetched) =
      let response = response_of weather fetched in
      record { result = ok response; writes = write_of key (to_vec response); dials = dials }

  -- `tokio::time::timeout`
  unfoldable pub timed : Weather → U.Url → Result (Text × ExtractOutcome)
  unfolding attempt
  timed weather url =
      if weather.times_out
      then err (
          extract_timeout
            (text "extract exceeded " ++ (printer.show config.extract.timeout_ms ++ text "ms")))
      else attempt weather url

  -- What the attempt has sent at its end, or when it is cut off.
  unfoldable pub sent_by : Weather → U.Url → List Sent
  sent_by weather url =
      let dials = (fetch_extract_target U net config.proxy.extract_url url).dials in
      if weather.times_out then take weather.begun dials else dials

  -- The cached response, if the cache holds one that can be read.
  unfoldable pub cached_response : Store → Text → Option ExtractResponse
  cached_response store key = elim (store key) [ none ↦ none | some bytes ↦ from_slice bytes ]

  unfoldable pub serve : Weather → U.Url → Text → Option ExtractResponse → Ran Sent
  unfolding conclude timed sent_by
  serve weather url key (some response) = record {
    result = ok (record response { cached = true; timing_ms = weather.elapsed_ms });
    writes = [];
    dials = [];
  }
  serve weather url key none = conclude weather key (sent_by weather url) (timed weather url)

  unfoldable pub run_extract : Weather → Store → U.Url → Ran Sent
  unfolding serve cached_response
  run_extract weather store url =
      let key = extract_cache_key U hasher (normalize_extract_url U url) in
      serve weather url key (cached_response store key)
