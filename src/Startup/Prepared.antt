-- ===== src/Startup/Prepared.antt =====
-- What src/main.rs hands to both of its servers, and what it has checked of it.
use serica.Prelude.{
  ◌≡◌, refl, sym, ◌≢◌, inl, inr, Bool, true, false, Option, none, some, [], ◌∷◌, if◌then◌else◌,
  Bool-cases, is_empty, Text, text, text_eq,
}
use serica.Config.{Config, validate}
use serica.Ssrf.Fetch.{unwrap_or}
use serica.Startup.{
  Cli, Failure, Tried, got, failure, ◌>>=◌, passes, stderr, stdout, init_logging, Cache, lazy_redis,
  noop, Parts, parts_of, Outside, load, cache_at, open_cache, open_engine, prepare,
  built_without_redis,
}

pub bind-eq-got :
    {A B : Type 0} (t : Tried A) (next : A → Tried B) {b : B}
    → (t >>= next) ≡ got b
    → (a : A) × (t ≡ got a) × (next a ≡ got b)
bind-eq-got (got a) next h = (a, refl, h)
bind-eq-got (failure why) next h = absurd (cc h)

pub got-injective : {A : Type 0} {a b : A} → got a ≡ got b → a ≡ b
got-injective h = cc h

pub passes-none :
    {E : Type 0} (blame : E → Failure) (o : Option E) {u : Unit} → passes blame o ≡ got u → o ≡ none
passes-none blame none h = refl
passes-none blame (some e) h = absurd (cc h)

-- Where the logs go.
init_logging-writer :
    (config : Config) (use_stderr : Bool)
    → (init_logging config use_stderr).writer ≡ (if use_stderr then stderr else stdout)
unfolding init_logging
init_logging-writer config use_stderr =
    elim (Bool-cases (text_eq config.server.log_format (text "pretty"))) [
      | inl e ↦ rw e refl
      | inr e ↦ rw e refl
    ]

module _ (out : Outside) where
  -- Redis is asked for only where it is configured and built in.
  abbrev pub CacheFits : Config → Cache → Type 0
  CacheFits config noop = Unit
  CacheFits config (lazy_redis url) =
      (config.cache.redis_url ≡ some url)
      × (url ≢ [])
      × (out.redis_feature ≡ true)
      × (out.redis_client url ≡ none)

  -- What both servers have been checked for.
  pub record IsPrepared (cli : Cli) (is_mcp : Bool) (p : Parts) : Type 0 where
    pub loaded : load out cli.config ≡ got p.config
    pub valid : validate out.parses_directive out.parses_url p.config ≡ none
    pub logs : p.logging.writer ≡ (if is_mcp then stderr else stdout)
    pub cache : CacheFits p.config p.cache

  redis_url_is :
      (o : Option Text)
      → is_empty (unwrap_or o []) ≡ false
      → (o ≡ some (unwrap_or o [])) × (unwrap_or o [] ≢ [])
  redis_url_is none h = absurd (cc h)
  redis_url_is (some []) h = absurd (cc h)
  redis_url_is (some (c ∷ url)) h = (refl, λ e. cc e)

  cache_at-CacheFits :
      (config : Config) (o : Option Text)
      → is_empty (unwrap_or config.cache.redis_url []) ≡ false
      → out.redis_feature ≡ true
      → out.redis_client (unwrap_or config.cache.redis_url []) ≡ o
      → CacheFits config (cache_at (unwrap_or config.cache.redis_url []) o)
  cache_at-CacheFits config none filled feature e =
      let url = redis_url_is config.cache.redis_url filled in (url.0, url.1, feature, e)
  cache_at-CacheFits config (some why) filled feature e = tt

  open_cache_noop :
      (config : Config)
      → is_empty (unwrap_or config.cache.redis_url []) ≡ true
      → open_cache out config ≡ got noop
  unfolding open_cache
  open_cache_noop config e = rw e refl

  open_cache_redis :
      (config : Config)
      → is_empty (unwrap_or config.cache.redis_url []) ≡ false
      → out.redis_feature ≡ true
      → open_cache out config
        ≡ got (
            cache_at
              (unwrap_or config.cache.redis_url [])
              (out.redis_client (unwrap_or config.cache.redis_url [])))
  unfolding open_cache
  open_cache_redis config e f = rw (e, f) refl

  open_cache_refused :
      (config : Config)
      → is_empty (unwrap_or config.cache.redis_url []) ≡ false
      → out.redis_feature ≡ false
      → open_cache out config ≡ failure (built_without_redis (unwrap_or config.cache.redis_url []))
  unfolding open_cache
  open_cache_refused config e f = rw (e, f) refl

  open_cache-CacheFits :
      (config : Config) (cache : Cache) → open_cache out config ≡ got cache → CacheFits config cache
  open_cache-CacheFits config cache h =
      elim (Bool-cases (is_empty (unwrap_or config.cache.redis_url []))) [
        | inl e ↦ let same : noop ≡ cache = cc (h, open_cache_noop config e) in rw (sym same) tt
        | inr e ↦ elim (Bool-cases out.redis_feature) [
          | inl f ↦
              let same : cache_at (unwrap_or config.cache.redis_url [])
                    (out.redis_client (unwrap_or config.cache.redis_url []))
                  ≡ cache =
                cc (h, open_cache_redis config e f) in
              rw (sym same) (cache_at-CacheFits config _ e f refl)
          | inr f ↦ absurd (cc (h, open_cache_refused config e f))
        ]
      ]

  parts_of-IsPrepared :
      (cli : Cli) (config : Config) (is_mcp : Bool) (cache : Cache) (proxy : Option Text)
      → load out cli.config ≡ got config
      → validate out.parses_directive out.parses_url config ≡ none
      → open_cache out config ≡ got cache
      → IsPrepared cli is_mcp (parts_of config is_mcp cache proxy)
  unfolding parts_of
  parts_of-IsPrepared cli config is_mcp cache proxy l v opened = record {
    loaded = l;
    valid = v;
    logs = init_logging-writer config is_mcp;
    cache = open_cache-CacheFits config cache opened;
  }

  pub prepare-IsPrepared :
      (cli : Cli) (config : Config) (is_mcp : Bool) {p : Parts}
      → load out cli.config ≡ got config
      → validate out.parses_directive out.parses_url config ≡ none
      → prepare out config is_mcp ≡ got p
      → IsPrepared cli is_mcp p × (p.config ≡ config)
  unfolding prepare
  prepare-IsPrepared cli config is_mcp l v h =
      let (cache, opened, h1) = bind-eq-got (open_cache out config) _ h in
      let (proxy, _, h2) = bind-eq-got (open_engine out config.proxy.search_url) _ h1 in
      let same = got-injective h2 in
      rw (sym same) (parts_of-IsPrepared cli config is_mcp cache proxy l v opened, refl)
