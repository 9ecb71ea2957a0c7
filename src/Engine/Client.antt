-- ===== src/Engine/Client.antt =====
-- src/engines/duckduckgo.rs: the constructors of `DuckDuckGoAdapter`.
use serica.Prelude.{
  ℕ, ◌<◌, ◌≡◌, refl, ◌↔◌, Bool, true, false, Option, none, some, arith, Text, text,
}

-- What the `reqwest` client is told; times are in seconds.
pub record ClientSettings : Type 0 where
  pub https_only : Bool
  pub user_agent : Text
  pub timeout : ℕ
  pub pool_idle_timeout : ℕ
  pub pool_max_idle_per_host : ℕ
  pub proxy : Option Text

pub record DuckDuckGoAdapter : Type 0 where
  pub client : ClientSettings
  pub search_url : Text

-- An adapter, or the `reqwest::Error` as it is printed.
pub data Adapter : Type 0 where
  adapter : DuckDuckGoAdapter → Adapter
  reqwest_error : Text → Adapter

-- The errors of `Proxy::all` and of `build`, if any.
pub record ClientLib : Type 0 where
  pub proxy_error : Text → Option Text
  pub build_error : ClientSettings → Option Text

abbrev pub production_url : Text
production_url = text "https://html.duckduckgo.com/html/"

-- A tunnel that is kept would keep the exit address of a proxy that rotates.
abbrev pub settings : Bool → Option Text → ClientSettings
settings https_only proxy_url = record {
  https_only = https_only;
  user_agent =
      text "Mozilla/5.0 (Windows NT 10.0; Win64; x64; rv:128.0) Gecko/20100101 Firefox/128.0";
  timeout = 10;
  pool_idle_timeout = 90;
  pool_max_idle_per_host = elim proxy_url [ none ↦ 32 | some url ↦ 0 ];
  proxy = proxy_url;
}

module _ (lib : ClientLib) where
  -- The errors of the proxy and of `builder.build()`, if any, in their order.
  abbrev finish : DuckDuckGoAdapter → Option Text → Option Text → Adapter
  finish made (some e) _ = reqwest_error e
  finish made none (some e) = reqwest_error e
  finish made none none = adapter made

  -- `Proxy::all(proxy_url)?`, where there is a proxy.
  abbrev bad_proxy : Option Text → Option Text
  bad_proxy none = none
  bad_proxy (some url) = lib.proxy_error url

  unfoldable pub build : Text → Bool → Option Text → Adapter
  build search_url https_only proxy_url =
      let client = settings https_only proxy_url in
      finish (record { client = client; search_url = search_url }) (bad_proxy proxy_url)
        (lib.build_error client)

  -- `new` and `with_base_url` panic where `build` fails.
  unfoldable pub new : Adapter
  unfolding build
  new = build production_url true none

  unfoldable pub with_proxy : Text → Adapter
  unfolding build
  with_proxy proxy_url = build production_url true (some proxy_url)

  unfoldable pub with_base_url : Text → Adapter
  unfolding build
  with_base_url base = build base false none

  finished :
      (made a : DuckDuckGoAdapter) (e e' : Option Text) → finish made e e' ≡ adapter a → a ≡ made
  finished made a (some e) e' h = absurd (cc h)
  finished made a none (some e) h = absurd (cc h)
  finished made a none none h = cc h

  built-settings :
      (search_url : Text) (https_only : Bool) (proxy_url : Option Text) (a : DuckDuckGoAdapter)
      → build search_url https_only proxy_url ≡ adapter a
      → a ≡ record { client = settings https_only proxy_url; search_url = search_url }
  unfolding build
  built-settings search_url https_only proxy_url a h = finished _ a (bad_proxy proxy_url) _ h

  -- The adapter that `main` makes: directly, or through the search proxy.
  abbrev pub production : Option Text → Adapter
  production none = new
  production (some proxy_url) = with_proxy proxy_url

  -- However it is made for production, the adapter takes `https` only, asks DuckDuckGo, goes through
  -- the given proxy and no other, and keeps an idle connection only where there is no proxy.
  pub production-settings :
      (proxy_url : Option Text) (a : DuckDuckGoAdapter)
      → production proxy_url ≡ adapter a
      → (a.client.https_only ≡ true)
        × (a.search_url ≡ production_url)
        × (a.client.proxy ≡ proxy_url)
        × ((0 < a.client.pool_max_idle_per_host) ↔ (proxy_url ≡ none))
  unfolding new with_proxy
  production-settings none a h =
      let same = built-settings production_url true none a h in
      rw same (refl, refl, refl, (λ _. refl, λ _. omega arith))
  production-settings (some proxy_url) a h =
      let same = built-settings production_url true (some proxy_url) a h in
      rw same (refl, refl, refl, (λ kept. absurd (omega (arith, kept)), λ clash. absurd (cc clash)))
