-- ===== src/Http/Handlers/Guarded.antt =====
-- src/gateway/http.rs, `extract_handler`: the requests that it has sent.
use serica.Prelude.{◌≡◌, none, All, Text}
use serica.Error.{Result, ok, err}
use serica.Config.{Config}
use serica.Extract.Pipeline.{Store, Env, Weather}
use serica.Extract.Pipeline.Guarded.{
  AreGuarded, IsDirect, AreGuarded-IsDirect, none-AreGuarded, run_extract-AreGuarded,
}
use serica.Http.Handlers.{parse_target, run_parsed, extract_handler}

module _ (env : Env) (config : Config) (weather : Weather) (store : Store) where
  parsed-AreGuarded :
      (url : Result env.U.Url)
      → AreGuarded env config (run_parsed env config weather store url).dials
  parsed-AreGuarded (err e) = none-AreGuarded env config
  parsed-AreGuarded (ok url) = run_extract-AreGuarded env config weather store url

  -- Where no extract proxy is configured, whatever text a client of the HTTP gateway gives as the URL,
  -- and whatever the resolver and the network do: the requests that are sent for it are at most six.
  -- The n-th of them is for a normalised `https` URL, and its client is pinned to the address which the
  -- guard has validated at the n-th hop, and goes there through no proxy.
  pub extract_handler-AreGuarded :
      (raw : Text)
      → config.proxy.extract_url ≡ none
      → AreGuarded env config (extract_handler env config weather store raw).dials
        × All (IsDirect env config) (extract_handler env config weather store raw).dials
  unfolding extract_handler
  extract_handler-AreGuarded raw direct =
      AreGuarded-IsDirect env config _ direct (parsed-AreGuarded (parse_target env.U raw))
