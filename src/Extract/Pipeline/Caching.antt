-- ===== src/Extract/Pipeline/Caching.antt =====
-- What `run_extract` of src/util/extract.rs takes from the cache and leaves in it.
use mathlib.Core.Path.{subst}
use serica.Prelude.{
  ℕ, ◌≡◌, refl, sym, ap, ◌∙◌, true, false, Option, none, some, List, [], ◌∷◌, Text,
}
use serica.Error.{Result, ok, err, AppError, ok-injective}
use serica.Config.{Config}
use serica.Gateway.{extract_cache_key}
use serica.Ssrf.Normalize.{normalize_extract_url}
use serica.Extract.{ExtractOutcome}
use serica.Extract.Pipeline.{
  ExtractResponse, Store, Write, Env, Weather, Ran, Sent, timed, conclude, cached_response, serve,
  run_extract, response_of, write_of,
}

-- The store holds, under its key, each value that was written.
abbrev pub Keeps : List Write → Store → Type 0
Keeps [] store = Unit
Keeps (w ∷ writes) store = (store w.key ≡ some w.value) × Keeps writes store

module _ (env : Env) (config : Config) where
  open env use {U, hasher, to_vec, from_slice}

  abbrev pub key_of : U.Url → Text
  key_of url = extract_cache_key U hasher (normalize_extract_url U url)

  conclude-err :
      (weather : Weather) (key : Text) (dials : List (Sent env config))
      (r : Result (Text × ExtractOutcome)) (e : AppError)
      → (conclude env config weather key dials r).result ≡ err e
      → (conclude env config weather key dials r).writes ≡ []
  unfolding conclude
  conclude-err weather key dials (err _) e h = refl
  conclude-err weather key dials (ok fetched) e h = absurd (cc h)

  serve-err :
      (weather : Weather) (url : U.Url) (key : Text) (c : Option ExtractResponse) (e : AppError)
      → (serve env config weather url key c).result ≡ err e
      → (serve env config weather url key c).writes ≡ []
  unfolding serve
  serve-err weather url key (some response) e h = refl
  serve-err weather url key none e h = conclude-err weather key _ (timed env config weather url) e h

  -- A request that fails, for whatever reason, a timeout included, writes nothing to the cache.
  pub errors_not_cached :
      (weather : Weather) (store : Store) (url : U.Url) (e : AppError)
      → (run_extract env config weather store url).result ≡ err e
      → (run_extract env config weather store url).writes ≡ []
  unfolding run_extract
  errors_not_cached weather store url e h = serve-err weather url (key_of url) _ e h

  -- What a fresh response of `run_extract` is, and what it leaves in the cache.
  pub record IsFresh (weather : Weather) (url : U.Url) (ran : Ran (Sent env config))
      (r : ExtractResponse) : Type 0 where
    pub final : Text
    pub outcome : ExtractOutcome
    pub extracted : timed env config weather url ≡ ok (final, outcome)
    pub is_response : r ≡ response_of env config weather (final, outcome)
    pub is_written : ran.writes ≡ write_of env config (key_of url) (to_vec r)

  conclude-IsFresh :
      (weather : Weather) (url : U.Url) (dials : List (Sent env config))
      (t : Result (Text × ExtractOutcome)) (r : ExtractResponse)
      → timed env config weather url ≡ t
      → (conclude env config weather (key_of url) dials t).result ≡ ok r
      → IsFresh weather url (conclude env config weather (key_of url) dials t) r
  unfolding conclude
  conclude-IsFresh weather url dials (err e) r et h = absurd (cc h)
  conclude-IsFresh weather url dials (ok (final, outcome)) r et h =
      let same : response_of env config weather (final, outcome) ≡ r = ok-injective h in
      record {
        final = final;
        outcome = outcome;
        extracted = et;
        is_response = sym same;
        is_written = ap (λ x. write_of env config (key_of url) (to_vec x)) same;
      }

  serve-IsFresh :
      (weather : Weather) (url : U.Url) (c : Option ExtractResponse) (r : ExtractResponse)
      → (serve env config weather url (key_of url) c).result ≡ ok r
      → r.cached ≡ false
      → IsFresh weather url (serve env config weather url (key_of url) c) r
  unfolding serve
  serve-IsFresh weather url (some response) r h fresh = absurd (cc (h, fresh))
  serve-IsFresh weather url none r h fresh = conclude-IsFresh weather url _ _ r refl h

  pub run_extract-IsFresh :
      (weather : Weather) (store : Store) (url : U.Url) (r : ExtractResponse)
      → (run_extract env config weather store url).result ≡ ok r
      → r.cached ≡ false
      → IsFresh weather url (run_extract env config weather store url) r
  unfolding run_extract
  run_extract-IsFresh weather store url r h fresh = serve-IsFresh weather url _ r h fresh

  hit :
      (weather : Weather) (store : Store) (url : U.Url) (r : ExtractResponse)
      → cached_response env config store (key_of url) ≡ some r
      → run_extract env config weather store url ≡ record {
        result = ok (record r { cached = true; timing_ms = weather.elapsed_ms });
        writes = [];
        dials = [];
      }
  unfolding run_extract serve
  hit weather store url r h = rw h

  held :
      (store : Store) (key : Text) {bytes : List ℕ}
      → store key ≡ some bytes
      → cached_response env config store key ≡ from_slice bytes
  unfolding cached_response
  held store key e = ap (λ o. elim o [ none ↦ none | some bytes ↦ from_slice bytes ]) e

  -- Whatever the network then does, a second request, for a URL with the same normalised form, gets
  -- the response that a fresh one left in the cache, if it is still there, marked as cached and with
  -- the time that the second one took, sends no request and writes nothing; if the response is written
  -- as bytes that are read as that response.
  pub second_request_cached :
      (weather weather' : Weather) (store later : Store) (url url' : U.Url) (r : ExtractResponse)
      → (bytes : List ℕ) → normalize_extract_url U url' ≡ normalize_extract_url U url
      → (run_extract env config weather store url).result ≡ ok r
      → r.cached ≡ false
      → Keeps (run_extract env config weather store url).writes later
      → to_vec r ≡ some bytes
      → from_slice bytes ≡ some r
      → run_extract env config weather' later url' ≡ record {
        result = ok (record r { cached = true; timing_ms = weather'.elapsed_ms });
        writes = [];
        dials = [];
      }
  second_request_cached weather weather' store later url url' r bytes same h fresh kept ew trip =
      let f = run_extract-IsFresh weather store url r h fresh in
      let written = f.is_written ∙ ap (write_of env config (key_of url)) ew in
      let holds = subst (λ writes. Keeps writes later) written kept in
      hit weather' later url' r (rw same (held later (key_of url) holds.0 ∙ trip))
