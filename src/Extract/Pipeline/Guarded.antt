-- ===== src/Extract/Pipeline/Guarded.antt =====
-- src/util/extract.rs, `run_extract`, with the requests of src/util/ssrf.rs that it sends.
use serica.Prelude.{
  ℕ, zero, suc, ◌≡◌, ◌∙◌, ap, true, ◌∷◌, ◌≤◌, inl, inr, Option, none, some, List, [], arith,
  Bool-cases, length, take, length-take, All, Text,
}
use serica.Error.{Result, ok, err}
use serica.Config.{Config}
use serica.Gateway.{extract_cache_key}
use serica.Extract.{ExtractOutcome}
use serica.Ssrf.Normalize.{normalize_extract_url}
use serica.Ssrf.Fetch.{max_redirect_hops, fetch_extract_target}
use serica.Ssrf.Redirects.{GuardedFrom, fetch_extract_target-IsSafe}
use serica.Extract.Pipeline.{
  ExtractResponse, Store, Env, Weather, Sent, timed, conclude, sent_by, cached_response, serve,
  run_extract,
}

module _ (env : Env) (config : Config) where
  open env use {U, net, hasher}

  -- Each request has passed the guard at its own hop, the first at hop 0, and there are at most six.
  pub record AreGuarded (dials : List (Sent env config)) : Type 0 where
    pub guarded : GuardedFrom U net config.proxy.extract_url 0 dials
    pub few : length dials ≤ suc max_redirect_hops

  pub none-AreGuarded : AreGuarded []
  none-AreGuarded = record { guarded = tt; few = omega arith }

  fetch-AreGuarded :
      (url : U.Url) → AreGuarded (fetch_extract_target U net config.proxy.extract_url url).dials
  fetch-AreGuarded url =
      let safe = fetch_extract_target-IsSafe U net config.proxy.extract_url url in
      record { guarded = safe.guarded; few = safe.few }

  take-GuardedFrom :
      (hop n : ℕ) (dials : List (Sent env config))
      → GuardedFrom U net config.proxy.extract_url hop dials
      → GuardedFrom U net config.proxy.extract_url hop (take n dials)
  take-GuardedFrom hop zero dials h = tt
  take-GuardedFrom hop (suc n) [] h = tt
  take-GuardedFrom hop (suc n) (dial ∷ dials) h = (h.0, take-GuardedFrom (suc hop) n dials h.1)

  take-AreGuarded :
      (n : ℕ) (dials : List (Sent env config)) → AreGuarded dials → AreGuarded (take n dials)
  take-AreGuarded n dials h = record {
    guarded = take-GuardedFrom 0 n dials h.guarded;
    few = omega (arith, h.few, length-take n dials);
  }

  -- Cut off or not.
  sent_by-AreGuarded :
      (weather : Weather) (url : U.Url) → AreGuarded (sent_by env config weather url)
  unfolding sent_by
  sent_by-AreGuarded weather url = elim (Bool-cases weather.times_out) [
    | inl e ↦ rw e (take-AreGuarded weather.begun _ (fetch-AreGuarded url))
    | inr e ↦ rw e (fetch-AreGuarded url)
  ]

  conclude-AreGuarded :
      (weather : Weather) (key : Text) (dials : List (Sent env config))
      (r : Result (Text × ExtractOutcome))
      → AreGuarded dials
      → AreGuarded (conclude env config weather key dials r).dials
  unfolding conclude
  conclude-AreGuarded weather key dials (err e) h = h
  conclude-AreGuarded weather key dials (ok fetched) h = h

  serve-AreGuarded :
      (weather : Weather) (url : U.Url) (key : Text) (c : Option ExtractResponse)
      → AreGuarded (serve env config weather url key c).dials
  unfolding serve
  serve-AreGuarded weather url key (some response) = none-AreGuarded
  serve-AreGuarded weather url key none =
      conclude-AreGuarded weather key _ (timed env config weather url)
        (sent_by-AreGuarded weather url)

  -- An extraction sends guarded requests only, at most six, cut off by the timeout or not.
  pub run_extract-AreGuarded :
      (weather : Weather) (store : Store) (url : U.Url)
      → AreGuarded (run_extract env config weather store url).dials
  unfolding run_extract
  run_extract-AreGuarded weather store url =
      let key = extract_cache_key U hasher (normalize_extract_url U url) in
      serve-AreGuarded weather url key (cached_response env config store key)

  -- The request goes to the address that its client is pinned to: no proxy stands between, neither a
  -- configured one nor one of the environment.
  abbrev pub IsDirect : Sent env config → Type 0
  IsDirect dial = (dial.client.proxy ≡ none) × (dial.client.no_proxy ≡ true)

  GuardedFrom-IsDirect :
      (hop : ℕ) (dials : List (Sent env config))
      → config.proxy.extract_url ≡ none
      → GuardedFrom U net config.proxy.extract_url hop dials
      → All IsDirect dials
  GuardedFrom-IsDirect hop [] direct h = tt
  GuardedFrom-IsDirect hop (dial ∷ dials) direct h = (
    (ap (λ c. c.proxy) h.0.client_is ∙ direct, ap (λ c. c.no_proxy) h.0.client_is),
    GuardedFrom-IsDirect (suc hop) dials direct h.1,
  )

  pub AreGuarded-IsDirect :
      (dials : List (Sent env config))
      → config.proxy.extract_url ≡ none
      → AreGuarded dials
      → AreGuarded dials × All IsDirect dials
  AreGuarded-IsDirect dials direct h = (h, GuardedFrom-IsDirect 0 dials direct h.guarded)
