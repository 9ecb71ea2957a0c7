-- ===== src/Config/Valid.antt =====
-- What `Config::validate` of src/config.rs guarantees.
use serica.Prelude.{
  ℕ, ◌*◌, ◌≤◌, ◌≡◌, refl, ◌⊎◌, Bool, true, false, ◌||◌, Option, none, some, List, [], ◌∷◌, arith,
  leb→le, All, Text, text, text_eq, text_eq_iff,
}
use serica.Config.{Config, Invalid, in_range, optional, checks, first_failure, validate}

module _ (parses_directive parses_url : Text → Bool) where
  abbrev pub Parses : Option Text → Type 0
  Parses none = Unit
  Parses (some url) = parses_url url ≡ true

  -- The bounds that the rest of the program relies on.
  pub record IsValid (self : Config) : Type 0 where
    pub rate_limit_bound : 1 ≤ self.server.rate_limit_per_minute
    pub port_bound : 1 ≤ self.server.port
    pub results_bound :
        (1 ≤ self.search.max_results_per_page) × (self.search.max_results_per_page ≤ 100)
    pub ttl_bound : 1 ≤ self.cache.ttl_seconds
    pub extract_ttl_bound : 1 ≤ self.cache.extract_ttl_seconds
    pub safe_search_bound : self.search.safe_search_default ≤ 2
    pub directive_parses : parses_directive self.server.log_level ≡ true
    pub known_log_format :
        (self.server.log_format ≡ text "json") ⊎ (self.server.log_format ≡ text "pretty")
    pub content_bound : 1 ≤ self.extract.max_content_chars
    pub known_output_format :
        (self.extract.output_format ≡ text "text") ⊎ (self.extract.output_format ≡ text "markdown")
    pub raw_bound :
        (64 * 1024 ≤ self.extract.max_raw_bytes) × (self.extract.max_raw_bytes ≤ 16 * 1024 * 1024)
    pub timeout_bound : 1 ≤ self.extract.timeout_ms
    pub permits_bound :
        (1 ≤ self.server.max_concurrent_extracts) × (self.server.max_concurrent_extracts ≤ 16)
    pub search_url_parses : Parses self.proxy.search_url
    pub extract_url_parses : Parses self.proxy.extract_url

  range_lem : (lo hi n : ℕ) → in_range lo hi n ≡ true → (lo ≤ n) × (n ≤ hi)
  range_lem lo hi n h = ground arith

  either_lem : (s a b : Text) → (text_eq s a || text_eq s b) ≡ true → (s ≡ a) ⊎ (s ≡ b)
  either_lem s a b h = ground (arith, text_eq_iff s a, text_eq_iff s b)

  optional_lem : (o : Option Text) → optional parses_url o ≡ true → Parses o
  optional_lem none h = tt
  optional_lem (some url) h = h

  first_failure-All :
      (cs : List (Bool × Invalid))
      → first_failure parses_directive parses_url cs ≡ none
      → All (λ c. c.0 ≡ true) cs
  unfolding first_failure
  first_failure-All [] h = tt
  first_failure-All ((true, what) ∷ rest) h = (refl, first_failure-All rest h)
  first_failure-All ((false, what) ∷ rest) h = absurd (cc h)

  -- A configuration that `validate` accepts keeps every bound of `IsValid`.
  pub validate-IsValid :
      (self : Config) → validate parses_directive parses_url self ≡ none → IsValid self
  unfolding validate checks
  validate-IsValid self h0 =
      let bounds = first_failure-All (checks parses_directive parses_url self) h0 in
      record {
        rate_limit_bound = leb→le _ _ bounds.0;
        port_bound = leb→le _ _ bounds.1.0;
        results_bound = range_lem _ _ _ bounds.1.1.0;
        ttl_bound = leb→le _ _ bounds.1.1.1.0;
        extract_ttl_bound = leb→le _ _ bounds.1.1.1.1.0;
        safe_search_bound = leb→le _ _ bounds.1.1.1.1.1.0;
        directive_parses = bounds.1.1.1.1.1.1.0;
        known_log_format = either_lem _ _ _ bounds.1.1.1.1.1.1.1.0;
        content_bound = leb→le _ _ bounds.1.1.1.1.1.1.1.1.0;
        known_output_format = either_lem _ _ _ bounds.1.1.1.1.1.1.1.1.1.0;
        raw_bound = range_lem _ _ _ bounds.1.1.1.1.1.1.1.1.1.1.0;
        timeout_bound = leb→le _ _ bounds.1.1.1.1.1.1.1.1.1.1.1.0;
        permits_bound = range_lem _ _ _ bounds.1.1.1.1.1.1.1.1.1.1.1.1.0;
        search_url_parses = optional_lem _ bounds.1.1.1.1.1.1.1.1.1.1.1.1.1.0;
        extract_url_parses = optional_lem _ bounds.1.1.1.1.1.1.1.1.1.1.1.1.1.1.0;
      }
