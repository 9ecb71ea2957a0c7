-- ===== src/Ssrf/Normalize.antt =====
-- src/util/ssrf.rs, `normalize_extract_url`: the fragment and the tracking parameters are dropped.
use serica.Prelude.{
  ◌≡◌, refl, sym, ◌∙◌, inl, inr, Bool, false, not, none, List, [], ◌∷◌, arith, if◌then◌else◌,
  Bool-cases, any, retain, Text, text, text_eq,
}
use serica.Ssrf.Url.{UrlLib, UrlLaws}

abbrev pub tracking_query_params : List Text
tracking_query_params =
    text "utm_source"
    ∷ text "utm_medium"
    ∷ text "utm_campaign"
    ∷ text "utm_term"
    ∷ text "utm_content"
    ∷ text "fbclid"
    ∷ text "gclid"
    ∷ text "msclkid"
    ∷ text "mc_cid"
    ∷ text "mc_eid"
    ∷ text "igshid"
    ∷ text "ref"
    ∷ text "ref_src"
    ∷ text "_ga"
    ∷ text "yclid"
    ∷ []

-- `TRACKING_QUERY_PARAMS.contains(&k.as_ref())`
unfoldable pub is_tracking : Text × Text → Bool
is_tracking pair = any (λ name. text_eq name pair.0) tracking_query_params

abbrev pub is_retained : Text × Text → Bool
is_retained pair = not (is_tracking pair)

module _ (U : UrlLib) where
  open U use {Url, query_pairs, clear_fragment, clear_query, set_pairs}

  -- The query is rebuilt from the pairs that are kept, or dropped with the last of them.
  unfoldable pub rebuild_query : Url → List (Text × Text) → Url
  rebuild_query normalized [] = clear_query normalized
  rebuild_query normalized (pair ∷ retained) = set_pairs normalized (pair ∷ retained)

  unfoldable pub normalize_extract_url : Url → Url
  unfolding rebuild_query is_tracking
  normalize_extract_url url =
      let normalized = clear_fragment url in
      if any is_tracking (query_pairs normalized)
      then rebuild_query normalized (retain is_retained (query_pairs normalized))
      else normalized

retain_of_no_tracking :
    (ps : List (Text × Text)) → any is_tracking ps ≡ false → retain is_retained ps ≡ ps
retain_of_no_tracking [] h = refl
retain_of_no_tracking (p ∷ ps) h = ground (arith, retain_of_no_tracking ps)

module _ (U : UrlLib) (laws : UrlLaws U) where
  open U use {Url, query_pairs, fragment, host_str, clear_fragment, clear_query, set_pairs}

  -- What is left of a URL after `normalize_extract_url`.
  pub record IsNormalized (u n : Url) : Type 0 where
    pub no_fragment : fragment n ≡ none
    pub pairs : query_pairs n ≡ retain is_retained (query_pairs u)
    pub same_host : host_str n ≡ host_str u

  rebuild-IsNormalized :
      (u : Url) (ps : List (Text × Text))
      → ps ≡ retain is_retained (query_pairs u)
      → IsNormalized u (rebuild_query U (clear_fragment u) ps)
  unfolding rebuild_query
  rebuild-IsNormalized u [] h = record {
    no_fragment = laws.fragment-clear_query (clear_fragment u) ∙ laws.fragment-clear_fragment u;
    pairs = laws.query_pairs-clear_query (clear_fragment u) ∙ h;
    same_host = laws.host-clear_query (clear_fragment u) ∙ laws.host-clear_fragment u;
  }
  rebuild-IsNormalized u (p ∷ ps) h = record {
    no_fragment =
        laws.fragment-set_pairs (clear_fragment u) (p ∷ ps) ∙ laws.fragment-clear_fragment u;
    pairs = laws.query_pairs-set_pairs (clear_fragment u) (p ∷ ps) ∙ h;
    same_host = laws.host-set_pairs (clear_fragment u) (p ∷ ps) ∙ laws.host-clear_fragment u;
  }

  clear-IsNormalized :
      (u : Url) → any is_tracking (query_pairs u) ≡ false → IsNormalized u (clear_fragment u)
  clear-IsNormalized u h = record {
    no_fragment = laws.fragment-clear_fragment u;
    pairs = laws.query_pairs-clear_fragment u ∙ sym (retain_of_no_tracking (query_pairs u) h);
    same_host = laws.host-clear_fragment u;
  }

  -- The normalised URL has no fragment, its query holds the pairs of the given URL that are no
  -- tracking parameters, in their order, and its host is the given one.
  pub normalize-IsNormalized : (u : Url) → IsNormalized u (normalize_extract_url U u)
  unfolding normalize_extract_url
  normalize-IsNormalized u =
      rw laws.query_pairs-clear_fragment (elim (Bool-cases (any is_tracking (query_pairs u))) [
        | inl tracked ↦
            rw tracked (rebuild-IsNormalized u (retain is_retained (query_pairs u)) refl)
        | inr plain ↦ rw plain (clear-IsNormalized u plain)
      ])

  retain_no_tracking : (ps : List (Text × Text)) → any is_tracking (retain is_retained ps) ≡ false
  retain_no_tracking [] = refl
  retain_no_tracking (p ∷ ps) = ground (arith, retain_no_tracking ps)

  -- A URL with no tracking parameter keeps its query as it is, to the byte.
  pub normalize_untouched :
      (u : Url)
      → any is_tracking (query_pairs (clear_fragment u)) ≡ false
      → normalize_extract_url U u ≡ clear_fragment u
  unfolding normalize_extract_url
  normalize_untouched u h = rw h

  -- A second normalisation only clears the fragment again: the query is left untouched.
  pub normalize_twice :
      (u : Url)
      → normalize_extract_url U (normalize_extract_url U u)
        ≡ clear_fragment (normalize_extract_url U u)
  normalize_twice u =
      let n = normalize-IsNormalized u in
      let plain : any is_tracking (query_pairs (clear_fragment (normalize_extract_url U u)))
          ≡ false =
        rw (laws.query_pairs-clear_fragment, n.pairs) (retain_no_tracking (query_pairs u)) in
      normalize_untouched (normalize_extract_url U u) plain
