-- ===== src/Http/Request.antt =====
-- Which parameters of a search src/gateway/http.rs accepts, and the rate limits.
use mathlib.Core.Option
use serica.Prelude.{
  ℕ, zero, suc, ◌+◌, ◌*◌, ◌/◌, ◌%◌, ◌≤◌, ◌<◌, max, ◌≡◌, refl, sym, ◌≢◌, ◌⊎◌, inl, inr, true, not,
  ◌&&◌, Option, none, some, [], ◌∷◌, arith, leb, leb→le, le→leb, length, is_empty, any, Text, text,
  text_eq, text_eq_iff, trim,
}
use mathlib.Core.Path.{subst}
use native.Mathlib.Nat.{div-add-mod', mod-lt}
use serica.Error.{ok, guard, >>=-eq-ok, ok-injective}
use serica.Ssrf.Fetch.{unwrap_or}
use serica.Ssrf.Guard.{guard-eq-ok}
use serica.Fetch.{Unicode, Printer}
use serica.Gateway.{SearchRequest}
use serica.Engine.{ddg_region_for_language, supported_languages}
use serica.Engine.Results.{region_iff_supported}
use serica.Http.{
  SearchParams, is_code, is_some, check_language, try_from_params, build_governor_config,
}

-- No language is asked for, or a supported one.
abbrev pub IsSupported : Option Text → Type 0
IsSupported none = Unit
IsSupported (some lang) = any (text_eq lang) supported_languages ≡ true

-- What every request that reaches the engine keeps.
pub record IsWellFormed (req : SearchRequest) : Type 0 where
  pub has_query : req.query ≢ []
  pub short_query : length req.query ≤ 500
  pub page_bound : (1 ≤ req.page) × (req.page ≤ 50)
  pub safe_bound : req.safe_search ≤ 2
  pub language_supported : IsSupported req.language

pub is_some-lem : {A : Type 0} (o : Option A) → is_some o ≡ true → o ≢ none
is_some-lem none h e = cc h
is_some-lem (some a) h e = cc e

check_language-IsSupported :
    (language : Option Text) {u : Unit {0}} → check_language language ≡ ok u → IsSupported language
unfolding check_language
check_language-IsSupported none h = tt
check_language-IsSupported (some lang) {u} h =
    let (_, _, h1) = >>=-eq-ok (guard (is_code lang) _) _ h in
    (region_iff_supported lang).0 (
      is_some-lem (ddg_region_for_language lang)
        (guard-eq-ok (is_some (ddg_region_for_language lang)) _ h1))

one_of_four :
    (lang : Text)
    → any (text_eq lang) supported_languages ≡ true
    → (lang ≡ text "en") ⊎ (lang ≡ text "de") ⊎ (lang ≡ text "fr") ⊎ (lang ≡ text "es")
one_of_four lang h = ground (
  arith,
  text_eq_iff lang (text "en"),
  text_eq_iff lang (text "de"),
  text_eq_iff lang (text "fr"),
  text_eq_iff lang (text "es"),
)

-- A property of the supported languages holds if it holds of each of the four.
pub for_supported :
    (P : Text → Type 0) (lang : Text)
    → any (text_eq lang) supported_languages ≡ true
    → P (text "en")
    → P (text "de")
    → P (text "fr")
    → P (text "es")
    → P lang
for_supported P lang h en de fr es = elim (one_of_four lang h) [
  | inl e ↦ subst P (sym e) en
  | inr (inl e) ↦ subst P (sym e) de
  | inr (inr (inl e)) ↦ subst P (sym e) fr
  | inr (inr (inr e)) ↦ subst P (sym e) es
]

IsSupported-check :
    (language : Option Text) → IsSupported language → check_language language ≡ ok tt
unfolding check_language ddg_region_for_language text_eq
IsSupported-check none h = refl
IsSupported-check (some lang) h =
    for_supported (λ l. check_language (some l) ≡ ok tt) lang h refl refl refl refl

empty_lem : (s : Text) → s ≢ [] → not (is_empty s) ≡ true
empty_lem [] h = absurd (h refl)
empty_lem (c ∷ s) h = refl

bounds_lem : (page : ℕ) → 1 ≤ page → page ≤ 50 → (leb 1 page && leb page 50) ≡ true
bounds_lem page lo hi = ground arith

pub nonempty_lem : (s : Text) → not (is_empty s) ≡ true → s ≢ []
nonempty_lem [] h e = cc h
nonempty_lem (c ∷ s) h e = cc e

pub range_lem : (page : ℕ) → (leb 1 page && leb page 50) ≡ true → (1 ≤ page) × (page ≤ 50)
range_lem page h = ground arith

quotient_lem :
    (b q r : ℕ)
    → q * b + r ≡ 60000
    → r < b
    → b ≤ 60000
    → (max q 1 * b ≤ 60000) × (60000 < max q 1 * b + b)
quotient_lem b zero r e lt le = omega (arith, e, lt, le)
quotient_lem b (suc q) r e lt le =
    let same : max (suc q) 1 ≡ suc q = omega arith in
    rw same (omega (arith, e), omega (arith, e, lt))

period_lem :
    (b : ℕ)
    → 1 ≤ b
    → b ≤ 60000
    → (max (60000 / b) 1 * b ≤ 60000) × (60000 < max (60000 / b) 1 * b + b)
period_lem b pos le =
    quotient_lem b (60000 / b) (60000 % b) (div-add-mod' 60000 b) (mod-lt 60000 pos) le

-- Up to 60000 requests per minute, the bucket refills in a minute to within one period: all its tokens
-- together take at most a minute, and one more would take longer.
pub governor_refills :
    (rpm : ℕ)
    → rpm ≤ 60000
    → let c = build_governor_config rpm in
      (c.period_ms * c.burst_size ≤ 60000) × (60000 < c.period_ms * c.burst_size + c.burst_size)
unfolding build_governor_config
governor_refills rpm le = period_lem (max rpm 1) (omega arith) (omega (arith, le))

module _ (unicode : Unicode) (printer : Printer) where
  -- A request that is accepted is well formed: its query is trimmed and has 1 to 500 characters, its
  -- page is 1 to 50, its level 0, 1 or 2, and its language none or a supported one. It takes the level
  -- from the parameters, or else the configured default.
  pub try_from_params-IsWellFormed :
      (params : SearchParams) (default_safe : ℕ) (req : SearchRequest)
      → try_from_params unicode printer params default_safe ≡ ok req
      → IsWellFormed req
        × (req.query ≡ trim (unwrap_or params.q []))
        × (req.page ≡ unwrap_or params.page 1)
        × (req.safe_search ≡ unwrap_or params.safe default_safe)
  unfolding try_from_params
  try_from_params-IsWellFormed params default_safe req h =
      let trimmed = trim (unwrap_or params.q []) in
      let page = unwrap_or params.page 1 in
      let safe_search = unwrap_or params.safe default_safe in
      let language = Option.map (λ l. unicode.to_lowercase (trim l)) params.lang in
      let (_, g1, h1) = >>=-eq-ok (guard (not (is_empty trimmed)) _) _ h in
      let (_, g2, h2) = >>=-eq-ok (guard (leb (length trimmed) 500) _) _ h1 in
      let (_, g3, h3) = >>=-eq-ok (guard (leb 1 page && leb page 50) _) _ h2 in
      let (_, g4, h4) = >>=-eq-ok (guard (leb safe_search 2) _) _ h3 in
      let (_, g5, h5) = >>=-eq-ok (check_language language) _ h4 in
      rw (← ok-injective h5) (
        record {
          has_query = nonempty_lem trimmed (guard-eq-ok _ _ g1);
          short_query = leb→le _ _ (guard-eq-ok _ _ g2);
          page_bound = range_lem page (guard-eq-ok _ _ g3);
          safe_bound = leb→le _ _ (guard-eq-ok _ _ g4);
          language_supported = check_language-IsSupported language g5;
        },
        refl,
        refl,
        refl,
      )

  -- Parameters that make up a well-formed request are accepted, and give this request.
  pub try_from_params_complete :
      (params : SearchParams) (default_safe : ℕ) (req : SearchRequest)
      → IsWellFormed req
      → trim (unwrap_or params.q []) ≡ req.query
      → unwrap_or params.page 1 ≡ req.page
      → unwrap_or params.safe default_safe ≡ req.safe_search
      → Option.map (λ l. unicode.to_lowercase (trim l)) params.lang ≡ req.language
      → try_from_params unicode printer params default_safe ≡ ok req
  unfolding try_from_params
  try_from_params_complete params default_safe req w eq ep es el = rw (
    eq,
    ep,
    es,
    el,
    empty_lem req.query w.has_query,
    le→leb _ _ w.short_query,
    bounds_lem req.page w.page_bound.0 w.page_bound.1,
    le→leb _ _ w.safe_bound,
    IsSupported-check req.language w.language_supported,
  )
