-- ===== src/Engine/Results.antt =====
-- What the parser of src/engines/duckduckgo.rs returns, and for which languages it asks.
use mathlib.Core.Path.{subst}
use serica.Prelude.{
  ◌≡◌, refl, sym, ◌≢◌, ◌↔◌, ◌⊎◌, inl, inr, Bool, true, false, not, Option, none, some, List, [],
  ◌∷◌, ◌++◌, arith, if◌then◌else◌, Option-cases, is_empty, any, All, Text, text, text_eq,
  text_eq_iff,
}
use serica.Gateway.{SearchResult}
use serica.Ssrf.Url.{UrlLib}
use serica.Engine.{
  ◌>>=◌, absolute, find_uddg, nonempty, Link, Container, EngineLib, supported_languages,
  ddg_region_for_language, extract_uddg_url, only_web, is_web, url_and_title, result_of,
  parse_containers,
}

-- A language has a region exactly when it is one of the supported ones.
pub region_iff_supported :
    (lang : Text)
    → (ddg_region_for_language lang ≢ none) ↔ (any (text_eq lang) supported_languages ≡ true)
unfolding ddg_region_for_language
region_iff_supported lang = ground arith

bind-eq-some :
    {A B : Type 0} (m : Option A) (f : A → Option B) {b : B}
    → (m >>= f) ≡ some b
    → (a : A) × (m ≡ some a) × (f a ≡ some b)
bind-eq-some none f h = absurd (cc h)
bind-eq-some (some a) f h = (a, refl, h)

unless_not :
    {A : Type 0} (b : Bool) {a c : A}
    → (if not b then none else some a) ≡ some c
    → (b ≡ true) × (a ≡ c)
unless_not true h = (refl, cc h)
unless_not false h = absurd (cc h)

module _ (U : UrlLib) (lib : EngineLib) where
  -- A URL of the scheme `http` or `https`, printed.
  pub record IsWebUrl (s : Text) : Type 0 where
    pub url : U.Url
    pub printed : s ≡ U.as_str url
    pub web : (U.scheme url ≡ text "http") ⊎ (U.scheme url ≡ text "https")

  pub record IsWebResult (r : SearchResult) : Type 0 where
    pub web_url : IsWebUrl r.url
    pub has_url : is_empty r.url ≡ false
    pub has_title : is_empty r.title ≡ false

  only_web-IsWebUrl : (u : U.Url) {s : Text} → only_web U lib u ≡ some s → IsWebUrl s
  only_web-IsWebUrl u {s} h =
      let (web, same) = unless_not (is_web U lib u) h in
      record {
        url = u;
        printed = sym same;
        web = ground (
          arith,
          text_eq_iff (U.scheme u) (text "http"),
          text_eq_iff (U.scheme u) (text "https"),
        );
      }

  extract-IsWebUrl : (href : Text) {s : Text} → extract_uddg_url U lib href ≡ some s → IsWebUrl s
  unfolding extract_uddg_url
  extract-IsWebUrl href {s} h =
      let (url, _, h1) = bind-eq-some (absolute U lib href) _ h in
      let (parsed, _, h2) = bind-eq-some (U.parse url) _ h1 in
      let (value, _, h3) = bind-eq-some (find_uddg U lib (U.query_pairs parsed)) _ h2 in
      let (target, _, h4) = bind-eq-some (nonempty U lib value) _ h3 in
      let (u, _, h5) = bind-eq-some (U.parse target) _ h4 in only_web-IsWebUrl u h5

  url_and_title-IsWebUrl :
      (link : Option Link) {p : Text × Text} → url_and_title U lib link ≡ some p → IsWebUrl p.0
  unfolding url_and_title
  url_and_title-IsWebUrl link {p} h =
      let (el, _, h1) = bind-eq-some link _ h in
      let (href, _, h2) = bind-eq-some el.href _ h1 in
      let (url, eu, h3) = bind-eq-some (extract_uddg_url U lib href) _ h2 in
      let same : url ≡ p.0 = cc h3 in subst IsWebUrl same (extract-IsWebUrl href eu)

  result_of-IsWeb :
      (snippet : Option (List Text)) (url title : Text)
      → IsWebUrl url ⊎ (url ≡ [])
      → All IsWebResult (result_of U lib snippet (url, title))
  unfolding result_of
  result_of-IsWeb snippet [] title h = tt
  result_of-IsWeb snippet (c ∷ url) [] h = tt
  result_of-IsWeb snippet (c ∷ url) (d ∷ title) (inl web) =
      (record { web_url = web; has_url = refl; has_title = refl }, tt)
  result_of-IsWeb snippet (c ∷ url) (d ∷ title) (inr e) = absurd (cc e)

  All-append :
      (xs ys : List SearchResult)
      → All IsWebResult xs
      → All IsWebResult ys
      → All IsWebResult (xs ++ ys)
  All-append [] ys hx hy = hy
  All-append (x ∷ xs) ys (h, hx) hy = (h, All-append xs ys hx hy)

  -- Each result that is parsed has a title, and a URL of the scheme `http` or `https`, whatever the
  -- page holds.
  pub parse_containers-IsWeb :
      (elements : List Container) → All IsWebResult (parse_containers U lib elements)
  unfolding parse_containers
  parse_containers-IsWeb [] = tt
  parse_containers-IsWeb (el ∷ elements) =
      All-append _ (parse_containers U lib elements)
        (elim (Option-cases (url_and_title U lib el.title_link)) [
          | inl bad ↦ rw bad (result_of-IsWeb el.snippet_texts [] [] (inr refl))
          | inr (p, good) ↦ rw good (
              result_of-IsWeb el.snippet_texts p.0 p.1
                (inl (url_and_title-IsWebUrl el.title_link good)))
        ])
        (parse_containers-IsWeb elements)
