-- ===== src/Mcp/Tools/Schema.antt =====
-- What the descriptions and the listed languages of `serica_search` in src/gateway/mcp.rs allow, beside
-- what it accepts.
use mathlib.Core.Option
use serica.Prelude.{
  ℕ, ◌%◌, ◌^◌, ◌≤◌, ◌<◌, ◌≡◌, refl, ap, ◌∙◌, inl, inr, true, false, Option, none, some, [], ◌∷◌,
  arith, ltb, lt→ltb, le→leb, Bool-cases, length, is_empty, any, Text, text, text_eq, text_eq_iff,
  trim,
}
use serica.Ssrf.Fetch.{unwrap_or}
use serica.Json.{Json, number, string, get, as_str, as_u64}
use serica.Mcp.{done, check_language, search_request}
use serica.Mcp.Tools.{search_args, listed_languages}

abbrev IsListed : Option Text → Type 0
IsListed none = Unit
IsListed (some lang) = any (text_eq lang) listed_languages ≡ true

-- Arguments of the listed types, and within what the descriptions say of them; a query has more than
-- white space.
pub record FitsSchema (args : Json) (query : Text) (page safe_search : Option ℕ)
    (language : Option Text) : Type 0 where
  pub has_query : get (text "query") args ≡ some (string query)
  pub has_page : get (text "page") args ≡ Option.map number page
  pub has_safe_search : get (text "safe_search") args ≡ Option.map number safe_search
  pub has_language : get (text "language") args ≡ Option.map string language
  pub characters : (1 ≤ length (trim query)) × (length (trim query) ≤ 500)
  pub pages : (1 ≤ unwrap_or page 1) × (unwrap_or page 1 ≤ 50)
  pub levels : unwrap_or safe_search 1 ≤ 2
  pub listed : IsListed language

check_language-listed :
    (language : Option Text) → IsListed language → check_language language ≡ done tt
check_language-listed none h = unfold check_language in refl
check_language-listed (some lang) h = elim (Bool-cases (text_eq lang (text "en"))) [
  | inl e ↦ accepted (text "en") e (unfold check_language text_eq in refl)
  | inr no_en ↦ elim (Bool-cases (text_eq lang (text "de"))) [
    | inl e ↦ accepted (text "de") e (unfold check_language text_eq in refl)
    | inr no_de ↦ elim (Bool-cases (text_eq lang (text "fr"))) [
      | inl e ↦ accepted (text "fr") e (unfold check_language text_eq in refl)
      | inr no_fr ↦ elim (Bool-cases (text_eq lang (text "es"))) [
        | inl e ↦ accepted (text "es") e (unfold check_language text_eq in refl)
        | inr no_es ↦ absurd (cc (h, no_en, no_de, no_fr, no_es))
      ]
    ]
  ]
]
  where
    accepted :
        (code : Text)
        → text_eq lang code ≡ true
        → check_language (some code) ≡ done tt
        → check_language (some lang) ≡ done tt
    accepted code e h = ap (λ l. check_language (some l)) ((text_eq_iff lang code).0 e) ∙ h

number_read :
    (o : Option ℕ) (n : ℕ) → unwrap_or o n < 2 ^ 64 → Option.bind (Option.map number o) as_u64 ≡ o
unfolding Option.bind as_u64
number_read none n h = refl
number_read (some m) n h = rw (lt→ltb _ _ h) refl

string_read : (o : Option Text) → Option.bind (Option.map string o) as_str ≡ o
unfolding Option.bind as_str
string_read none = refl
string_read (some s) = refl

-- What is read of such arguments.
search_args-read :
    (args : Json) (query : Text) (page safe_search : Option ℕ) (language : Option Text)
    → FitsSchema args query page safe_search language
    → search_args args
      ≡ record { query = some query; page = page; safe_search = safe_search; language = language }
unfolding search_args
search_args-read args query page safe_search language fits =
    rw
      (
        fits.has_query,
        fits.has_page,
        fits.has_safe_search,
        fits.has_language,
        number_read page 1 (omega (arith, fits.pages)),
        number_read safe_search 1 (omega (arith, fits.levels)),
        string_read language,
      )
      (unfold Option.bind as_str in refl)

filled : (t : Text) → 1 ≤ length t → is_empty t ≡ false
filled [] h = absurd (omega (arith, h))
filled (c ∷ t) h = refl

not_more : (n : ℕ) → n ≤ 500 → ltb 500 n ≡ false
not_more n h = ground (arith, h)

search_request-accepted :
    (query : Text) (page safe_search : Option ℕ) (language : Option Text)
    → (1 ≤ length (trim query)) × (length (trim query) ≤ 500)
    → (1 ≤ unwrap_or page 1) × (unwrap_or page 1 ≤ 50)
    → unwrap_or safe_search 1 ≤ 2
    → check_language language ≡ done tt
    → search_request
        (record { query = some query; page = page; safe_search = safe_search; language = language })
      ≡ done (record {
        query = trim query;
        page = unwrap_or page 1;
        safe_search = unwrap_or safe_search 1;
        language = language;
      })
unfolding search_request
search_request-accepted query page safe_search language characters pages levels checked =
    let whole_page : unwrap_or page 1 % 2 ^ 32 ≡ unwrap_or page 1 = omega (arith, pages) in
    let whole_level : unwrap_or safe_search 1 % 2 ^ 8 ≡ unwrap_or safe_search 1 =
      omega (arith, levels) in
    rw
      (
        whole_page,
        whole_level,
        filled (trim query) characters.0,
        not_more _ characters.1,
        le→leb _ _ pages.0,
        le→leb _ _ pages.1,
        le→leb _ _ levels,
        checked,
      )
      refl

-- A search whose arguments fit the descriptions is accepted: the request has its trimmed query and its
-- language, and page 1 and level 1 where they are not given.
pub schema_accepted :
    (args : Json) (query : Text) (page safe_search : Option ℕ) (language : Option Text)
    → FitsSchema args query page safe_search language
    → search_request (search_args args)
      ≡ done (record {
        query = trim query;
        page = unwrap_or page 1;
        safe_search = unwrap_or safe_search 1;
        language = language;
      })
schema_accepted args query page safe_search language fits =
    ap search_request (search_args-read args query page safe_search language fits)
    ∙ search_request-accepted query page safe_search language fits.characters fits.pages fits.levels
        (check_language-listed language fits.listed)
