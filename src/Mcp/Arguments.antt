-- ===== src/Mcp/Arguments.antt =====
-- The arguments that src/gateway/mcp.rs accepts, compared with the parameters of src/gateway/http.rs.
use mathlib.Core.Option
use serica.Prelude.{
  ℕ, ◌+◌, ◌%◌, ◌^◌, ◌≤◌, ◌<◌, ◌≡◌, refl, sym, ap, ◌∙◌, ◌≢◌, inl, inr, Bool, true, false, not, ◌&&◌,
  ◌||◌, Option, none, some, List, [], ◌∷◌, arith, ltb, leb, leb→le, Bool-cases, length, is_empty,
  all, Text, text, trim,
}
use mathlib.Core.Path.{subst}
use serica.Error.{ok}
use serica.Ssrf.Fetch.{unwrap_or}
use serica.Fetch.{Unicode, Printer}
use serica.Gateway.{SearchRequest}
use serica.Engine.{ddg_region_for_language}
use serica.Engine.Results.{region_iff_supported}
use serica.Http.{is_ascii_lowercase, is_code, is_some, try_from_params}
use serica.Http.Request.{
  IsSupported, IsWellFormed, is_some-lem, range_lem, for_supported, try_from_params_complete,
}
use serica.Mcp.{
  JsonRpcErrorObject, Rpc, done, refused, ◌>>=◌, require, required, SearchArgs, check_language,
  search_request, looks_like_protocol_version, protocol_version,
}

bind-eq-done :
    {A B : Type 0} (m : Rpc A) (f : A → Rpc B) {b : B}
    → (m >>= f) ≡ done b
    → (a : A) × (m ≡ done a) × (f a ≡ done b)
bind-eq-done (done a) f h = (a, refl, h)
bind-eq-done (refused e) f h = absurd (cc h)

require-eq-done :
    (b : Bool) (e : JsonRpcErrorObject) {u : Unit {0}} → require b e ≡ done u → b ≡ true
require-eq-done true e h = refl
require-eq-done false e h = absurd (cc h)

check_language-IsSupported :
    (language : Option Text) {u : Unit {0}}
    → check_language language ≡ done u
    → IsSupported language
unfolding check_language
check_language-IsSupported none h = tt
check_language-IsSupported (some lang) {u} h =
    let (_, _, h1) = bind-eq-done (require (is_code lang) _) _ h in
    (region_iff_supported lang).0 (
      is_some-lem (ddg_region_for_language lang)
        (require-eq-done (is_some (ddg_region_for_language lang)) _ h1))

query_lem : (s : Text) → not (is_empty s || ltb 500 (length s)) ≡ true → (s ≢ []) × (length s ≤ 500)
query_lem [] h = absurd (cc h)
query_lem (c ∷ s) h = (λ e. cc e, ground arith)

-- What an accepted request is, by its arguments.
pub record IsRequest (args : SearchArgs) (req : SearchRequest) : Type 0 where
  pub raw : Text
  pub given : args.query ≡ some raw
  pub query_is : req.query ≡ trim raw
  pub page_is : req.page ≡ unwrap_or args.page 1 % 2 ^ 32
  pub safe_is : req.safe_search ≡ unwrap_or args.safe_search 1 % 2 ^ 8
  pub language_is : req.language ≡ args.language
  pub well_formed : IsWellFormed req

required-eq-done :
    {A : Type 0} (o : Option A) (e : JsonRpcErrorObject) {a : A}
    → required o e ≡ done a
    → o ≡ some a
required-eq-done none e h = absurd (cc h)
required-eq-done (some b) e h = cc h

-- Arguments that are accepted give a request that is well formed, as the HTTP gateway's are: it has the
-- trimmed query, the language as given, and the low 32 bits of the page and the low 8 of the level, 1
-- where they are not given.
pub search_request-IsRequest :
    (args : SearchArgs) (req : SearchRequest) → search_request args ≡ done req → IsRequest args req
unfolding search_request
search_request-IsRequest args req h =
    let (raw, g0, h0) = bind-eq-done (required args.query _) _ h in
    let page = unwrap_or args.page 1 % 2 ^ 32 in
    let safe = unwrap_or args.safe_search 1 % 2 ^ 8 in
    let (_, g1, h1) =
      bind-eq-done (require (not (is_empty (trim raw) || ltb 500 (length (trim raw)))) _) _ h0 in
    let (_, g2, h2) = bind-eq-done (require (leb 1 page && leb page 50) _) _ h1 in
    let (_, g3, h3) = bind-eq-done (require (leb safe 2) _) _ h2 in
    let (_, g4, h4) = bind-eq-done (check_language args.language) _ h3 in
    let made : SearchRequest = record {
      query = trim raw;
      page = page;
      safe_search = safe;
      language = args.language;
    } in
    let same : made ≡ req = cc h4 in
    rw (← same) (record {
      raw = raw;
      given = required-eq-done args.query _ g0;
      query_is = refl;
      page_is = refl;
      safe_is = refl;
      language_is = refl;
      well_formed =
          let (has, short) = query_lem (trim raw) (require-eq-done _ _ g1) in
          record {
            has_query = has;
            short_query = short;
            page_bound = range_lem page (require-eq-done _ _ g2);
            safe_bound = leb→le _ _ (require-eq-done _ _ g3);
            language_supported = check_language-IsSupported args.language g4;
          };
    })

-- Lower-case ASCII text has no other lower-case form, as `str::to_lowercase` is documented.
abbrev pub KeepsLowercase : Unicode → Type 0
KeepsLowercase unicode = (s : Text) → all is_ascii_lowercase s ≡ true → unicode.to_lowercase s ≡ s

language_kept :
    (unicode : Unicode) (language : Option Text)
    → KeepsLowercase unicode
    → IsSupported language
    → Option.map (λ l. unicode.to_lowercase (trim l)) language ≡ language
unfolding trim
language_kept unicode none keeps h = refl
language_kept unicode (some lang) keeps h =
    for_supported (λ l. Option.map (λ m. unicode.to_lowercase (trim m)) (some l) ≡ some l) lang h
      (ap some (keeps (text "en") refl)) (ap some (keeps (text "de") refl))
      (ap some (keeps (text "fr") refl)) (ap some (keeps (text "es") refl))

-- Where the page and the level fit their machine words, the HTTP gateway with the default level 1 makes
-- the same request, with the same cache key, of what the MCP gateway accepts.
pub same_request :
    (unicode : Unicode) (printer : Printer) (args : SearchArgs) (req : SearchRequest)
    → KeepsLowercase unicode
    → unwrap_or args.page 1 < 2 ^ 32
    → unwrap_or args.safe_search 1 < 2 ^ 8
    → search_request args ≡ done req
    → try_from_params unicode printer
        (record { q = args.query; page = args.page; safe = args.safe_search; lang = args.language })
        1
      ≡ ok req
same_request unicode printer args req keeps fits fits' h =
    let r = search_request-IsRequest args req h in
    let supported = subst IsSupported r.language_is r.well_formed.language_supported in
    try_from_params_complete unicode printer _ 1 req r.well_formed (rw r.given (sym r.query_is))
      (omega (arith, fits, r.page_is)) (omega (arith, fits', r.safe_is))
      (language_kept unicode args.language keeps supported ∙ sym r.language_is)

-- A page is taken by its low 32 bits: a page number that is too large for a `u32` is not refused, but
-- read as another page.
pub page_wraps :
    (args : SearchArgs) (page : ℕ)
    → search_request (record args { page = some (page + 2 ^ 32) })
      ≡ search_request (record args { page = some (page % 2 ^ 32) })
unfolding search_request
page_wraps args page =
    let same : (page + 2 ^ 32) % 2 ^ 32 ≡ page % 2 ^ 32 % 2 ^ 32 = omega arith in rw same

-- The level of the safe search is taken by its low 8 bits: 256 turns the filter off.
pub safe_search_wraps :
    (args : SearchArgs) (level : ℕ)
    → search_request (record args { safe_search = some (level + 2 ^ 8) })
      ≡ search_request (record args { safe_search = some (level % 2 ^ 8) })
unfolding search_request
safe_search_wraps args level =
    let same : (level + 2 ^ 8) % 2 ^ 8 ≡ level % 2 ^ 8 % 2 ^ 8 = omega arith in rw same

-- The version that is answered has the shape of a version, and is the client's where that has it.
pub protocol_version-shape :
    (asked : Option (List ℕ)) → looks_like_protocol_version (protocol_version asked) ≡ true
unfolding protocol_version
protocol_version-shape none = refl
protocol_version-shape (some v) = elim (Bool-cases (looks_like_protocol_version v)) [
  | inl good ↦ rw good good
  | inr bad ↦ rw bad refl
]
