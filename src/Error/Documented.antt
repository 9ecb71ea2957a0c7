-- ===== src/Error/Documented.antt =====
-- The codes of src/error.rs that README.md documents.
use serica.Prelude.{
  ◌≡◌, refl, sym, Bool, true, false, Option, none, some, List, [], ◌∷◌, any, Text, text, text_eq,
}
use serica.Error.{
  AppError, invalid_query, invalid_page, invalid_safe_search, invalid_language, rate_limited,
  unauthorized, content_too_large, internal, service_unavailable, extract_timeout, config, bind,
  redis, Result, ok, err, ◌>>=◌, guard, ok_or, to_http_parts,
}

-- The full set of codes that README.md lists.
abbrev pub documented_codes : List Text
documented_codes =
    text "INVALID_QUERY"
    ∷ text "INVALID_PAGE"
    ∷ text "INVALID_SAFE_SEARCH"
    ∷ text "INVALID_LANGUAGE"
    ∷ text "UNAUTHORIZED"
    ∷ text "RATE_LIMITED"
    ∷ text "CONTENT_TOO_LARGE"
    ∷ text "EXTRACT_TIMEOUT"
    ∷ text "SERVICE_UNAVAILABLE"
    ∷ text "INTERNAL_ERROR"
    ∷ []

abbrev pub is_documented : AppError → Bool
is_documented e = any (text_eq (to_http_parts e).code) documented_codes

-- An error of a request: none of those of the startup.
abbrev pub IsOfRequest : AppError → Type 0
IsOfRequest (config e) = ⊥
IsOfRequest (bind e) = ⊥
IsOfRequest (redis e) = ⊥
IsOfRequest _ = Unit

pub request-is_documented : (e : AppError) → IsOfRequest e → is_documented e ≡ true
unfolding to_http_parts text_eq
request-is_documented (config e) h = absurd h
request-is_documented (bind e) h = absurd h
request-is_documented (redis e) h = absurd h
request-is_documented (invalid_query msg) h = refl
request-is_documented (invalid_page msg) h = refl
request-is_documented (invalid_safe_search val) h = refl
request-is_documented (invalid_language msg) h = refl
request-is_documented rate_limited h = refl
request-is_documented (unauthorized msg) h = refl
request-is_documented (content_too_large msg) h = refl
request-is_documented (internal msg) h = refl
request-is_documented (service_unavailable msg) h = refl
request-is_documented (extract_timeout msg) h = refl

-- If it fails, it is by an error of a request.
abbrev pub FailsOfRequest {ℓ} : {A : Type ℓ} → Result A → Type 0
FailsOfRequest (ok a) = Unit
FailsOfRequest (err e) = IsOfRequest e

pub >>=-FailsOfRequest {ℓ κ} :
    {A : Type ℓ} {B : Type κ} (r : Result A) (f : A → Result B)
    → FailsOfRequest r
    → ((a : A) → FailsOfRequest (f a))
    → FailsOfRequest (r >>= f)
>>=-FailsOfRequest (ok a) f h k = k a
>>=-FailsOfRequest (err e) f h k = h

pub guard-FailsOfRequest : (b : Bool) (e : AppError) → IsOfRequest e → FailsOfRequest (guard b e)
guard-FailsOfRequest true e h = tt
guard-FailsOfRequest false e h = h

pub ok_or-FailsOfRequest {ℓ} :
    {A : Type ℓ} (o : Option A) (e : AppError) → IsOfRequest e → FailsOfRequest (ok_or o e)
ok_or-FailsOfRequest none e h = h
ok_or-FailsOfRequest (some a) e h = tt

-- The code is documented, if it fails.
pub Result-is_documented {ℓ} :
    {A : Type ℓ} (r : Result A) (e : AppError)
    → FailsOfRequest r
    → r ≡ err e
    → is_documented e ≡ true
Result-is_documented (ok a) e h same = absurd (cc same)
Result-is_documented (err e) e' h same =
    let eq : e ≡ e' = cc same in rw (sym eq) (request-is_documented e h)
