-- ===== src/Error.antt =====
-- src/error.rs: the error type, and what a client sees of each error.
pub mod Documented
mod Tests
use serica.Prelude.{
  false, ℕ, ◌+◌, ◌/◌, ◌%◌, ◌≤◌, ◌≡◌, refl, ◌⊎◌, inl, inr, Bool, Option, none, some, [], ◌∷◌, ◌++◌,
  arith, ltb, if◌then◌else◌, Text, text,
}
use serica.Json.{Json, boolean, string, fields}

-- `Config` and `Bind` hold an error value of another crate: what is modelled of it is its message.
pub data AppError : Type 0 where
  invalid_query : Text → AppError
  invalid_page : Text → AppError
  invalid_safe_search : ℕ → AppError
  invalid_language : Text → AppError
  rate_limited : AppError
  unauthorized : Text → AppError
  content_too_large : Text → AppError
  internal : Text → AppError
  service_unavailable : Text → AppError
  extract_timeout : Text → AppError
  config : Text → AppError
  bind : Text → AppError
  redis : Text → AppError

pub data Result {ℓ} (A : Type ℓ) : Type ℓ where
  ok : A → Result A
  err : AppError → Result A

infixl 5 ◌>>=◌ ◌>>◌
-- `?`: an error ends the function.
abbrev pub ◌>>=◌ {ℓ κ} :
    {Value : Type ℓ} {Next : Type κ} → Result Value → (Value → Result Next) → Result Next
err why >>= next = err why
ok value >>= next = next value

-- `?` on a result whose value is not used.
abbrev pub ◌>>◌ {ℓ} : {Next : Type ℓ} → Result (Unit {0}) → Result Next → Result Next
checked >> rest = checked >>= λ _. rest

-- `if !holds { return Err(why) }`
abbrev pub guard : Bool → AppError → Result (Unit {0})
guard holds why = if holds then ok tt else err why

-- `ok_or_else`
abbrev pub ok_or {ℓ} : {A : Type ℓ} → Option A → AppError → Result A
ok_or none e = err e
ok_or (some a) e = ok a

pub Result-cases {ℓ} :
    {A : Type ℓ} (r : Result A) → ((a : A) × (r ≡ ok a)) ⊎ ((e : AppError) × (r ≡ err e))
Result-cases (ok a) = inl (a, refl)
Result-cases (err e) = inr (e, refl)

-- What succeeds behind a `?` has succeeded before it.
pub >>=-eq-ok {ℓ κ} :
    {Value : Type ℓ} {Next : Type κ} (first : Result Value) (next : Value → Result Next)
    {last : Next}
    → (first >>= next) ≡ ok last
    → (value : Value) × (first ≡ ok value) × (next value ≡ ok last)
>>=-eq-ok (err why) next h = absurd (cc h)
>>=-eq-ok (ok value) next h = (value, refl, h)

pub ok-injective {ℓ} : {A : Type ℓ} {a b : A} → ok a ≡ ok b → a ≡ b
ok-injective e = cc

-- The decimal digits of a number below 1000, as `{}` prints them.
abbrev pub show_small : ℕ → Text
show_small n =
    if ltb n 10
    then (48 + n) ∷ []
    else if ltb n 100
    then (48 + n / 10) ∷ (48 + n % 10) ∷ []
    else (48 + n / 100) ∷ (48 + n / 10 % 10) ∷ (48 + n % 10) ∷ []

-- The status, the code and the message of the JSON envelope.
pub record HttpParts : Type 0 where
  pub status : ℕ
  pub code : Text
  pub message : Text

abbrev pub parts : ℕ → Text → Text → HttpParts
parts s c m = record { status = s; code = c; message = m }

unfoldable pub to_http_parts : AppError → HttpParts
to_http_parts (invalid_query msg) = parts 400 (text "INVALID_QUERY") msg
to_http_parts (invalid_page msg) = parts 400 (text "INVALID_PAGE") msg
to_http_parts (invalid_safe_search val) =
    parts 400 (text "INVALID_SAFE_SEARCH") (text "Invalid safe search value: " ++ show_small val)
to_http_parts (invalid_language msg) = parts 400 (text "INVALID_LANGUAGE") msg
to_http_parts rate_limited =
    parts 429 (text "RATE_LIMITED") (text "Rate limit exceeded. Try again later.")
to_http_parts (unauthorized msg) = parts 401 (text "UNAUTHORIZED") msg
to_http_parts (content_too_large msg) = parts 413 (text "CONTENT_TOO_LARGE") msg
to_http_parts (internal msg) = parts 500 (text "INTERNAL_ERROR") msg
to_http_parts (service_unavailable msg) = parts 503 (text "SERVICE_UNAVAILABLE") msg
to_http_parts (extract_timeout msg) = parts 504 (text "EXTRACT_TIMEOUT") msg
to_http_parts (config e) = parts 500 (text "CONFIG_ERROR") (text "Configuration error")
to_http_parts (bind e) = parts 500 (text "BIND_ERROR") (text "Server failed to bind")
to_http_parts (redis msg) = parts 500 (text "REDIS_ERROR") (text "Cache backend error")

-- The body of `into_response`.
abbrev pub error_body : HttpParts → Json
error_body p = fields (
    (text "success", boolean false)
    ∷ (
      text "error",
      fields ((text "code", string p.code) ∷ (text "message", string p.message) ∷ []),
    )
    ∷ [])

-- Errors of one kind whose detail must not reach a client.
abbrev IsOpaque : AppError → AppError → Type 0
IsOpaque (config _) (config _) = Unit
IsOpaque (bind _) (bind _) = Unit
IsOpaque (redis _) (redis _) = Unit
IsOpaque _ _ = ⊥

-- Two `Config`, `Bind` or `Redis` errors look the same to a client, whatever detail they hold.
pub to_http_parts_opaque : (e e' : AppError) → IsOpaque e e' → to_http_parts e ≡ to_http_parts e'
unfolding to_http_parts
to_http_parts_opaque (config a) (config b) h = refl
to_http_parts_opaque (bind a) (bind b) h = refl
to_http_parts_opaque (redis a) (redis b) h = refl
to_http_parts_opaque _ _ h = absurd h

-- Every error is answered with a status of 400 to 504.
pub to_http_parts_status :
    (e : AppError) → (400 ≤ (to_http_parts e).status) × ((to_http_parts e).status ≤ 504)
unfolding to_http_parts
to_http_parts_status (invalid_query msg) = omega arith
to_http_parts_status _ = omega arith

-- `Display`, from the `#[error(…)]` attributes.
unfoldable pub to_string : AppError → Text
to_string (invalid_query msg) = text "Invalid query: " ++ msg
to_string (invalid_page msg) = text "Invalid page: " ++ msg
to_string (invalid_safe_search val) = text "Invalid safe search value: " ++ show_small val
to_string (invalid_language msg) = text "Invalid language code: " ++ msg
to_string rate_limited = text "Rate limited"
to_string (unauthorized msg) = text "Unauthorized: " ++ msg
to_string (content_too_large msg) = text "Content too large: " ++ msg
to_string (internal msg) = text "Internal error: " ++ msg
to_string (service_unavailable msg) = text "Service unavailable: " ++ msg
to_string (extract_timeout msg) = text "Extract timeout: " ++ msg
to_string (config e) = text "Config error: " ++ e
to_string (bind e) = text "Port bind error: " ++ e
to_string (redis msg) = text "Redis error: " ++ msg
