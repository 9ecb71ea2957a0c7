-- ===== src/Http/Handlers/Timeout.antt =====
-- `convert_timeout_response` of src/gateway/http.rs.
use serica.Prelude.{
  ℕ, ◌≤◌, ◌≡◌, refl, ◌≢◌, inl, inr, Option, none, some, List, [], ◌∷◌, arith, leb, ◌==◌, le→leb,
  Bool-cases, length, Text,
}
use serica.Error.{service_unavailable, to_http_parts}
use serica.Http.{Render, HttpResponse, into_response, rewrap, convert_timeout_response}

-- The body can be read and is not empty.
abbrev pub HasEnvelope : HttpResponse → Type 0
HasEnvelope response = (b : ℕ) × (bytes : List ℕ) × (response.body ≡ some (b ∷ bytes))

module _ (render : Render) where
  timed_out_status :
      (message : Text) → (into_response render (service_unavailable message)).status ≢ 504
  unfolding into_response to_http_parts
  timed_out_status message h = absurd (omega (arith, h))

  rewrap-HasEnvelope :
      (response : HttpResponse) (body : Option (List ℕ))
      → response.body ≡ body
      → (rewrap render response body).status ≡ 504
      → HasEnvelope (rewrap render response body)
  unfolding rewrap
  rewrap-HasEnvelope response none e = λ h. absurd (timed_out_status _ h)
  rewrap-HasEnvelope response (some []) e = λ h. absurd (timed_out_status _ h)
  rewrap-HasEnvelope response (some (b ∷ bytes)) e =
      elim (Bool-cases (leb (length (b ∷ bytes)) 8192)) [
        | inl short ↦ rw short (λ h. (b, bytes, e))
        | inr long ↦ rw long (λ h. absurd (timed_out_status _ h))
      ]

  -- No bare timeout reaches a client: where the response's status is still 504, its body can be read
  -- and is not empty.
  pub convert-HasEnvelope :
      (response : HttpResponse)
      → (convert_timeout_response render response).status ≡ 504
      → HasEnvelope (convert_timeout_response render response)
  unfolding convert_timeout_response
  convert-HasEnvelope response = elim (Bool-cases (response.status == 504)) [
    | inl timeout ↦ rw timeout (rewrap-HasEnvelope response response.body refl)
    | inr other ↦ rw other (λ h. absurd (ground arith))
  ]

  -- An envelope of status 504 that a handler built passes unchanged, up to 8192 bytes.
  pub envelope_kept :
      (response : HttpResponse) (b : ℕ) (bytes : List ℕ)
      → response.body ≡ some (b ∷ bytes)
      → length (b ∷ bytes) ≤ 8192
      → convert_timeout_response render response ≡ response
  unfolding convert_timeout_response rewrap
  envelope_kept response b bytes e short = elim (Bool-cases (response.status == 504)) [
    | inl timeout ↦ rw (timeout, e, le→leb _ _ short)
    | inr other ↦ rw other
  ]
