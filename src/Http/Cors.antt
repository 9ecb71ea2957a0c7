-- ===== src/Http/Cors.antt =====
-- src/gateway/http.rs, `build_cors_layer`. Whether a text is a header value is a parameter.
use serica.Prelude.{
  ℕ, ◌≡◌, refl, sym, ◌∙◌, ◌≢◌, ◌⊎◌, inl, inr, true, false, Option, none, some, List, [], ◌∷◌, ◌++◌,
  if◌then◌else◌, Bool-cases, is_empty, Text, text, text_eq, text_eq_iff,
}

-- What `Access-Control-Allow-Origin` is answered.
pub data AllowOrigin : Type 0 where
  any_origin : AllowOrigin
  exact : Text → AllowOrigin

pub record CorsLayer : Type 0 where
  pub allow_origin : AllowOrigin
  pub allow_methods : List Text
  pub allow_headers : List Text

-- A layer or none, or the message of a startup error.
pub data Built : Type 0 where
  built : Option CorsLayer → Built
  invalid : Text → Built

abbrev pub layer_for : AllowOrigin → CorsLayer
layer_for origin = record {
  allow_origin = origin;
  allow_methods = text "GET" ∷ [];
  allow_headers = text "accept" ∷ [];
}

-- `o.parse::<HeaderValue>()`, `none` where it succeeds, else its error as it is printed.
module _ (header_value_error : Text → Option Text) where
  abbrev pub parsed_origin : Text → Option Text → Built
  parsed_origin o none = built (some (layer_for (exact o)))
  parsed_origin o (some e) = invalid (
      text "invalid cors.origin '"
      ++ (o
          ++ (text "': "
              ++ (e
                  ++ text
                      " (set SERICA_CORS__ORIGIN or [cors].origin in serica.toml to a valid origin, e.g. https://example.com, or leave it unset to disable CORS)"))))

  unfoldable pub build_cors_layer : Option Text → Built
  build_cors_layer none = built none
  build_cors_layer (some o) =
      if is_empty o
      then built none
      else if text_eq o (text "*")
      then built (some (layer_for any_origin))
      else parsed_origin o (header_value_error o)

  -- Who may read a response from another origin.
  pub data IsAllowed : Option Text → Built → Type 0 where
    nobody : {o : Option Text} → (o ≡ none) ⊎ (o ≡ some []) → IsAllowed o (built none)
    everybody : {o : Text} → o ≡ text "*" → IsAllowed (some o) (built (some (layer_for any_origin)))
    that_origin :
        {o : Text}
        → o ≢ []
        → o ≢ text "*"
        → header_value_error o ≡ none
        → IsAllowed (some o) (built (some (layer_for (exact o))))
    refuses_to_start :
        {o m e : Text}
        → o ≢ []
        → o ≢ text "*"
        → header_value_error o ≡ some e
        → IsAllowed (some o) (invalid m)

  other_origin :
      (o : Text) (e : Option Text)
      → o ≢ []
      → o ≢ text "*"
      → header_value_error o ≡ e
      → IsAllowed (some o) (parsed_origin o e)
  other_origin o none filled named h = that_origin filled named h
  other_origin o (some e) filled named h = refuses_to_start filled named h

  named_origin : (c : ℕ) (o : Text) → IsAllowed (some (c ∷ o)) (build_cors_layer (some (c ∷ o)))
  unfolding build_cors_layer
  named_origin c o = elim (Bool-cases (text_eq (c ∷ o) (text "*"))) [
    | inl star ↦ rw star (everybody ((text_eq_iff _ _).0 star))
    | inr named ↦ rw named (
        other_origin (c ∷ o) _ (λ e. cc e)
          (λ e. let clash : true ≡ false = sym ((text_eq_iff _ _).1 e) ∙ named in cc clash) refl)
  ]

  -- A wildcard is built for the origin `*` alone: a value that is no header value stops the start, one
  -- that is names the one origin, and without a value there is no layer.
  pub build_cors_layer-IsAllowed :
      (origin : Option Text) → IsAllowed origin (build_cors_layer origin)
  unfolding build_cors_layer
  build_cors_layer-IsAllowed none = nobody (inl refl)
  build_cors_layer-IsAllowed (some []) = nobody (inr refl)
  build_cors_layer-IsAllowed (some (c ∷ o)) = named_origin c o
