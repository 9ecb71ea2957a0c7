-- ===== src/Http/Router/Envelopes/Layers.antt =====
-- The layers of src/gateway/http.rs, `router`: what a client gets on each route is an envelope.
use serica.Prelude.{
  ℕ, ◌*◌, ◌≤◌, ◌≡◌, refl, ◌⊎◌, inl, inr, Option, none, some, List, [], ◌∷◌, leb, ◌==◌, le→leb,
  Bool-cases, length, text,
}
use serica.Error.{rate_limited, service_unavailable}
use serica.Config.{Config}
use serica.Http.{HttpResponse, rewrap, convert_timeout_response}
use serica.Http.Router.{
  Handler, health_live_handler, health_ready_handler, search_handler, stats_handler,
  extract_handler, route, Service, too_many_requests, unable_to_extract_key, other, Verdict,
  admitted, rejected, timeout_layer, timeout_marker_status, Request, Outside,
  rate_limit_error_handler, governor_layer, routed, converted, serve,
}
use serica.Http.Router.Envelopes.{IsEnveloped, into_response-IsEnveloped}

module _ (config : Config) (out : Outside) where
  -- The response, if there is one, is an envelope.
  abbrev pub AreEnveloped : Service → Type 0
  AreEnveloped none = Unit
  AreEnveloped (some a) = IsEnveloped out.render a.response

  -- There is a response, and it is an envelope.
  abbrev pub IsAnswered : Service → Type 0
  IsAnswered none = ⊥
  IsAnswered (some a) = IsEnveloped out.render a.response

  -- A client sees envelopes, and bare timeouts are turned into such.
  abbrev MayConvert : HttpResponse → Type 0
  MayConvert r =
      IsEnveloped out.render r ⊎ (r ≡ record { status = timeout_marker_status; body = some [] })

  abbrev MayConverts : Service → Type 0
  MayConverts none = ⊥
  MayConverts (some a) = MayConvert a.response

  -- A limiter rejects a request only for its rate.
  abbrev pub RejectsByRate : Verdict → Type 0
  RejectsByRate admitted = Unit
  RejectsByRate (rejected (too_many_requests headers)) = Unit
  RejectsByRate (rejected unable_to_extract_key) = ⊥
  RejectsByRate (rejected other) = ⊥

  governor_layer-IsEnveloped :
      (v : Verdict) (s : Service)
      → RejectsByRate v
      → AreEnveloped s
      → AreEnveloped (governor_layer config out v s)
  unfolding governor_layer rate_limit_error_handler
  governor_layer-IsEnveloped admitted s v h = h
  governor_layer-IsEnveloped (rejected (too_many_requests headers)) s v h =
      into_response-IsEnveloped out.render rate_limited
  governor_layer-IsEnveloped (rejected unable_to_extract_key) s v h = absurd v
  governor_layer-IsEnveloped (rejected other) s v h = absurd v

  timeout_layer-MayConvert :
      (budget : ℕ) (s : Service) → AreEnveloped s → MayConverts (timeout_layer budget s)
  unfolding timeout_layer
  timeout_layer-MayConvert budget none h = inr refl
  timeout_layer-MayConvert budget (some a) h = elim (Bool-cases (leb a.ms budget)) [
    | inl e ↦ rw e (inl h)
    | inr e ↦ rw e (inr refl)
  ]

  rewrap-IsEnveloped :
      (r : HttpResponse) (body : Option (List ℕ))
      → IsEnveloped out.render r
      → IsEnveloped out.render (rewrap out.render r body)
  unfolding rewrap
  rewrap-IsEnveloped r none h = into_response-IsEnveloped out.render _
  rewrap-IsEnveloped r (some []) h = into_response-IsEnveloped out.render _
  rewrap-IsEnveloped r (some (b ∷ bytes)) h = elim (Bool-cases (leb (length (b ∷ bytes)) 8192)) [
    | inl e ↦ rw e h
    | inr e ↦ rw e (into_response-IsEnveloped out.render _)
  ]

  convert-IsEnveloped :
      (r : HttpResponse)
      → MayConvert r
      → IsEnveloped out.render (convert_timeout_response out.render r)
  unfolding convert_timeout_response
  convert-IsEnveloped r (inl h) = elim (Bool-cases (r.status == 504)) [
    | inl e ↦ rw e (rewrap-IsEnveloped r r.body h)
    | inr e ↦ rw e h
  ]
  convert-IsEnveloped r (inr bare) =
      unfold rewrap in
      (rw bare
        (into_response-IsEnveloped out.render (service_unavailable (text "Request timed out"))))

  converted-IsAnswered : (s : Service) → MayConverts s → IsAnswered (converted config out s)
  converted-IsAnswered none h = absurd h
  converted-IsAnswered (some a) h = convert-IsEnveloped a.response h

  kept : (s : Service) → IsAnswered s → MayConverts s
  kept none h = absurd h
  kept (some a) h = inl h

  module _ (general : RejectsByRate out.general) (extract : RejectsByRate out.extract)
      (handled : (h : Handler) → AreEnveloped (out.handle h))
      (live : IsAnswered (out.handle health_live_handler))
      (ready : IsAnswered (out.handle health_ready_handler)) where
    routed-MayConvert : (h : Handler) → MayConverts (routed config out h)
    unfolding routed
    routed-MayConvert search_handler =
        timeout_layer-MayConvert _ _
          (governor_layer-IsEnveloped out.general _ general (handled search_handler))
    routed-MayConvert stats_handler =
        timeout_layer-MayConvert _ _
          (governor_layer-IsEnveloped out.general _ general (handled stats_handler))
    routed-MayConvert extract_handler =
        timeout_layer-MayConvert _ _
          (governor_layer-IsEnveloped out.extract _ extract (handled extract_handler))
    routed-MayConvert health_live_handler = kept _ live
    routed-MayConvert health_ready_handler = kept _ ready

    -- The router answers by an envelope on each of its paths.
    pub serve-IsAnswered :
        (request : Request) (h : Handler)
        → route request.path ≡ some h
        → request.content_length ≤ 8 * 1024
        → IsAnswered (serve config out request)
    unfolding serve
    serve-IsAnswered request h found small =
        rw (le→leb _ _ small, found) (converted-IsAnswered _ (routed-MayConvert h))
