-- ===== src/Ssrf/Failures.antt =====
-- How src/util/ssrf.rs fails: by the errors of a request only.
use serica.Prelude.{
  ℕ, zero, suc, inl, inr, Option, none, some, List, [], ◌∷◌, Bool-cases, Text, text, text_eq,
}
use serica.Error.{Result, ok, err, guard, ok_or}
use serica.Error.Documented.{
  FailsOfRequest, >>=-FailsOfRequest, guard-FailsOfRequest, ok_or-FailsOfRequest,
}
use serica.Ssrf.Address.{SocketAddr, is_forbidden_target}
use serica.Ssrf.Url.{UrlLib}
use serica.Ssrf.Normalize.{normalize_extract_url}
use serica.Ssrf.Fetch.{
  max_redirect_hops, Response, is_redirection, Network, no_error, unwrap_or, check_candidates,
  validate_extract_target, pinned_config, proxy_error, build_pinned_extract_client,
  resolve_redirect_target, Dial, Fetched, prepare, follow, sent, hop_at, go_on, redirect, finish,
  fetch_from, fetch_extract_target,
}

check_candidates-FailsOfRequest :
    (resolved : Option SocketAddr) (candidates : List SocketAddr)
    → FailsOfRequest (check_candidates resolved candidates)
unfolding check_candidates
check_candidates-FailsOfRequest resolved [] = tt
check_candidates-FailsOfRequest resolved (addr ∷ candidates) =
    elim (Bool-cases (is_forbidden_target addr.ip)) [
      | inl e ↦ rw e tt
      | inr e ↦ rw e (check_candidates-FailsOfRequest _ candidates)
    ]

no_error-FailsOfRequest : (what : Text) (e : Option Text) → FailsOfRequest (no_error what e)
no_error-FailsOfRequest what none = tt
no_error-FailsOfRequest what (some e) = tt

module _ (U : UrlLib) (net : Network U) (proxy_url : Option Text) where
  open U use {Url, scheme, host_str, port_or_known_default, join}

  validate-FailsOfRequest :
      (hop : ℕ) (url : Url) → FailsOfRequest (validate_extract_target U net proxy_url hop url)
  unfolding validate_extract_target
  validate-FailsOfRequest hop url =
      >>=-FailsOfRequest (guard (text_eq (scheme url) (text "https")) _) _
        (guard-FailsOfRequest (text_eq (scheme url) (text "https")) _ tt)
        (λ _.
          >>=-FailsOfRequest (ok_or (host_str url) _) _ (ok_or-FailsOfRequest (host_str url) _ tt)
            (λ host.
              let found = net.lookup_host hop host (unwrap_or (port_or_known_default url) 443) in
              >>=-FailsOfRequest (ok_or found _) _ (ok_or-FailsOfRequest found _ tt) (λ candidates.
                >>=-FailsOfRequest (check_candidates none candidates) _
                  (check_candidates-FailsOfRequest none candidates)
                  (λ resolved. ok_or-FailsOfRequest resolved _ tt))))

  build-FailsOfRequest :
      (host : Text) (addr : SocketAddr)
      → FailsOfRequest (build_pinned_extract_client U net proxy_url host addr)
  unfolding build_pinned_extract_client
  build-FailsOfRequest host addr =
      let bad_proxy = proxy_error U net proxy_url proxy_url in
      let bad_client = net.build_error (pinned_config U net proxy_url host addr) in
      >>=-FailsOfRequest (no_error (text "Failed to build extract proxy: ") bad_proxy) _
        (no_error-FailsOfRequest (text "Failed to build extract proxy: ") bad_proxy)
        (λ _.
          >>=-FailsOfRequest (no_error (text "Failed to build extract client: ") bad_client) _
            (no_error-FailsOfRequest (text "Failed to build extract client: ") bad_client)
            (λ _. tt))

  prepare-FailsOfRequest : (hop : ℕ) (url : Url) → FailsOfRequest (prepare U net proxy_url hop url)
  unfolding prepare
  prepare-FailsOfRequest hop url =
      >>=-FailsOfRequest (validate_extract_target U net proxy_url hop url) _
        (validate-FailsOfRequest hop url)
        (λ addr.
          >>=-FailsOfRequest (ok_or (host_str url) _) _ (ok_or-FailsOfRequest (host_str url) _ tt)
            (λ host.
              >>=-FailsOfRequest (build_pinned_extract_client U net proxy_url host addr) _
                (build-FailsOfRequest host addr) (λ _. tt)))

  follow-FailsOfRequest :
      (url : Url) (response : Response) → FailsOfRequest (follow U net proxy_url url response)
  unfolding follow resolve_redirect_target
  follow-FailsOfRequest url response =
      >>=-FailsOfRequest (ok_or response.location _) _ (ok_or-FailsOfRequest response.location _ tt)
        (λ location.
          >>=-FailsOfRequest (ok_or (join url location) _) _
            (ok_or-FailsOfRequest (join url location) _ tt) (λ _. tt))

  abbrev Open : Fetched U net proxy_url → Type 0
  Open f = FailsOfRequest f.result

  abbrev OpenNext : Option (Url → Fetched U net proxy_url) → Type 0
  OpenNext none = Unit
  OpenNext (some next) = (url : Url) → Open (next url)

  go_on-Open :
      (dial : Dial U net proxy_url) (next : Url → Fetched U net proxy_url) (target : Result Url)
      → FailsOfRequest target
      → OpenNext (some next)
      → Open (go_on U net proxy_url dial next target)
  unfolding go_on
  go_on-Open dial next (err e) h k = h
  go_on-Open dial next (ok target) h k = k target

  sent-Open :
      (dial : Dial U net proxy_url) (answer : Option Response)
      (next : Option (Url → Fetched U net proxy_url)) (url : Url)
      → OpenNext next
      → Open (finish U net proxy_url (sent U net proxy_url dial answer) next url)
  unfolding finish sent redirect
  sent-Open dial none next url k = tt
  sent-Open dial (some response) next url k = elim (Bool-cases (is_redirection response)) [
    | inr e ↦ rw e tt
    | inl e ↦ rw e (redirected-Open next k)
  ]
    where
      redirected-Open :
          (next : Option (Url → Fetched U net proxy_url))
          → OpenNext next
          → Open (redirect U net proxy_url dial next url response)
      redirected-Open none k = tt
      redirected-Open (some next) k = go_on-Open dial next _ (follow-FailsOfRequest url response) k

  hop-Open :
      (hop : ℕ) (prepared : Result (Dial U net proxy_url))
      (next : Option (Url → Fetched U net proxy_url)) (url : Url)
      → FailsOfRequest prepared
      → OpenNext next
      → Open (finish U net proxy_url (hop_at U net proxy_url hop prepared) next url)
  unfolding hop_at
  hop-Open hop (err e) next url h k = unfold finish in h
  hop-Open hop (ok dial) next url h k =
      sent-Open dial (net.send hop dial.client dial.url) next url k

  fetch_from-Open : (left hop : ℕ) (url : Url) → Open (fetch_from U net proxy_url left hop url)
  unfolding fetch_from
  fetch_from-Open zero hop url = hop-Open hop _ none url (prepare-FailsOfRequest hop url) tt
  fetch_from-Open (suc left) hop url =
      hop-Open hop _ (some (fetch_from U net proxy_url left (suc hop))) url
        (prepare-FailsOfRequest hop url) (fetch_from-Open left (suc hop))

  pub fetch-FailsOfRequest :
      (url : Url) → FailsOfRequest (fetch_extract_target U net proxy_url url).result
  unfolding fetch_extract_target
  fetch-FailsOfRequest url = fetch_from-Open max_redirect_hops 0 (normalize_extract_url U url)
