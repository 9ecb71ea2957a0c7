-- ===== src/Ssrf/Redirects.antt =====
-- The redirect loop of src/util/ssrf.rs: every request that it sends has passed the guard, and there
-- are at most six of them.
use serica.Prelude.{
  ℕ, zero, suc, ◌≤◌, ◌≡◌, refl, sym, ap, ◌∙◌, inl, inr, false, Option, none, some, List, [], ◌∷◌,
  arith, Bool-cases, Option-cases, length, Text,
}
use mathlib.Core.Path.{subst}
use serica.Error.{Result, ok, err, >>=-eq-ok, ok_or, ok-injective}
use serica.Ssrf.Address.{SocketAddr}
use serica.Ssrf.Url.{UrlLib}
use serica.Ssrf.Normalize.{normalize_extract_url}
use serica.Ssrf.Guard.{IsValidated, validate_iff, ok_or-eq-ok}
use serica.Ssrf.Fetch.{
  max_redirect_hops, Response, is_redirection, Network, no_error, validate_extract_target,
  pinned_config, proxy_error, build_pinned_extract_client, resolve_redirect_target, Dial, Fetched,
  prepare, follow, sent, hop_at, go_on, redirect, finish, fetch_from, fetch_extract_target,
}

module _ (U : UrlLib) (net : Network U) (proxy_url : Option Text) where
  open U use {Url, host_str}

  -- A request that the guard has let through at this hop: it is sent for a normalised URL, by a client
  -- that is pinned to the host's address as it was validated at the hop, takes `https` only and follows
  -- no redirect.
  pub record IsGuarded (hop : ℕ) (dial : Dial U net proxy_url) : Type 0 where
    pub addr : SocketAddr
    pub validated : IsValidated U net proxy_url hop dial.url addr
    pub client_is : dial.client ≡ pinned_config U net proxy_url validated.host addr
    pub raw : Url
    pub normalized : dial.url ≡ normalize_extract_url U raw

  -- The requests of the hops from this one on, in order.
  abbrev pub GuardedFrom : ℕ → List (Dial U net proxy_url) → Type 0
  GuardedFrom hop [] = Unit
  GuardedFrom hop (dial ∷ dials) = IsGuarded hop dial × GuardedFrom (suc hop) dials

  no_error-eq-ok :
      (what : Text) (e : Option Text) {u : Unit {0}} → no_error what e ≡ ok u → e ≡ none
  no_error-eq-ok what none h = refl
  no_error-eq-ok what (some e) h = cc

  build-eq-ok :
      (host : Text) (addr : SocketAddr) {c : _}
      → build_pinned_extract_client U net proxy_url host addr ≡ ok c
      → c ≡ pinned_config U net proxy_url host addr
  unfolding build_pinned_extract_client
  build-eq-ok host addr {c} h = elim (Option-cases (proxy_error U net proxy_url proxy_url)) [
    | inr (e, bad) ↦ ground arith
    | inl good ↦ elim (Option-cases (net.build_error (pinned_config U net proxy_url host addr))) [
      | inr (e, bad) ↦ ground arith
      | inl built ↦ ground arith
    ]
  ]

  prepare-IsGuarded :
      (hop : ℕ) (raw current : Url) {dial : Dial U net proxy_url}
      → current ≡ normalize_extract_url U raw
      → prepare U net proxy_url hop current ≡ ok dial
      → (dial.url ≡ current) × IsGuarded hop dial
  unfolding prepare
  prepare-IsGuarded hop raw current {dial} n h =
      let (addr, valid, h1) = >>=-eq-ok (validate_extract_target U net proxy_url hop current) _ h in
      let (host, host_is, h2) = >>=-eq-ok (ok_or (host_str current) _) _ h1 in
      let (client, built, h3) =
        >>=-eq-ok (build_pinned_extract_client U net proxy_url host addr) _ h2 in
      let v = (validate_iff U net proxy_url hop current addr).0 valid in
      let same_host : host ≡ v.host = cc (ok_or-eq-ok _ _ host_is, v.host_is) in
      let same : Dial U net proxy_url = record { client = client; url = current } in
      let is_dial : same ≡ dial = cc in
      let pinned =
        build-eq-ok host addr built ∙ ap (λ x. pinned_config U net proxy_url x addr) same_host in
      (
        ap (λ d. d.url) (sym is_dial),
        subst (IsGuarded hop) is_dial
            (record { addr = addr; validated = v; client_is = pinned; raw = raw; normalized = n }),
      )

  -- What holds of the loop's outcome: each request has passed the guard, there are at most `n` of
  -- them, and a result is a response that is no redirect, to a normalised URL.
  pub record IsSafe (hop n : ℕ) (f : Fetched U net proxy_url) : Type 0 where
    pub guarded : GuardedFrom hop f.dials
    pub few : length f.dials ≤ n
    pub final :
        (response : Response) (url : Url)
        → f.result ≡ ok (response, url)
        → (is_redirection response ≡ false) × ((raw : Url) × (url ≡ normalize_extract_url U raw))

  abbrev Next : Type 0
  Next = Option (Url → Fetched U net proxy_url)

  abbrev IsSafeNext : ℕ → ℕ → Next → Type 0
  IsSafeNext hop n none = Unit
  IsSafeNext hop n (some next) =
      (raw target : Url) → target ≡ normalize_extract_url U raw → IsSafe hop n (next target)

  follow-normalized :
      (current : Url) (response : Response) {target : Url}
      → follow U net proxy_url current response ≡ ok target
      → (raw : Url) × (target ≡ normalize_extract_url U raw)
  unfolding follow resolve_redirect_target
  follow-normalized current response h =
      let (location, _, h1) = >>=-eq-ok (ok_or response.location _) _ h in
      let (raw, _, h2) = >>=-eq-ok (ok_or (U.join current location) _) _ h1 in (raw, cc)

  go_on-IsSafe :
      (hop n : ℕ) (dial : Dial U net proxy_url) (next : Url → Fetched U net proxy_url)
      (current : Url) (response : Response) (target : Result Url)
      → follow U net proxy_url current response ≡ target
      → IsGuarded hop dial
      → IsSafeNext (suc hop) n (some next)
      → IsSafe hop (suc n) (go_on U net proxy_url dial next target)
  unfolding go_on
  go_on-IsSafe hop n dial next current response (err e) bad g safe = record {
    guarded = (g, tt);
    few = omega arith;
    final = λ r u e'. absurd (cc e');
  }
  go_on-IsSafe hop n dial next current response (ok target) good g safe =
      let (raw, is_normal) = follow-normalized current response good in
      let rest = safe raw target is_normal in
      record { guarded = (g, rest.guarded); few = omega (arith, rest.few); final = rest.final }

  redirect-IsSafe :
      (hop n : ℕ) (dial : Dial U net proxy_url) (next : Next) (current : Url) (response : Response)
      → IsGuarded hop dial
      → IsSafeNext (suc hop) n next
      → IsSafe hop (suc n) (redirect U net proxy_url dial next current response)
  unfolding redirect
  redirect-IsSafe hop n dial none current response g safe = record {
    guarded = (g, tt);
    few = omega arith;
    final = λ r u e. absurd (cc e);
  }
  redirect-IsSafe hop n dial (some next) current response g safe =
      go_on-IsSafe hop n dial next current response _ refl g safe

  sent-IsSafe :
      (hop n : ℕ) (dial : Dial U net proxy_url) (answer : Option Response) (next : Next)
      (raw current : Url)
      → current ≡ normalize_extract_url U raw
      → IsGuarded hop dial
      → IsSafeNext (suc hop) n next
      → IsSafe hop (suc n) (finish U net proxy_url (sent U net proxy_url dial answer) next current)
  unfolding finish sent
  sent-IsSafe hop n dial none next raw current is_normal g safe = record {
    guarded = (g, tt);
    few = omega arith;
    final = λ r u e. absurd (cc e);
  }
  sent-IsSafe hop n dial (some response) next raw current is_normal g safe =
      elim (Bool-cases (is_redirection response)) [
        | inl away ↦ rw away (redirect-IsSafe hop n dial next current response g safe)
        | inr stays ↦ rw stays (record {
          guarded = (g, tt);
          few = omega arith;
          final = λ r u e.
              let same = ok-injective e in
              (rw (← ap (λ p. p.0) same) stays, (raw, ap (λ p. p.1) (sym same) ∙ is_normal));
        })
      ]

  hop-IsSafe :
      (n hop : ℕ) (raw current : Url) (prepared : Result (Dial U net proxy_url)) (next : Next)
      → current ≡ normalize_extract_url U raw
      → prepare U net proxy_url hop current ≡ prepared
      → IsSafeNext (suc hop) n next
      → IsSafe hop
          (suc n)
          (finish U net proxy_url (hop_at U net proxy_url hop prepared) next current)
  unfolding hop_at
  hop-IsSafe n hop raw current (err e) next is_normal h safe =
      unfold finish in record { guarded = tt; few = omega arith; final = λ r u e'. absurd (cc e') }
  hop-IsSafe n hop raw current (ok dial) next is_normal h safe =
      sent-IsSafe hop n dial (net.send hop dial.client dial.url) next raw current is_normal
        (prepare-IsGuarded hop raw current {dial = dial} is_normal h).1 safe

  fetch_from-IsSafe :
      (left hop : ℕ) (raw current : Url)
      → current ≡ normalize_extract_url U raw
      → IsSafe hop (suc left) (fetch_from U net proxy_url left hop current)
  unfolding fetch_from
  fetch_from-IsSafe zero hop raw current is_normal =
      hop-IsSafe 0 hop raw current _ none is_normal refl tt
  fetch_from-IsSafe (suc left) hop raw current is_normal =
      hop-IsSafe (suc left) hop raw current _ (some (fetch_from U net proxy_url left (suc hop)))
        is_normal refl (fetch_from-IsSafe left (suc hop))

  -- Whatever the resolver and the network do, from one hop to the next: every request that the
  -- extract fetch sends is for a normalised `https` URL, by a client that is pinned to the address
  -- which the guard has validated at that very hop, and there are at most six. A response that it returns is
  -- no redirect, and the URL returned with it is normalised.
  pub fetch_extract_target-IsSafe :
      (url : Url) → IsSafe 0 (suc max_redirect_hops) (fetch_extract_target U net proxy_url url)
  unfolding fetch_extract_target
  fetch_extract_target-IsSafe url =
      fetch_from-IsSafe max_redirect_hops 0 url (normalize_extract_url U url) refl
