-- ===== src/Ssrf/Guard.antt =====
-- What the guard of src/util/ssrf.rs promises: whom it lets a request be sent to.
use serica.Prelude.{
  ℕ, ◌≡◌, refl, ap, ◌∙◌, ◌↔◌, inl, inr, Bool, true, false, Option, none, some, List, [], ◌∷◌, arith,
  Bool-cases, All, Text, text, text_eq_iff,
}
use serica.Error.{ok, >>=-eq-ok, guard, ok_or, AppError}
use serica.Ssrf.Address.{SocketAddr, is_forbidden_target}
use serica.Ssrf.Url.{UrlLib}
use serica.Ssrf.Fetch.{Network, check_candidates, unwrap_or, validate_extract_target}

abbrev pub IsPublic : SocketAddr → Type 0
IsPublic addr = is_forbidden_target addr.ip ≡ false

pub guard-eq-ok : (b : Bool) (e : AppError) {u : Unit {0}} → guard b e ≡ ok u → b ≡ true
guard-eq-ok true e h = refl
guard-eq-ok false e h = cc

pub ok_or-eq-ok {ℓ} :
    {A : Type ℓ} (o : Option A) (e : AppError) {a : A} → ok_or o e ≡ ok a → o ≡ some a
ok_or-eq-ok none e h = cc
ok_or-eq-ok (some b) e h = cc

check_candidates-some :
    (found : SocketAddr) (candidates : List SocketAddr) {r : Option SocketAddr}
    → check_candidates (some found) candidates ≡ ok r
    → (r ≡ some found) × All IsPublic candidates
unfolding check_candidates
check_candidates-some found [] h = (ground arith, tt)
check_candidates-some found (addr ∷ candidates) {r} h =
    ground (arith, check_candidates-some found candidates {r = r})

-- A successful check of a list that gives an address gives its first, and all are public.
check_candidates-none :
    (candidates : List SocketAddr) {addr : SocketAddr}
    → check_candidates none candidates ≡ ok (some addr)
    → (rest : List SocketAddr) × (candidates ≡ addr ∷ rest) × All IsPublic (addr ∷ rest)
unfolding check_candidates
check_candidates-none [] h = cc
check_candidates-none (first ∷ candidates) {addr} h =
    elim (Bool-cases (is_forbidden_target first.ip)) [
      | inl bad ↦ absurd (ground arith)
      | inr good ↦
          let (same, public) =
            check_candidates-some first candidates {r = some addr} (ground arith) in
          (candidates, cc, (cc, public))
    ]

check_candidates_public :
    (found : SocketAddr) (candidates : List SocketAddr)
    → All IsPublic candidates
    → check_candidates (some found) candidates ≡ ok (some found)
unfolding check_candidates
check_candidates_public found [] h = refl
check_candidates_public found (addr ∷ candidates) h =
    ground (arith, check_candidates_public found candidates)

module _ (U : UrlLib) (net : Network U) (proxy_url : Option Text) where
  open U use {Url, scheme, host_str, port_or_known_default}

  -- `addr` is what the guard lets the host of `url` be dialled at, in round `hop`: the first of the
  -- addresses that the host resolves to then, every one of which is public.
  pub record IsValidated (hop : ℕ) (url : Url) (addr : SocketAddr) : Type 0 where
    pub is_https : scheme url ≡ text "https"
    pub host : Text
    pub host_is : host_str url ≡ some host
    pub others : List SocketAddr
    pub resolves :
        net.lookup_host hop host (unwrap_or (port_or_known_default url) 443) ≡ some (addr ∷ others)
    pub all_public : All IsPublic (addr ∷ others)

  validate_sound :
      (hop : ℕ) (url : Url) {addr : SocketAddr}
      → validate_extract_target U net proxy_url hop url ≡ ok addr
      → IsValidated hop url addr
  unfolding validate_extract_target
  validate_sound hop url h =
      let (_, https, h1) = >>=-eq-ok (guard _ _) _ h in
      let (host, host_is, h2) = >>=-eq-ok (ok_or (host_str url) _) _ h1 in
      let (candidates, found, h3) = >>=-eq-ok (ok_or (net.lookup_host hop host _) _) _ h2 in
      let (resolved, checked, h4) = >>=-eq-ok (check_candidates none candidates) _ h3 in
      let (others, is_cons, public) =
        check_candidates-none candidates (checked ∙ ap ok (ok_or-eq-ok resolved _ h4)) in
      record {
        is_https = (text_eq_iff _ _).0 (guard-eq-ok _ _ https);
        host = host;
        host_is = ok_or-eq-ok _ _ host_is;
        others = others;
        resolves = ok_or-eq-ok _ _ found ∙ ap some is_cons;
        all_public = public;
      }

  validate_complete :
      (hop : ℕ) (url : Url) (addr : SocketAddr)
      → IsValidated hop url addr
      → validate_extract_target U net proxy_url hop url ≡ ok addr
  unfolding validate_extract_target check_candidates
  validate_complete hop url addr v =
      rw
        (
          (text_eq_iff (scheme url) (text "https")).1 v.is_https,
          v.host_is,
          v.resolves,
          v.all_public.0,
        )
        (rw (check_candidates_public addr v.others v.all_public.1))

  -- The guard lets a URL through with an address exactly when the scheme is `https`, the host
  -- resolves, every address that it resolves to is public, and the address is the first of them.
  pub validate_iff :
      (hop : ℕ) (url : Url) (addr : SocketAddr)
      → (validate_extract_target U net proxy_url hop url ≡ ok addr) ↔ IsValidated hop url addr
  validate_iff hop url addr = (validate_sound hop url, validate_complete hop url addr)
