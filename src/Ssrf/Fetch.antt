-- ===== src/Ssrf/Fetch.antt =====
-- src/util/ssrf.rs, `validate_extract_target`, `build_pinned_extract_client` and
-- `fetch_extract_target`. The resolver and the network are parameters, asked anew for each hop, so
-- that a name may resolve otherwise from one hop to the next.
use serica.Prelude.{
  ℕ, zero, suc, Bool, true, false, not, ◌&&◌, Option, none, some, List, [], ◌∷◌, ◌++◌, ltb, leb,
  if◌then◌else◌, Text, text, text_eq,
}
use serica.Error.{
  AppError, invalid_query, internal, service_unavailable, Result, ok, err, ◌>>=◌, ◌>>◌, guard,
  ok_or,
}
use serica.Ssrf.Address.{SocketAddr, is_forbidden_target}
use serica.Ssrf.Url.{UrlLib}
use serica.Ssrf.Normalize.{normalize_extract_url}

abbrev pub max_redirect_hops : ℕ
max_redirect_hops = 5

-- `EXTRACT_TIMEOUT`, in seconds
abbrev pub extract_timeout_secs : ℕ
extract_timeout_secs = 15

abbrev pub extract_user_agent : Text
extract_user_agent = text "Mozilla/5.0 (compatible; Serica/0.2)"

-- What `reqwest::ClientBuilder` is told.
pub record ClientConfig : Type 0 where
  pub https_only : Bool
  pub follows_redirects : Bool
  pub resolve : Text × SocketAddr
  pub user_agent : Text
  pub timeout : ℕ
  pub no_proxy : Bool
  pub proxy : Option Text

-- An item of the stream of the body: bytes, or an error as it is printed.
pub data Chunk : Type 0 where
  received : List ℕ → Chunk
  broken : Text → Chunk

-- What is read of a `reqwest::Response`. A header whose value is no text counts as absent where the
-- source uses `to_str().ok()`.
pub record Response : Type 0 where
  pub status : ℕ
  pub location : Option Text
  pub content_type : Option Text
  pub content_length : Option ℕ
  pub chunks : List Chunk

abbrev pub is_redirection : Response → Bool
is_redirection r = leb 300 r.status && ltb r.status 400

abbrev pub is_success : Response → Bool
is_success r = leb 200 r.status && ltb r.status 300

-- The world outside: `lookup_host` and `send`, whose first argument is the number of the hop and
-- which fail with `none`; the error of `Proxy::all` and of `build`, if any, as it is printed; and how
-- a `StatusCode` is printed.
pub record Network (U : UrlLib) : Type 0 where
  pub lookup_host : ℕ → Text → ℕ → Option (List SocketAddr)
  pub proxy_error : Text → Option Text
  pub build_error : ClientConfig → Option Text
  pub send : ℕ → ClientConfig → U.Url → Option Response
  pub show_status : ℕ → Text

-- The loop over the candidates: `resolved.get_or_insert(addr)`, unless one is forbidden.
unfoldable pub check_candidates : Option SocketAddr → List SocketAddr → Result (Option SocketAddr)
check_candidates resolved [] = ok resolved
check_candidates resolved (addr ∷ candidates) =
    if is_forbidden_target addr.ip
    then err (invalid_query (text "URL resolves to a non-public address"))
    else check_candidates (elim resolved [ none ↦ some addr | some found ↦ some found ]) candidates

-- `map_err(|e| AppError::Internal(format!("{what}: {e}")))?`
abbrev pub no_error : Text → Option Text → Result (Unit {0})
no_error what none = ok tt
no_error what (some e) = err (internal (what ++ e))

-- `unwrap_or`
abbrev pub unwrap_or {ℓ} : {A : Type ℓ} → Option A → A → A
unwrap_or none d = d
unwrap_or (some a) d = a

module _ (U : UrlLib) (net : Network U) (proxy_url : Option Text) where
  open U use {Url, scheme, host_str, port_or_known_default, join}

  unfoldable pub validate_extract_target : ℕ → Url → Result SocketAddr
  unfolding check_candidates
  validate_extract_target hop url = do
    guard (text_eq (scheme url) (text "https"))
        (invalid_query (text "Only https:// URLs may be extracted"))
    host ← ok_or (host_str url) (invalid_query (text "URL has no host"))
    let port = unwrap_or (port_or_known_default url) 443
    candidates ←
        ok_or (net.lookup_host hop host port) (invalid_query (text "Host could not be resolved"))
    resolved ← check_candidates none candidates
    ok_or resolved (invalid_query (text "Host could not be resolved"))

  abbrev pub pinned_config : Text → SocketAddr → ClientConfig
  pinned_config host addr = record {
    https_only = true;
    follows_redirects = false;
    resolve = (host, addr);
    user_agent = extract_user_agent;
    timeout = extract_timeout_secs;
    no_proxy = true;
    proxy = proxy_url;
  }

  -- `if let Some(proxy_url) = proxy_url { … }`
  abbrev pub proxy_error : Option Text → Option Text
  proxy_error none = none
  proxy_error (some url) = net.proxy_error url

  unfoldable pub build_pinned_extract_client : Text → SocketAddr → Result ClientConfig
  build_pinned_extract_client host addr = do
    no_error (text "Failed to build extract proxy: ") (proxy_error proxy_url)
    no_error (text "Failed to build extract client: ") (net.build_error (pinned_config host addr))
    ok (pinned_config host addr)

  unfoldable pub resolve_redirect_target : Url → Text → Result Url
  resolve_redirect_target current location = do
    next ←
        ok_or (join current location)
          (invalid_query (text "Redirect target could not be parsed as a URL"))
    ok (normalize_extract_url U next)

  -- A request that is sent: by which client, and for which URL.
  pub record Dial : Type 0 where
    pub client : ClientConfig
    pub url : Url

  -- The result of the loop, with the requests that it sent, in order.
  pub record Fetched : Type 0 where
    pub result : Result (Response × Url)
    pub dials : List Dial

  -- One round of the loop up to the request.
  unfoldable pub prepare : ℕ → Url → Result Dial
  prepare hop current = do
    addr ← validate_extract_target hop current
    host ← ok_or (host_str current) (invalid_query (text "URL has no host"))
    client ← build_pinned_extract_client host addr
    ok (record { client = client; url = current })

  -- Where a redirect leads.
  unfoldable pub follow : Url → Response → Result Url
  follow current response = do
    location ← ok_or response.location (
        invalid_query (
          text "Redirect response ("
          ++ (net.show_status response.status ++ text ") had no usable Location header")))
    resolve_redirect_target current location

  -- The two places where a redirect ends the loop: the hop limit, and a bad target.
  abbrev pub too_many : AppError
  too_many = invalid_query (text "Too many redirects (exceeded 5)")

  -- One round: what is sent, and then the end of the loop or another URL.
  pub data Hop : Type 0 where
    refused : AppError → Hop
    failed : Dial → Hop
    fetched : Dial → Response → Hop
    redirected : Dial → Response → Hop

  unfoldable pub sent : Dial → Option Response → Hop
  sent dial none = failed dial
  sent dial (some response) =
      if not (is_redirection response) then fetched dial response else redirected dial response

  unfoldable pub hop_at : ℕ → Result Dial → Hop
  unfolding sent
  hop_at hop (err e) = refused e
  hop_at hop (ok dial) = sent dial (net.send hop dial.client dial.url)

  -- Going on at the redirect's target.
  unfoldable pub go_on : Dial → (Url → Fetched) → Result Url → Fetched
  go_on dial next (err e) = record { result = err e; dials = dial ∷ [] }
  go_on dial next (ok target) =
      let rest = next target in record { result = rest.result; dials = dial ∷ rest.dials }

  -- The end of a round; `next` is the rest of the loop, `none` at the hop limit.
  unfoldable pub redirect : Dial → Option (Url → Fetched) → Url → Response → Fetched
  unfolding go_on
  redirect dial none current response = record { result = err too_many; dials = dial ∷ [] }
  redirect dial (some next) current response = go_on dial next (follow current response)

  unfoldable pub finish : Hop → Option (Url → Fetched) → Url → Fetched
  unfolding redirect
  finish (refused e) next current = record { result = err e; dials = [] }
  finish (failed dial) next current = record {
    result = err (service_unavailable (text "Failed to fetch URL"));
    dials = dial ∷ [];
  }
  finish (fetched dial response) next current = record {
    result = ok (response, current);
    dials = dial ∷ [];
  }
  finish (redirected dial response) next current = redirect dial next current response

  -- The loop, with the redirects that may still be followed: `MAX_REDIRECT_HOPS` less
  -- `redirects_followed`, so that it ends with no fuel.
  unfoldable pub fetch_from : ℕ → ℕ → Url → Fetched
  fetch_from zero hop current = finish (hop_at hop (prepare hop current)) none current
  fetch_from (suc left) hop current =
      finish (hop_at hop (prepare hop current)) (some (fetch_from left (suc hop))) current

  unfoldable pub fetch_extract_target : Url → Fetched
  unfolding fetch_from finish hop_at prepare validate_extract_target build_pinned_extract_client
      follow resolve_redirect_target
  fetch_extract_target url = fetch_from max_redirect_hops 0 (normalize_extract_url U url)
