-- ===== src/Ssrf/Tests.antt =====
-- A small world for src/util/ssrf.rs, and the guard's theorems in it.
use serica.Prelude.{
  ℕ, ◌+◌, ◌*◌, ◌≡◌, refl, ◌↔◌, ◌&&◌, ◌||◌, Option, none, some, List, [], ◌∷◌, arith, ltb, leb, ◌==◌,
  if◌then◌else◌, length, any, Text, text, text_eq,
}
use serica.Error.{ok}
use serica.Ssrf.Address.Ipv4.{Ipv4Addr}
use serica.Ssrf.Address.Ipv6.{Ipv6Addr}
use serica.Ssrf.Address.{SocketAddr, v4, v6, is_forbidden_v4, is_forbidden_target}
use serica.Ssrf.Address.Ipv6
use serica.Ssrf.Address.Blocks.{number, within, forbidden_blocks, is_forbidden_v4-blocks}
use serica.Ssrf.Address.Blocks6.{is_mapped, is_forbidden_v6-ranges}
use serica.Ssrf.Url.{UrlLib, UrlLaws}
use serica.Ssrf.Normalize.{normalize_extract_url}
use serica.Ssrf.Fetch.{Network, Response, fetch_extract_target, validate_extract_target}
use serica.Ssrf.Guard.{IsValidated, validate_iff}

-- URLs by their parts: `host?key=value`, always `https`.
pub record SimpleUrl : Type 0 where
  pub host : Text
  pub pairs : List (Text × Text)
  pub fragment : Option Text

abbrev pub simple_urls : UrlLib
simple_urls = record {
  Url = SimpleUrl;
  parse = λ s. some (record { host = s; pairs = []; fragment = none });
  join = λ u s. some (record { host = s; pairs = []; fragment = none });
  as_str = λ u. u.host;
  scheme = λ u. text "https";
  host_str = λ u. some u.host;
  port_or_known_default = λ u. none;
  fragment = λ u. u.fragment;
  query_pairs = λ u. u.pairs;
  clear_fragment = λ u. record u { fragment = none };
  clear_query = λ u. record u { pairs = [] };
  set_pairs = λ u ps. record u { pairs = ps };
}

abbrev pub simple_laws : UrlLaws simple_urls
simple_laws = record {
  fragment-clear_fragment = λ u. refl;
  fragment-clear_query = λ u. refl;
  fragment-set_pairs = λ u ps. refl;
  query_pairs-clear_fragment = λ u. refl;
  query_pairs-clear_query = λ u. refl;
  query_pairs-set_pairs = λ u ps. refl;
  host-clear_fragment = λ u. refl;
  host-clear_query = λ u. refl;
  host-set_pairs = λ u ps. refl;
}

abbrev public_addr : SocketAddr
public_addr = record { ip = v4 (record { a = 1; b = 1; c = 1; d = 1 }); port = 443 }

abbrev metadata_addr : SocketAddr
metadata_addr = record { ip = v4 (record { a = 169; b = 254; c = 169; d = 254 }); port = 443 }

abbrev answer : ℕ → Option Text → Response
answer status location = record {
  status = status;
  location = location;
  content_type = some (text "text/html");
  content_length = none;
  chunks = [];
}

-- The host "in" is an internal one; round 0 answers by a redirect to it.
abbrev pub small_net : Network simple_urls
small_net = record {
  lookup_host = λ hop host port.
      some (if text_eq host (text "in") then metadata_addr ∷ [] else public_addr ∷ []);
  proxy_error = λ url. none;
  build_error = λ client. none;
  send =
      λ hop client url. some (if hop == 0 then answer 302 (some (text "in")) else answer 200 none);
  show_status = λ status. [];
}

abbrev pub entry : SimpleUrl
entry = record {
  host = text "a";
  pairs = (text "utm_source", text "x") ∷ (text "q", text "1") ∷ [];
  fragment = some (text "top");
}

-- The redirect to the internal host is refused, after one request.
redirect_refused : length (fetch_extract_target simple_urls small_net none entry).dials ≡ 1
unfolding fetch_extract_target text_eq is_forbidden_target normalize_extract_url
redirect_refused = refl

validate_iff_example :
    (validate_extract_target simple_urls small_net none 0 entry ≡ ok public_addr)
    ↔ IsValidated simple_urls small_net none 0 entry public_addr
validate_iff_example = validate_iff simple_urls small_net none 0 entry public_addr

abbrev cgnat : Ipv4Addr
cgnat = record { a = 100; b = 64; c = 0; d = 1 }

is_forbidden_v4-blocks_example :
    is_forbidden_v4 cgnat ≡ any (within (number cgnat)) forbidden_blocks
is_forbidden_v4-blocks_example = is_forbidden_v4-blocks cgnat (omega arith)

abbrev mapped_private : Ipv6Addr
mapped_private = record { s0 = 0; s1 = 0; s2 = 0; s3 = 0; s4 = 0; s5 = 0xffff; s6 = 0x0a00; s7 = 1 }

is_forbidden_v6-ranges_example : is_forbidden_target (v6 mapped_private) ≡ (
    Ipv6.is_loopback mapped_private
    || Ipv6.is_unspecified mapped_private
    || (leb 0xfc00 0 && ltb 0 0xfe00)
    || (leb 0xfe80 0 && ltb 0 0xfec0)
    || (is_mapped mapped_private && any (within (0x0a00 * 0x10000 + 1)) forbidden_blocks))
is_forbidden_v6-ranges_example = is_forbidden_v6-ranges mapped_private (omega arith)
