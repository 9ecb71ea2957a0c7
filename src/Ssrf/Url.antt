-- ===== src/Ssrf/Url.antt =====
-- The crate `url` as src/util/ssrf.rs, src/engines/duckduckgo.rs and the gateways call it: a type of
-- parsed URLs with its operations, and what its documentation says of them.
use serica.Prelude.{ℕ, ◌≡◌, Option, none, List, [], Text}

pub record UrlLib : Type 1 where
  pub Url : Type 0
  -- `Url::parse`, `Url::join`, `Url::as_str`
  pub parse : Text → Option Url
  pub join : Url → Text → Option Url
  pub as_str : Url → Text
  pub scheme : Url → Text
  pub host_str : Url → Option Text
  pub port_or_known_default : Url → Option ℕ
  pub fragment : Url → Option Text
  pub query_pairs : Url → List (Text × Text)
  -- `set_fragment(None)`, `set_query(None)`, `query_pairs_mut().clear().extend_pairs(…)`
  pub clear_fragment : Url → Url
  pub clear_query : Url → Url
  pub set_pairs : Url → List (Text × Text) → Url

-- Each setter changes its own part of the URL and no other.
pub record UrlLaws (U : UrlLib) : Type 0 where
  pub fragment-clear_fragment : (u : U.Url) → U.fragment (U.clear_fragment u) ≡ none
  pub fragment-clear_query : (u : U.Url) → U.fragment (U.clear_query u) ≡ U.fragment u
  pub fragment-set_pairs :
      (u : U.Url) (ps : List (Text × Text)) → U.fragment (U.set_pairs u ps) ≡ U.fragment u
  pub query_pairs-clear_fragment :
      (u : U.Url) → U.query_pairs (U.clear_fragment u) ≡ U.query_pairs u
  pub query_pairs-clear_query : (u : U.Url) → U.query_pairs (U.clear_query u) ≡ []
  pub query_pairs-set_pairs :
      (u : U.Url) (ps : List (Text × Text)) → U.query_pairs (U.set_pairs u ps) ≡ ps
  pub host-clear_fragment : (u : U.Url) → U.host_str (U.clear_fragment u) ≡ U.host_str u
  pub host-clear_query : (u : U.Url) → U.host_str (U.clear_query u) ≡ U.host_str u
  pub host-set_pairs :
      (u : U.Url) (ps : List (Text × Text)) → U.host_str (U.set_pairs u ps) ≡ U.host_str u
