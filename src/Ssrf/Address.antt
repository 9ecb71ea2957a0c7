-- ===== src/Ssrf/Address.antt =====
-- src/util/ssrf.rs, `is_forbidden_target`: which addresses must never be dialled. An address is
-- held as Rust's `Ipv4Addr` and `Ipv6Addr` give it out: by octets and by 16-bit segments.
pub mod Ipv4
pub mod Ipv6
pub mod Blocks
pub mod Blocks6
use serica.Prelude.{ℕ, bit_and, Bool, false, ◌&&◌, ◌||◌, Option, none, some, ltb, leb, ◌==◌}
use Ipv4.{Ipv4Addr}
use Ipv6.{Ipv6Addr}

pub data IpAddr : Type 0 where
  v4 : Ipv4Addr → IpAddr
  v6 : Ipv6Addr → IpAddr

pub record SocketAddr : Type 0 where
  pub ip : IpAddr
  pub port : ℕ

unfoldable pub is_forbidden_v4 : Ipv4Addr → Bool
is_forbidden_v4 v =
    Ipv4.is_loopback v
    || Ipv4.is_private v
    || Ipv4.is_link_local v
    || Ipv4.is_broadcast v
    || Ipv4.is_documentation v
    || Ipv4.is_unspecified v
    || (v.a == 100 && (leb 64 v.b && ltb v.b 128))
    || (v.a == 169 && v.b == 254 && v.c == 169 && v.d == 254)

-- `.map(|mapped| is_forbidden_v4(&mapped)).unwrap_or(false)`
unfoldable pub is_forbidden_mapped : Option Ipv4Addr → Bool
unfolding is_forbidden_v4
is_forbidden_mapped none = false
is_forbidden_mapped (some mapped) = is_forbidden_v4 mapped

unfoldable pub is_forbidden_target : IpAddr → Bool
unfolding is_forbidden_v4 is_forbidden_mapped
is_forbidden_target (v4 v) = is_forbidden_v4 v
is_forbidden_target (v6 v) =
    Ipv6.is_loopback v
    || Ipv6.is_unspecified v
    || bit_and v.s0 0xfe00 == 0xfc00
    || bit_and v.s0 0xffc0 == 0xfe80
    || is_forbidden_mapped (Ipv6.to_ipv4_mapped v)
