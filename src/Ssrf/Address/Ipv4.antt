-- ===== src/Ssrf/Address/Ipv4.antt =====
-- The tests of `std::net::Ipv4Addr` that src/util/ssrf.rs calls, on the octets.
use serica.Prelude.{ℕ, Bool, ◌&&◌, ◌||◌, leb, ◌==◌}

pub record Ipv4Addr : Type 0 where
  pub a : ℕ
  pub b : ℕ
  pub c : ℕ
  pub d : ℕ

abbrev pub is_loopback : Ipv4Addr → Bool
is_loopback v = v.a == 127

abbrev pub is_private : Ipv4Addr → Bool
is_private v = v.a == 10 || (v.a == 172 && (leb 16 v.b && leb v.b 31)) || (v.a == 192 && v.b == 168)

abbrev pub is_link_local : Ipv4Addr → Bool
is_link_local v = v.a == 169 && v.b == 254

abbrev pub is_broadcast : Ipv4Addr → Bool
is_broadcast v = v.a == 255 && v.b == 255 && v.c == 255 && v.d == 255

abbrev pub is_documentation : Ipv4Addr → Bool
is_documentation v =
    (v.a == 192 && v.b == 0 && v.c == 2)
    || (v.a == 198 && v.b == 51 && v.c == 100)
    || (v.a == 203 && v.b == 0 && v.c == 113)

abbrev pub is_unspecified : Ipv4Addr → Bool
is_unspecified v = v.a == 0 && v.b == 0 && v.c == 0 && v.d == 0
