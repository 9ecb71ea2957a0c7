-- ===== src/Ssrf/Address/Ipv6.antt =====
-- The tests of `std::net::Ipv6Addr` that src/util/ssrf.rs calls, on the 16-bit segments.
use serica.Prelude.{ℕ, ◌/◌, ◌%◌, Bool, ◌&&◌, Option, none, some, ◌==◌, if◌then◌else◌}
use serica.Ssrf.Address.Ipv4.{Ipv4Addr}

pub record Ipv6Addr : Type 0 where
  pub s0 : ℕ
  pub s1 : ℕ
  pub s2 : ℕ
  pub s3 : ℕ
  pub s4 : ℕ
  pub s5 : ℕ
  pub s6 : ℕ
  pub s7 : ℕ

abbrev pub is_zero_prefix : Ipv6Addr → Bool
is_zero_prefix v = v.s0 == 0 && v.s1 == 0 && v.s2 == 0 && v.s3 == 0 && v.s4 == 0

abbrev pub is_loopback : Ipv6Addr → Bool
is_loopback v = is_zero_prefix v && v.s5 == 0 && v.s6 == 0 && v.s7 == 1

abbrev pub is_unspecified : Ipv6Addr → Bool
is_unspecified v = is_zero_prefix v && v.s5 == 0 && v.s6 == 0 && v.s7 == 0

abbrev pub to_ipv4_mapped : Ipv6Addr → Option Ipv4Addr
to_ipv4_mapped v =
    if is_zero_prefix v && v.s5 == 0xffff
    then some (record { a = v.s6 / 256; b = v.s6 % 256; c = v.s7 / 256; d = v.s7 % 256 })
    else none
