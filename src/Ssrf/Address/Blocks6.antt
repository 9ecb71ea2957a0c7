-- ===== src/Ssrf/Address/Blocks6.antt =====
-- The IPv6 addresses that `is_forbidden_target` refuses, by ranges of the first segment.
use serica.Prelude.{
  ℕ, ◌+◌, ◌*◌, ◌/◌, ◌%◌, ◌<◌, bit_and, ◌≡◌, refl, sym, ap, ◌∙◌, inl, inr, Bool, true, false, not,
  ◌&&◌, ◌||◌, arith, ltb, leb, ◌==◌, Bool-cases, any,
}
use serica.Prelude.Tables.{every_below, every_below-lt}
use serica.Ssrf.Address.Ipv4.{Ipv4Addr}
use serica.Ssrf.Address.Ipv6
use serica.Ssrf.Address.Ipv6.{Ipv6Addr}
use serica.Ssrf.Address.{v6, is_forbidden_mapped, is_forbidden_target}
use serica.Ssrf.Address.Blocks.{IsV4, number, forbidden_blocks, within, is_forbidden_v4-blocks}

pub record IsV6 (v : Ipv6Addr) : Type 0 where
  pub s0_lt : v.s0 < 0x10000
  pub s6_lt : v.s6 < 0x10000
  pub s7_lt : v.s7 < 0x10000

abbrev same : Bool → Bool → Bool
same true b = b
same false b = not b

same-eq : (a b : Bool) → same a b ≡ true → a ≡ b
same-eq true b h = sym h
same-eq false true h = cc
same-eq false false h = refl

abbrev mask_ok : (mask want lo hi : ℕ) → ℕ → Bool
mask_ok mask want lo hi s = same (bit_and s mask == want) (leb lo s && ltb s hi)

unique_local_table : every_below (mask_ok 0xfe00 0xfc00 0xfc00 0xfe00) 0x10000 ≡ true
unfolding every_below
unique_local_table = refl

link_local_table : every_below (mask_ok 0xffc0 0xfe80 0xfe80 0xfec0) 0x10000 ≡ true
unfolding every_below
link_local_table = refl

unique_local-range :
    (s : ℕ) → s < 0x10000 → (bit_and s 0xfe00 == 0xfc00) ≡ (leb 0xfc00 s && ltb s 0xfe00)
unique_local-range s h =
    same-eq _ _ (every_below-lt (mask_ok 0xfe00 0xfc00 0xfc00 0xfe00) 0x10000 h unique_local_table)

link_local-range :
    (s : ℕ) → s < 0x10000 → (bit_and s 0xffc0 == 0xfe80) ≡ (leb 0xfe80 s && ltb s 0xfec0)
link_local-range s h =
    same-eq _ _ (every_below-lt (mask_ok 0xffc0 0xfe80 0xfe80 0xfec0) 0x10000 h link_local_table)

mapped : Ipv6Addr → Ipv4Addr
mapped v = record { a = v.s6 / 256; b = v.s6 % 256; c = v.s7 / 256; d = v.s7 % 256 }

mapped-IsV4 : (v : Ipv6Addr) → IsV6 v → IsV4 (mapped v)
unfolding mapped
mapped-IsV4 v ok = omega arith

number-mapped : (v : Ipv6Addr) → number (mapped v) ≡ v.s6 * 0x10000 + v.s7
unfolding mapped
number-mapped v = omega arith

-- `::ffff:0:0/96` holds the IPv4 addresses, in the last two segments.
abbrev pub is_mapped : Ipv6Addr → Bool
is_mapped v = Ipv6.is_zero_prefix v && v.s5 == 0xffff

is_forbidden_mapped-blocks :
    (v : Ipv6Addr)
    → IsV6 v
    → is_forbidden_mapped (Ipv6.to_ipv4_mapped v)
      ≡ (is_mapped v && any (within (v.s6 * 0x10000 + v.s7)) forbidden_blocks)
unfolding is_forbidden_mapped mapped
is_forbidden_mapped-blocks v ok = elim (Bool-cases (is_mapped v)) [
  | inr other ↦ rw other
  | inl maps ↦ rw maps (
      is_forbidden_v4-blocks (mapped v) (mapped-IsV4 v ok)
      ∙ ap (λ n. any (within n) forbidden_blocks) (number-mapped v))
]

-- An IPv6 address is refused exactly when it is `::1` or `::`, lies in fc00::/7 or in fe80::/10, or
-- stands for an IPv4 address of one of the eleven blocks.
pub is_forbidden_v6-ranges :
    (v : Ipv6Addr)
    → IsV6 v
    → is_forbidden_target (v6 v) ≡ (
        Ipv6.is_loopback v
        || Ipv6.is_unspecified v
        || (leb 0xfc00 v.s0 && ltb v.s0 0xfe00)
        || (leb 0xfe80 v.s0 && ltb v.s0 0xfec0)
        || (is_mapped v && any (within (v.s6 * 0x10000 + v.s7)) forbidden_blocks))
unfolding is_forbidden_target
is_forbidden_v6-ranges v ok = λ i.
    Ipv6.is_loopback v
    || Ipv6.is_unspecified v
    || unique_local-range v.s0 ok.s0_lt i
    || link_local-range v.s0 ok.s0_lt i
    || is_forbidden_mapped-blocks v ok i
