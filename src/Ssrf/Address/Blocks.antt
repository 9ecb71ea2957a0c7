-- ===== src/Ssrf/Address/Blocks.antt =====
-- The addresses that `is_forbidden_target` refuses, as blocks of consecutive addresses.
use serica.Prelude.{
  ℕ, ◌+◌, ◌*◌, ◌<◌, ◌≡◌, refl, ◌∙◌, Bool, true, false, ◌&&◌, ◌||◌, List, [], ◌∷◌, arith, ltb, leb,
  ◌==◌, any,
}
use serica.Ssrf.Address.Ipv4
use serica.Ssrf.Address.Ipv4.{Ipv4Addr}
use serica.Ssrf.Address.{is_forbidden_v4}

-- An address as one number, in network order.
abbrev pub number : Ipv4Addr → ℕ
number v = ((v.a * 256 + v.b) * 256 + v.c) * 256 + v.d

pub record IsV4 (v : Ipv4Addr) : Type 0 where
  pub a_lt : v.a < 256
  pub b_lt : v.b < 256
  pub c_lt : v.c < 256
  pub d_lt : v.d < 256

-- The first address of a block, and the one behind its last.
abbrev pub Block : Type 0
Block = ℕ × ℕ

-- The block of the addresses from `a.b.c.d` on, as many as `size` says.
abbrev pub cidr : (a b c d size : ℕ) → Block
cidr a b c d size =
    (((a * 256 + b) * 256 + c) * 256 + d, ((a * 256 + b) * 256 + c) * 256 + d + size)

abbrev pub within : ℕ → Block → Bool
within n block = leb block.0 n && ltb n block.1

-- Loopback, the private ranges, link-local, broadcast, documentation, the unspecified address and
-- carrier-grade NAT.
abbrev pub forbidden_blocks : List Block
forbidden_blocks =
    cidr 127 0 0 0 0x1000000
    ∷ cidr 10 0 0 0 0x1000000
    ∷ cidr 172 16 0 0 0x100000
    ∷ cidr 192 168 0 0 0x10000
    ∷ cidr 169 254 0 0 0x10000
    ∷ cidr 255 255 255 255 1
    ∷ cidr 192 0 2 0 0x100
    ∷ cidr 198 51 100 0 0x100
    ∷ cidr 203 0 113 0 0x100
    ∷ cidr 0 0 0 0 1
    ∷ cidr 100 64 0 0 0x400000
    ∷ []

-- A test on the leading octets is a test on the number.
module _ (v : Ipv4Addr) (ok : IsV4 v) where
  within_8 : (k : ℕ) → (v.a == k) ≡ within (number v) (cidr k 0 0 0 0x1000000)
  within_8 k = ground arith

  within_16 :
      (k l : ℕ) → l < 256 → (v.a == k && v.b == l) ≡ within (number v) (cidr k l 0 0 0x10000)
  within_16 k l h = ground arith

  within_24 :
      (k l m : ℕ)
      → l < 256
      → m < 256
      → (v.a == k && v.b == l && v.c == m) ≡ within (number v) (cidr k l m 0 0x100)
  within_24 k l m h h' = ground arith

  within_172 :
      (v.a == 172 && (leb 16 v.b && leb v.b 31)) ≡ within (number v) (cidr 172 16 0 0 0x100000)
  within_172 = ground arith

  within_100 :
      (v.a == 100 && (leb 64 v.b && ltb v.b 128)) ≡ within (number v) (cidr 100 64 0 0 0x400000)
  within_100 = ground arith

  within_32 :
      (k : ℕ)
      → k < 256
      → (v.a == k && v.b == k && v.c == k && v.d == k) ≡ within (number v) (cidr k k k k 1)
  within_32 k h = ground arith

  metadata-is_link_local :
      (v.a == 169 && v.b == 254 && v.c == 169 && v.d == 254) ≡ true → Ipv4.is_link_local v ≡ true
  metadata-is_link_local h = ground arith

-- The order and the brackets of the disjunction do not matter, nor does the metadata address.
regroup :
    (a b c d e f g h i j k m : Bool)
    → (m ≡ true → e ≡ true)
    → (a || (b || c || d) || e || f || (g || h || i) || j || k || m)
      ≡ (a || (b || (c || (d || (e || (f || (g || (h || (i || (j || (k || false)))))))))))
regroup true b c d e f g h i j k m w = refl
regroup false true c d e f g h i j k m w = refl
regroup false false true d e f g h i j k m w = refl
regroup false false false true e f g h i j k m w = refl
regroup false false false false true f g h i j k m w = refl
regroup false false false false false true g h i j k m w = refl
regroup false false false false false false true h i j k m w = refl
regroup false false false false false false false true i j k m w = refl
regroup false false false false false false false false true j k m w = refl
regroup false false false false false false false false false true k m w = refl
regroup false false false false false false false false false false true m w = refl
regroup false false false false false false false false false false false true w = cc (w refl)
regroup false false false false false false false false false false false false w = refl

-- An IPv4 address is refused exactly when it lies in one of the eleven blocks.
pub is_forbidden_v4-blocks :
    (v : Ipv4Addr) → IsV4 v → is_forbidden_v4 v ≡ any (within (number v)) forbidden_blocks
unfolding is_forbidden_v4
is_forbidden_v4-blocks v ok =
    regroup (v.a == 127) (v.a == 10) (v.a == 172 && (leb 16 v.b && leb v.b 31))
      (v.a == 192 && v.b == 168) (Ipv4.is_link_local v) (Ipv4.is_broadcast v)
      (v.a == 192 && v.b == 0 && v.c == 2) (v.a == 198 && v.b == 51 && v.c == 100)
      (v.a == 203 && v.b == 0 && v.c == 113) (Ipv4.is_unspecified v)
      (v.a == 100 && (leb 64 v.b && ltb v.b 128))
      (v.a == 169 && v.b == 254 && v.c == 169 && v.d == 254) (metadata-is_link_local v ok)
    ∙ λ i.
        within_8 v ok 127 i
        || (within_8 v ok 10 i
            || (within_172 v ok i
                || (within_16 v ok 192 168 (omega arith) i
                    || (within_16 v ok 169 254 (omega arith) i
                        || (within_32 v ok 255 (omega arith) i
                            || (within_24 v ok 192 0 2 (omega arith) (omega arith) i
                                || (within_24 v ok 198 51 100 (omega arith) (omega arith) i
                                    || (within_24 v ok 203 0 113 (omega arith) (omega arith) i
                                        || (within_32 v ok 0 (omega arith) i
                                            || (within_100 v ok i || false))))))))))
