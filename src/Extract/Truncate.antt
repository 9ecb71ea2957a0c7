-- ===== src/Extract/Truncate.antt =====
-- `truncate_at_char_boundary` of src/util/extract.rs.
use serica.Prelude.{
  ℕ, ◌+◌, ◌≤◌, ◌<◌, ◌≡◌, refl, sym, ap, inl, inr, [], ◌∷◌, ◌++◌, append-nil, arith, leb, leb→le,
  Bool-cases, Text, len_utf8, len,
}
use mathlib.Core.Path.{subst}
use serica.Extract.{take_while_within, truncate_at_char_boundary}

-- The next character, if there is one, would not fit.
abbrev pub Overflows : ℕ → ℕ → Text → Type 0
Overflows max_bytes used [] = Unit
Overflows max_bytes used (c ∷ s) = max_bytes < used + len_utf8 c

-- The longest beginning of a text, in whole characters, that has at most so many bytes.
pub record IsLongestPrefix (s t : Text) (max_bytes : ℕ) : Type 0 where
  pub rest : Text
  pub whole : s ≡ t ++ rest
  pub bound : len t ≤ max_bytes
  pub longest : Overflows max_bytes (len t) rest

take_while-within :
    (max_bytes at : ℕ) (s : Text)
    → at ≤ max_bytes
    → (rest : Text) × (s ≡ take_while_within max_bytes at s ++ rest)
      × (used : ℕ) × (used ≡ at + len (take_while_within max_bytes at s))
      × (used ≤ max_bytes)
      × Overflows max_bytes used rest
unfolding take_while_within
take_while-within max_bytes at [] le = ([], refl, at, omega arith, le, tt)
take_while-within max_bytes at (c ∷ s) le = elim (Bool-cases (leb (at + len_utf8 c) max_bytes)) [
  | inl fits ↦
      let (rest, whole, used, is_used, bound, over) =
        take_while-within max_bytes (at + len_utf8 c) s (ground arith) in
      rw fits (rest, ap (◌∷◌ c) whole, used, omega (arith, is_used), bound, over)
  | inr full ↦ rw full (c ∷ s, refl, at, omega arith, le, ground arith)
]

-- What is left of a text is its longest beginning, in whole characters, of at most `max_bytes` bytes.
pub truncate-IsLongestPrefix :
    (s : Text) (max_bytes : ℕ) → IsLongestPrefix s (truncate_at_char_boundary s max_bytes) max_bytes
unfolding truncate_at_char_boundary
truncate-IsLongestPrefix s max_bytes = elim (Bool-cases (leb (len s) max_bytes)) [
  | inl fits ↦
      rw fits
        (record { rest = []; whole = sym (append-nil s); bound = leb→le _ _ fits; longest = tt })
  | inr long ↦ rw long (
      let (rest, whole, used, is_used, bound, over) =
        take_while-within max_bytes 0 s (omega arith) in
      let is_len : used ≡ len (take_while_within max_bytes 0 s) = omega (arith, is_used) in
      record {
        rest = rest;
        whole = whole;
        bound = omega (arith, bound, is_len);
        longest = subst (λ n. Overflows max_bytes n rest) is_len over;
      })
]
