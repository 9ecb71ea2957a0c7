-- ===== src/Html/Tag/Reach.antt =====
-- A closing tag holds no `<` behind its first character, so it ends before the next `<`.
use serica.Prelude.{
  ℕ, suc, ◌+◌, ◌≤◌, ◌≡◌, inl, inr, true, false, some, [], ◌∷◌, arith, ◌==◌, Option-cases, length,
  drop, Text, eq_ignore_ascii_case,
}
use serica.Html.Tag.{skip_to_gt, closing_tag_len, find_lt, starts_ignore_case}

-- A test on a character that is no `<`, where a `<` is wanted.
pub starts_ignore_case-lt :
    (p : Text) (c : ℕ) (s : Text)
    → (c == b'<') ≡ false
    → starts_ignore_case (b'<' ∷ p) (c ∷ s) ≡ false
unfolding starts_ignore_case
starts_ignore_case-lt p c s h = ground arith

-- A name that holds no `<`.
abbrev pub IsName : Text → Type 0
IsName [] = Unit
IsName (t ∷ name) = (eq_ignore_ascii_case b'<' t ≡ false) × IsName name

skip_to_gt-le-find_lt : (s : Text) {k : ℕ} → skip_to_gt s ≡ some k → k ≤ find_lt s
unfolding skip_to_gt find_lt
skip_to_gt-le-find_lt [] h = ground arith
skip_to_gt-le-find_lt (b ∷ s) h = elim (Option-cases (skip_to_gt s)) [
  | inl e ↦ ground arith
  | inr (m, e) ↦ ground (arith, skip_to_gt-le-find_lt s e)
]

name-le-find_lt :
    (name s : Text) {k : ℕ}
    → IsName name
    → starts_ignore_case name s ≡ true
    → skip_to_gt (drop (length name) s) ≡ some k
    → length name + k ≤ find_lt s
unfolding starts_ignore_case find_lt eq_ignore_ascii_case
name-le-find_lt [] s plain starts h = omega (arith, skip_to_gt-le-find_lt s h)
name-le-find_lt (t ∷ name) [] plain starts h = ground arith
name-le-find_lt (t ∷ name) (b ∷ s) {k} plain starts h =
    ground (arith, name-le-find_lt name s {k = k} plain.1)

-- A closing tag holds no `<` behind its first character.
pub closing_tag_len-le-find_lt :
    (name s : Text) (c : ℕ) {k : ℕ}
    → IsName name
    → closing_tag_len name (c ∷ s) ≡ some k
    → (m : ℕ) × (k ≡ suc m) × (m ≤ find_lt s)
unfolding closing_tag_len starts_ignore_case find_lt eq_ignore_ascii_case
closing_tag_len-le-find_lt name [] c plain h = ground arith
closing_tag_len-le-find_lt name (d ∷ s) c {k} plain h =
    elim (Option-cases (skip_to_gt (drop (length name) s))) [
      | inl e ↦ ground arith
      | inr (m, e) ↦ (
        suc (length name + m),
        ground arith,
        ground (arith, name-le-find_lt name s {k = m} plain),
      )
    ]
