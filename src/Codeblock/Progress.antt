-- ===== src/Codeblock/Progress.antt =====
-- The tags that end a line hold no `<` behind their first character, and every round of the loop
-- of src/util/codeblock_linebreaks.rs moves on.
use serica.Prelude.{
  ℕ, suc, ◌≤◌, ◌≡◌, refl, inl, inr, Bool, true, false, Option, none, some, List, [], ◌∷◌, arith,
  ◌==◌, Bool-cases, Option-cases, length, drop, length-drop, All, Text, eq_ignore_ascii_case,
}
use serica.Html.Tag.{is_tag_open_at, closing_tag_len, find_lt}
use serica.Html.Tag.Bounds.{closing_tag_len-le-length}
use serica.Html.Tag.Reach.{IsName, closing_tag_len-le-find_lt}
use serica.Html.Rewrite.{Round}
use serica.Codeblock.{
  pre, line_boundary_close_tags, find_closing, boundary_round, inside_round, pre_open_round,
  lt_round, line_round,
}

pub find_closing-le-find_lt :
    (tags : List Text) (c : ℕ) (s : Text) {k : ℕ}
    → All IsName tags
    → find_closing tags (c ∷ s) ≡ some k
    → (m : ℕ) × (k ≡ suc m) × (m ≤ find_lt s)
unfolding find_closing
find_closing-le-find_lt [] c s names h = ground arith
find_closing-le-find_lt (tag ∷ tags) c s names h =
    elim (Option-cases (closing_tag_len tag (c ∷ s))) [
      | inl e ↦ find_closing-le-find_lt tags c s names.1 (ground arith)
      | inr (k, e) ↦ closing_tag_len-le-find_lt tag s c names.0 (ground arith)
    ]

pub tags-IsName : All IsName line_boundary_close_tags
unfolding eq_ignore_ascii_case
tags-IsName = ground arith

-- Every round moves on.
abbrev Shrinks : Text → Round Bool → Type 0
Shrinks s r = length r.rest ≤ length s

drop-Shrinks :
    (name : Text) (c : ℕ) (s : Text) {k : ℕ}
    → closing_tag_len name (c ∷ s) ≡ some k
    → length (drop k (c ∷ s)) ≤ length s
drop-Shrinks name c s {k} e =
    omega (arith, closing_tag_len-le-length name (c ∷ s) e, length-drop k (c ∷ s))

boundary_round-Shrinks :
    (c : ℕ) (s : Text) (o : Option ℕ)
    → find_closing line_boundary_close_tags (c ∷ s) ≡ o
    → Shrinks s (boundary_round (c ∷ s) o)
unfolding boundary_round
boundary_round-Shrinks c s none e = omega arith
boundary_round-Shrinks c s (some k) e =
    let (m, is_suc, short) = find_closing-le-find_lt line_boundary_close_tags c s tags-IsName e in
    omega (arith, length-drop k (c ∷ s))

inside_round-Shrinks :
    (c : ℕ) (s : Text) (o : Option ℕ)
    → closing_tag_len pre (c ∷ s) ≡ o
    → Shrinks s (inside_round (c ∷ s) o)
unfolding inside_round
inside_round-Shrinks c s none e = boundary_round-Shrinks c s _ refl
inside_round-Shrinks c s (some k) e = drop-Shrinks pre c s e

pre_open_round-Shrinks : (c : ℕ) (s : Text) (o : Option ℕ) → Shrinks s (pre_open_round (c ∷ s) o)
unfolding pre_open_round
pre_open_round-Shrinks c s none = omega arith
pre_open_round-Shrinks c s (some n) = omega (arith, length-drop n s)

lt_round-Shrinks : (b : Bool) (c : ℕ) (s : Text) → Shrinks s (lt_round b (c ∷ s))
unfolding lt_round
lt_round-Shrinks true c s = inside_round-Shrinks c s _ refl
lt_round-Shrinks false c s = elim (Bool-cases (is_tag_open_at pre (c ∷ s))) [
  | inl opens ↦ rw opens (pre_open_round-Shrinks c s _)
  | inr other ↦ rw other (omega arith)
]

pub line_round_shrinks : (b : Bool) (c : ℕ) (s : Text) → length (line_round b c s).rest ≤ length s
unfolding line_round find_lt
line_round_shrinks b c s = elim (Bool-cases (c == b'<')) [
  | inl lt ↦ rw lt (lt_round-Shrinks b c s)
  | inr other ↦ rw other (omega (arith, length-drop (find_lt s) s))
]
