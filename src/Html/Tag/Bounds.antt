-- ===== src/Html/Tag/Bounds.antt =====
-- Every index that the tests return lies in the text that they were given.
use serica.Prelude.{
  ℕ, ◌+◌, ◌≤◌, ◌<◌, ◌≡◌, Bool, false, [], ◌∷◌, some, arith, Text, length, drop, length-drop,
  Option-cases, inl, inr,
}
use serica.Html.Tag.{
  find_tag_end_from, find_tag_end, squote_after, dquote_after, skip_to_gt, closing_tag_len, find_lt,
}

find_tag_end_from-lt-length :
    (sq dq : Bool) (s : Text) {n : ℕ} → find_tag_end_from sq dq s ≡ some n → n < length s
unfolding find_tag_end_from
find_tag_end_from-lt-length sq dq [] h = ground arith
find_tag_end_from-lt-length sq dq (b ∷ s) h =
    let sq' = squote_after sq dq b in
    let dq' = dquote_after sq dq b in
    elim (Option-cases (find_tag_end_from sq' dq' s)) [
      | inl e ↦ ground arith
      | inr (m, e) ↦ ground (arith, find_tag_end_from-lt-length sq' dq' s e)
    ]

pub find_tag_end-lt-length : (s : Text) {n : ℕ} → find_tag_end s ≡ some n → n < length s
unfolding find_tag_end
find_tag_end-lt-length s h = find_tag_end_from-lt-length false false s h

pub skip_to_gt-le-length : (s : Text) {k : ℕ} → skip_to_gt s ≡ some k → (0 < k) × (k ≤ length s)
unfolding skip_to_gt
skip_to_gt-le-length [] h = ground arith
skip_to_gt-le-length (b ∷ s) h = elim (Option-cases (skip_to_gt s)) [
  | inl e ↦ ground arith
  | inr (m, e) ↦ ground (arith, skip_to_gt-le-length s e)
]

pub closing_tag_len-le-length :
    (name s : Text) {k : ℕ} → closing_tag_len name s ≡ some k → (0 < k) × (k ≤ length s)
unfolding closing_tag_len
closing_tag_len-le-length name s h = elim (Option-cases (skip_to_gt (drop (2 + length name) s))) [
  | inl e ↦ ground arith
  | inr (m, e) ↦
      ground
        (arith, skip_to_gt-le-length (drop (2 + length name) s) e, length-drop (2 + length name) s)
]

pub find_lt-le-length : (s : Text) → find_lt s ≤ length s
unfolding find_lt
find_lt-le-length [] = omega arith
find_lt-le-length (b ∷ s) = ground (arith, find_lt-le-length s)
