-- ===== src/Html/Tag.antt =====
-- The tests for tags of src/util/codespan_fixup.rs and src/util/codeblock_linebreaks.rs.
-- The source passes a byte index `i` into the document; here the text is what stands from `i` on,
-- and an index in a result counts from there. Every test is against an ASCII byte, and in UTF-8
-- such a byte is always the character itself, so characters stand for bytes.
pub mod Bounds
pub mod Reach
pub mod Grammar
use mathlib.Core.Option
use serica.Prelude.{
  ℕ, suc, ◌+◌, Bool, true, false, not, ◌&&◌, ◌||◌, [], ◌∷◌, Option, none, some, Text, length, drop,
  ◌==◌, if◌then◌else◌, is_ascii_whitespace, eq_ignore_ascii_case,
}

-- `bytes[i..]` starts with the name, in any case of its ASCII letters.
unfoldable pub starts_ignore_case : Text → Text → Bool
unfolding eq_ignore_ascii_case
starts_ignore_case [] s = true
starts_ignore_case (t ∷ ts) [] = false
starts_ignore_case (t ∷ ts) (b ∷ s) = eq_ignore_ascii_case b t && starts_ignore_case ts s

-- The byte behind a tag's name ends the name.
unfoldable pub at_boundary : Text → Bool
unfolding is_ascii_whitespace
at_boundary [] = false
at_boundary (b ∷ s) = is_ascii_whitespace b || b == b'>' || b == b'/'

unfoldable pub is_tag_open_at : Text → Text → Bool
unfolding starts_ignore_case at_boundary
is_tag_open_at name s = starts_ignore_case (b'<' ∷ name) s && at_boundary (drop (1 + length name) s)

-- The flags `in_squote` and `in_dquote` after the byte `b`.
abbrev pub squote_after : Bool → Bool → ℕ → Bool
squote_after true dq b = not (b == b'\'')
squote_after false true b = false
squote_after false false b = b == b'\''

abbrev pub dquote_after : Bool → Bool → ℕ → Bool
dquote_after true dq b = dq
dquote_after false true b = not (b == b'"')
dquote_after false false b = b == b'"'

unfoldable pub find_tag_end_from : Bool → Bool → Text → Option ℕ
find_tag_end_from sq dq [] = none
find_tag_end_from sq dq (b ∷ s) =
    let rest = find_tag_end_from (squote_after sq dq b) (dquote_after sq dq b) s in
    if not sq && not dq && b == b'>' then some 0 else Option.map suc rest

unfoldable pub find_tag_end : Text → Option ℕ
unfolding find_tag_end_from
find_tag_end s = find_tag_end_from false false s

-- The length of optional white space and a `>`.
unfoldable pub skip_to_gt : Text → Option ℕ
unfolding is_ascii_whitespace
skip_to_gt [] = none
skip_to_gt (b ∷ s) =
    if is_ascii_whitespace b
    then Option.map suc (skip_to_gt s)
    else if b == b'>'
    then some 1
    else none

unfoldable pub closing_tag_len : Text → Text → Option ℕ
unfolding starts_ignore_case skip_to_gt
closing_tag_len name s =
    if starts_ignore_case (b'<' ∷ b'/' ∷ name) s
    then Option.map (λ k. 2 + length name + k) (skip_to_gt (drop (2 + length name) s))
    else none

-- `html[i..].find('<')`, or all that is left.
unfoldable pub find_lt : Text → ℕ
find_lt [] = 0
find_lt (b ∷ s) = if b == b'<' then 0 else suc (find_lt s)
