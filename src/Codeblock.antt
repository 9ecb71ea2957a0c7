-- ===== src/Codeblock.antt =====
-- src/util/codeblock_linebreaks.rs: inside `<pre>`, a line break is put in behind a closing tag that
-- ends a line, where the document has none.
pub mod Progress
pub mod Tags
pub mod Breaks
mod Tests
use serica.Prelude.{
  ℕ, suc, ◌+◌, Bool, true, false, not, ◌&&◌, List, [], ◌∷◌, ◌++◌, Option, none, some, Text, text,
  take, drop, ◌==◌, if◌then◌else◌, is_ascii_whitespace,
}
use serica.Html.Tag.{is_tag_open_at, find_tag_end, closing_tag_len, find_lt}
use serica.Html.Rewrite.{Round, copy, rewrite}

abbrev pub pre : Text
pre = text "pre"

abbrev pub line_boundary_close_tags : List Text
line_boundary_close_tags = text "div" ∷ text "p" ∷ text "tr" ∷ text "li" ∷ []

-- `iter().find_map(|tag| closing_tag_len(bytes, i, tag))`
unfoldable pub find_closing : List Text → Text → Option ℕ
find_closing [] s = none
find_closing (tag ∷ tags) s = elim (closing_tag_len tag s) [
  | none ↦ find_closing tags s
  | some close_len ↦ some close_len
]

unfoldable pub needs_break : Text → Bool
unfolding is_ascii_whitespace
needs_break [] = false
needs_break (b ∷ []) = not (is_ascii_whitespace b)
needs_break (b ∷ d ∷ s) = not (is_ascii_whitespace b) && not (b == b'<' && d == b'/')

-- At a closing tag of a line, if there is one, of the length in the last argument.
unfoldable pub boundary_round : Text → Option ℕ → Round Bool
boundary_round s none = copy true 1 s
boundary_round s (some close_len) = record {
  emitted =
      if needs_break (drop close_len s) then take close_len s ++ 10 ∷ [] else take close_len s;
  rest = drop close_len s;
  next = true;
}

-- Inside `<pre>`, at a `<`: the last argument is the length of a `</pre>` there.
unfoldable pub inside_round : Text → Option ℕ → Round Bool
inside_round s none = boundary_round s (find_closing line_boundary_close_tags s)
inside_round s (some close_len) = copy false close_len s

-- At a `<pre` tag, which ends at `tag_end`.
unfoldable pub pre_open_round : Text → Option ℕ → Round Bool
pre_open_round s none = copy false 1 s
pre_open_round s (some tag_end) = copy true (suc tag_end) s

unfoldable pub lt_round : Bool → Text → Round Bool
lt_round false s =
    if is_tag_open_at pre s then pre_open_round s (find_tag_end s) else copy false 1 s
lt_round true s = inside_round s (closing_tag_len pre s)

-- One round of the loop of `preserve_code_block_line_breaks`; the state is `in_pre`.
unfoldable pub line_round : Bool → ℕ → Text → Round Bool
line_round in_pre c s =
    if c == b'<' then lt_round in_pre (c ∷ s) else copy in_pre (find_lt (c ∷ s)) (c ∷ s)

unfoldable pub preserve_code_block_line_breaks : Text → Text
unfolding rewrite line_round lt_round pre_open_round inside_round boundary_round needs_break
    find_closing is_tag_open_at find_tag_end closing_tag_len find_lt
preserve_code_block_line_breaks html = rewrite line_round false html
