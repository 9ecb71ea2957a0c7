-- ===== src/Codespan.antt =====
-- src/util/codespan_fixup.rs: white space inside `<span> </span>` is replaced by a sentinel before
-- extraction, and the sentinels are turned back into spaces behind it.
pub mod Blanks
pub mod Spacers
pub mod Restore
mod Tests
use serica.Prelude.{
  ℕ, suc, ◌+◌, Bool, not, ◌&&◌, ◌||◌, [], ◌∷◌, ◌++◌, Option, none, some, Text, text, take, drop,
  all, is_empty, ◌==◌, if◌then◌else◌,
}
use mathlib.Core.List.{reverse}
use serica.Html.Tag.{is_tag_open_at, find_tag_end, closing_tag_len, find_lt}
use serica.Html.Rewrite.{Round, copy, rewrite}

-- U+E000, which is no white space
abbrev pub whitespace_sentinel : ℕ
whitespace_sentinel = 0xe000

abbrev pub span : Text
span = text "span"

unfoldable pub is_span_open_at : Text → Bool
unfolding is_tag_open_at
is_span_open_at s = is_tag_open_at span s

unfoldable pub span_close_len : Text → Option ℕ
unfolding closing_tag_len
span_close_len s = closing_tag_len span s

-- The closure over `between`.
abbrev pub is_blank : ℕ → Bool
is_blank c = c == 32 || c == 9 || c == 10 || c == 13

abbrev pub ws_only : Text → Bool
ws_only between = not (is_empty between) && all is_blank between

-- Behind an opening tag that ends at `tag_end`, with the next `<` at `j`: the last argument is the
-- length of the closing tag there, if there is one.
unfoldable pub close_round : Text → ℕ → ℕ → Option ℕ → Round (Unit {0})
close_round s tag_end j none = copy tt (suc tag_end) s
close_round s tag_end j (some close_len) =
    let after = drop (suc tag_end) s in
    if ws_only (take j after)
    then record {
      emitted = take (suc tag_end) s ++ (whitespace_sentinel ∷ take close_len (drop j after));
      rest = drop close_len (drop j after);
      next = tt;
    }
    else copy tt (suc tag_end) s

unfoldable pub open_round : Text → Option ℕ → Round (Unit {0})
open_round s none = copy tt 1 s
open_round s (some tag_end) =
    let after = drop (suc tag_end) s in
    let j = find_lt after in close_round s tag_end j (span_close_len (drop j after))

-- One round of the loop of `preserve_whitespace_only_spans`, at the character `c`.
unfoldable pub span_round : Unit {0} → ℕ → Text → Round (Unit {0})
span_round _ c s =
    if c == b'<'
    then (if is_span_open_at (c ∷ s)
        then open_round (c ∷ s) (find_tag_end (c ∷ s))
        else copy tt 1 (c ∷ s))
    else copy tt (find_lt (c ∷ s)) (c ∷ s)

unfoldable pub preserve_whitespace_only_spans : Text → Text
unfolding rewrite span_round open_round close_round is_span_open_at find_tag_end span_close_len
    find_lt
preserve_whitespace_only_spans html = rewrite span_round tt html

-- `out.ends_with(' ')` and `out.pop()`, on an output buffer kept with its last character first.
abbrev pub pop_space : Text → Text
pop_space [] = []
pop_space (c ∷ out) = if c == 32 then out else c ∷ out

-- The loop of `restore_whitespace_placeholders`; the flag says that the sentinel has just been read,
-- so that one space is skipped (`chars.peek`).
unfoldable pub restore_onto : Text → Text → Text
restore_onto out [] = reverse out
restore_onto out (c ∷ []) =
    if c == whitespace_sentinel then reverse (32 ∷ pop_space out) else reverse (c ∷ out)
restore_onto out (c ∷ d ∷ s) =
    let plain = restore_onto (c ∷ out) (d ∷ s) in
    let skipped = restore_onto (32 ∷ pop_space out) s in
    let kept = restore_onto (32 ∷ pop_space out) (d ∷ s) in
    if c == whitespace_sentinel then (if d == 32 then skipped else kept) else plain

unfoldable pub restore_whitespace_placeholders : Text → Text
unfolding restore_onto
restore_whitespace_placeholders content = restore_onto [] content
