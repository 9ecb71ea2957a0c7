-- ===== src/Codeblock/Breaks.antt =====
-- What `preserve_code_block_line_breaks` does, as a relation between document and output: where a line break is put in, and that nothing else changes.
use mathlib.Core.Path.{subst}
use serica.Prelude.{
  ℕ, zero, suc, ◌≤◌, ◌≡◌, refl, sym, ◌⊎◌, inl, inr, Bool, true, false, Option, none, some, List, [],
  ◌∷◌, ◌++◌, append_assoc, arith, ◌==◌, Bool-cases, length, take, drop, Text, text,
}
use serica.Html.Tag.{is_tag_open_at, find_tag_end, closing_tag_len, find_lt}
use serica.Html.Tag.Reach.{starts_ignore_case-lt}
use serica.Html.Tag.Grammar.{
  Opens, Closes, Ends, outside, no_end, is_tag_open_at_iff, find_tag_end_sound,
  closing_tag_len_sound,
}
use serica.Codeblock.Tags.{
  line_tags, AnyCloses, WantsBreak, needs_break_iff, no_open, no_close, line_close, no_line_close,
}
use serica.Html.Rewrite.{Round, rewrite, rewrite-cons, rewrite-nil}
use serica.Codeblock.Progress.{find_closing-le-find_lt, tags-IsName, line_round_shrinks}
use serica.Codeblock.{
  pre, line_boundary_close_tags, find_closing, needs_break, boundary_round, inside_round,
  pre_open_round, lt_round, line_round, preserve_code_block_line_breaks,
}

-- No tag that matters stands at the head: outside `<pre>` no complete opening `<pre …>`; inside no
-- `</pre>`, and no closing tag of a line behind which a break is wanted.
abbrev pub IsPlain : Bool → Text → Type 0
IsPlain false s = ¬ (Opens (text "pre") s × ((n : ℕ) × Ends outside s n))
IsPlain true s =
    (¬ ((k : ℕ) × Closes (text "pre") s k))
    × ((¬ ((k : ℕ) × AnyCloses line_tags s k))
        ⊎ ((k : ℕ) × AnyCloses line_tags s k × ¬ WantsBreak (drop k s)))

-- `Rebroken in_pre s t`: from state `in_pre` the document `s` is written as `t`.
pub data Rebroken : Bool → Text → Text → Type 0 where
  end : {b : Bool} → Rebroken b [] []
  kept :
      {b : Bool} (c : ℕ) {s t : Text}
      → IsPlain b (c ∷ s)
      → Rebroken b s t
      → Rebroken b (c ∷ s) (c ∷ t)
  opened :
      (n : ℕ) {s t : Text}
      → Opens (text "pre") s
      → Ends outside s n
      → Rebroken true (drop (suc n) s) t
      → {t' : Text} → t' ≡ take (suc n) s ++ t
      → Rebroken false s t'
  closed :
      (k : ℕ) {s t : Text}
      → Closes (text "pre") s k
      → Rebroken false (drop k s) t
      → {t' : Text} → t' ≡ take k s ++ t
      → Rebroken true s t'
  broken :
      (k : ℕ) {s t : Text}
      → ¬ ((j : ℕ) × Closes (text "pre") s j)
      → AnyCloses line_tags s k
      → WantsBreak (drop k s)
      → Rebroken true (drop k s) t
      → {t' : Text} → t' ≡ take k s ++ (10 ∷ t)
      → Rebroken true s t'

closing_tag_len-lt :
    (name : Text) (c : ℕ) (s : Text) → (c == b'<') ≡ false → closing_tag_len name (c ∷ s) ≡ none
unfolding closing_tag_len
closing_tag_len-lt name c s h = rw (starts_ignore_case-lt (b'/' ∷ name) c s h)

find_closing-lt :
    (tags : List Text) (c : ℕ) (s : Text) → (c == b'<') ≡ false → find_closing tags (c ∷ s) ≡ none
unfolding find_closing
find_closing-lt [] c s h = refl
find_closing-lt (tag ∷ tags) c s h =
    ground (arith, closing_tag_len-lt tag c s, find_closing-lt tags c s)

IsPlain-text : (b : Bool) (c : ℕ) (s : Text) → (c == b'<') ≡ false → IsPlain b (c ∷ s)
unfolding is_tag_open_at
IsPlain-text false c s h =
    λ tag. no_open pre (c ∷ s) (rw (starts_ignore_case-lt pre c s h) refl) tag.0
IsPlain-text true c s h = (
  no_close pre (c ∷ s) (closing_tag_len-lt pre c s h),
  inl (
      no_line_close line_boundary_close_tags (c ∷ s)
        (find_closing-lt line_boundary_close_tags c s h)),
)

-- A run that ends before the next `<` is kept.
kept_run :
    (b : Bool) (m : ℕ) (s t : Text)
    → m ≤ find_lt s
    → Rebroken b (drop m s) t
    → Rebroken b s (take m s ++ t)
unfolding find_lt
kept_run b zero s t h r = r
kept_run b (suc m) [] t h r = r
kept_run b (suc m) (c ∷ s) t h r = elim (Bool-cases (c == b'<')) [
  | inl lt ↦ absurd (ground arith)
  | inr text ↦ kept c (IsPlain-text b c s text) (kept_run b m s t (ground arith) r)
]

-- One round is right if what is left of the document is rewritten rightly.
abbrev RoundOk : Bool → Text → Round Bool → Type 0
RoundOk b s r = (t : Text) → Rebroken r.next r.rest t → Rebroken b s (r.emitted ++ t)

kept_tag :
    {b : Bool} (c : ℕ) (s : Text) (k m : ℕ) (t : Text)
    → k ≡ suc m
    → m ≤ find_lt s
    → IsPlain b (c ∷ s)
    → Rebroken b (drop k (c ∷ s)) t
    → Rebroken b (c ∷ s) (take k (c ∷ s) ++ t)
kept_tag {b} c s k m t e short plain =
    subst (λ x. Rebroken b (drop x (c ∷ s)) t → Rebroken b (c ∷ s) (take x (c ∷ s) ++ t)) (sym e)
      (λ r. kept c plain (kept_run b m s t short r))

boundary_round-RoundOk :
    (c : ℕ) (s : Text) (o : Option ℕ)
    → closing_tag_len pre (c ∷ s) ≡ none
    → find_closing line_boundary_close_tags (c ∷ s) ≡ o
    → RoundOk true (c ∷ s) (boundary_round (c ∷ s) o)
unfolding boundary_round
boundary_round-RoundOk c s none no_pre e t r =
    kept c (no_close pre (c ∷ s) no_pre, inl (no_line_close line_boundary_close_tags (c ∷ s) e)) r
boundary_round-RoundOk c s (some k) no_pre e t r =
    let (m, is_suc, short) = find_closing-le-find_lt line_boundary_close_tags c s tags-IsName e in
    elim (Bool-cases (needs_break (drop k (c ∷ s)))) [
      | inl wanted ↦ rw wanted (
          broken k (no_close pre (c ∷ s) no_pre) (line_close line_boundary_close_tags (c ∷ s) e)
            ((needs_break_iff (drop k (c ∷ s))).0 wanted) r
            (append_assoc (take k (c ∷ s)) (10 ∷ []) t))
      | inr unwanted ↦ rw unwanted (
          kept_tag c s k m t is_suc short
            (
              no_close pre (c ∷ s) no_pre,
              inr (
                k,
                line_close line_boundary_close_tags (c ∷ s) e,
                λ wants. cc (unwanted, (needs_break_iff (drop k (c ∷ s))).1 wants),
              ),
            )
            r)
    ]

inside_round-RoundOk :
    (c : ℕ) (s : Text) (o : Option ℕ)
    → closing_tag_len pre (c ∷ s) ≡ o
    → RoundOk true (c ∷ s) (inside_round (c ∷ s) o)
unfolding inside_round
inside_round-RoundOk c s none e t r = boundary_round-RoundOk c s _ e refl t r
inside_round-RoundOk c s (some k) e t r = closed k (closing_tag_len_sound pre (c ∷ s) e) r refl

pre_open_round-RoundOk :
    (c : ℕ) (s : Text) (o : Option ℕ)
    → is_tag_open_at pre (c ∷ s) ≡ true
    → find_tag_end (c ∷ s) ≡ o
    → RoundOk false (c ∷ s) (pre_open_round (c ∷ s) o)
unfolding pre_open_round
pre_open_round-RoundOk c s none opens e t r = kept c (λ tag. no_end (c ∷ s) e tag.1) r
pre_open_round-RoundOk c s (some n) opens e t r =
    opened n ((is_tag_open_at_iff pre (c ∷ s)).0 opens) (find_tag_end_sound (c ∷ s) e) r refl

lt_round-RoundOk : (b : Bool) (c : ℕ) (s : Text) → RoundOk b (c ∷ s) (lt_round b (c ∷ s))
unfolding lt_round
lt_round-RoundOk true c s = inside_round-RoundOk c s _ refl
lt_round-RoundOk false c s = elim (Bool-cases (is_tag_open_at pre (c ∷ s))) [
  | inl opens ↦ rw opens (pre_open_round-RoundOk c s _ opens refl)
  | inr other ↦ rw other (λ t r. kept c (λ tag. no_open pre (c ∷ s) other tag.0) r)
]

line_round-RoundOk : (b : Bool) (c : ℕ) (s : Text) → RoundOk b (c ∷ s) (line_round b c s)
unfolding line_round
line_round-RoundOk b c s = elim (Bool-cases (c == b'<')) [
  | inl lt ↦ rw lt (lt_round-RoundOk b c s)
  | inr other ↦ rw other (λ t r. kept_run b (find_lt (c ∷ s)) (c ∷ s) t (omega arith) r)
]

rewrite-Rebroken :
    (fuel : ℕ) (b : Bool) (s : Text) → length s ≤ fuel → Rebroken b s (rewrite line_round b s)
rewrite-Rebroken fuel b [] h = rw rewrite-nil end
rewrite-Rebroken zero b (c ∷ s) h = absurd (omega arith)
rewrite-Rebroken (suc fuel) b (c ∷ s) h = rw (rewrite-cons line_round line_round_shrinks b c s) (
    line_round-RoundOk b c s _ (
      rewrite-Rebroken fuel (line_round b c s).next (line_round b c s).rest
        (omega (arith, line_round_shrinks b c s))))

-- Whatever the document, the scan ends, and its output is the document with a line break put in,
-- inside `<pre>`, behind each closing tag of `div`, `p`, `tr` or `li` behind which there is text other
-- than white space or a closing tag, and with nothing else changed. A `<pre` reaches to its first `>`
-- outside quotes, and the tags may be of any case.
pub preserve-Rebroken : (html : Text) → Rebroken false html (preserve_code_block_line_breaks html)
unfolding preserve_code_block_line_breaks
preserve-Rebroken html = rewrite-Rebroken (length html) false html (omega arith)
