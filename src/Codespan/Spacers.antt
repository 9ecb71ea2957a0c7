-- ===== src/Codespan/Spacers.antt =====
-- What `preserve_whitespace_only_spans` may change: only white space that is all there is between
-- an opening `<span …>` and its `</span>`.
use serica.Prelude.{
  ℕ, zero, suc, ◌≤◌, ◌≡◌, refl, ap, inl, inr, true, false, Option, none, some, [], ◌∷◌, ◌++◌,
  append_assoc, arith, ◌==◌, Bool-cases, length, take, drop, length-drop, Text, text,
}
use serica.Html.Tag.{is_tag_open_at, find_tag_end, find_lt}
use serica.Html.Tag.Grammar.{Opens, Ends, outside, is_tag_open_at_iff, find_tag_end_sound, no_end}
use serica.Html.Tag.Reach.{starts_ignore_case-lt}
use serica.Html.Rewrite.{Round, rewrite-cons, rewrite-nil}
use serica.Codespan.Blanks.{
  IsSpacer, ws_only_iff, span_close_len_sound, span_close_len_complete, IsSpacer-find_lt,
}
use serica.Codespan.{
  whitespace_sentinel, span, is_span_open_at, span_close_len, ws_only, close_round, open_round,
  span_round, preserve_whitespace_only_spans,
}

-- `Respaced s t`: `t` is `s` with the white space of each spacer replaced by one sentinel, U+E000. A
-- spacer is a place where an opening span tag ends, blanks alone follow, and then a closing span tag.
-- The scan is from left to right, and goes on behind a tag that it has found to its end.
pub data Respaced : Text → Text → Type 0 where
  end : Respaced [] []
  kept :
      (c : ℕ) {s t : Text}
      → ¬ (Opens (text "span") (c ∷ s) × ((n : ℕ) × Ends outside (c ∷ s) n))
      → Respaced s t
      → Respaced (c ∷ s) (c ∷ t)
  tag :
      (n : ℕ) {s t t' : Text}
      → Opens (text "span") s
      → Ends outside s n
      → ¬ ((j : ℕ) × (k : ℕ) × IsSpacer (drop (suc n) s) j k)
      → Respaced (drop (suc n) s) t
      → t' ≡ take (suc n) s ++ t
      → Respaced s t'
  spacer :
      (n j k : ℕ) {s t t' : Text}
      → Opens (text "span") s
      → Ends outside s n
      → IsSpacer (drop (suc n) s) j k
      → Respaced (drop k (drop j (drop (suc n) s))) t
      → t' ≡ take (suc n) s ++ (0xe000 ∷ (take k (drop j (drop (suc n) s)) ++ t))
      → Respaced s t'

-- One round is right if what is left of the document is rewritten rightly.
abbrev RoundOk : Text → Round (Unit {0}) → Type 0
RoundOk s r = (t : Text) → Respaced r.rest t → Respaced s (r.emitted ++ t)

no_tag :
    (c : ℕ) (s : Text)
    → is_span_open_at (c ∷ s) ≡ false
    → ¬ (Opens (text "span") (c ∷ s) × ((n : ℕ) × Ends outside (c ∷ s) n))
unfolding is_span_open_at
no_tag c s h found = cc (h, (is_tag_open_at_iff span (c ∷ s)).1 found.0)

opens_lem : (s : Text) → is_span_open_at s ≡ true → Opens (text "span") s
unfolding is_span_open_at
opens_lem s h = (is_tag_open_at_iff span s).0 h

no_tag-text :
    (c : ℕ) (s : Text)
    → (c == b'<') ≡ false
    → ¬ (Opens (text "span") (c ∷ s) × ((n : ℕ) × Ends outside (c ∷ s) n))
no_tag-text c s h =
    no_tag c s
      (unfold is_span_open_at is_tag_open_at in (rw (starts_ignore_case-lt span c s h) refl))

-- A run that ends before the next `<` is kept.
kept_run : (m : ℕ) (s t : Text) → m ≤ find_lt s → Respaced (drop m s) t → Respaced s (take m s ++ t)
unfolding find_lt
kept_run zero s t h r = r
kept_run (suc m) [] t h r = r
kept_run (suc m) (c ∷ s) t h r = elim (Bool-cases (c == b'<')) [
  | inl lt ↦ absurd (ground arith)
  | inr other ↦ kept c (no_tag-text c s other) (kept_run m s t (ground arith) r)
]

-- What the scanner finds behind a tag is all that can be a spacer there.
no_close :
    (after : Text)
    → span_close_len (drop (find_lt after) after) ≡ none
    → ¬ ((j : ℕ) × (k : ℕ) × IsSpacer after j k)
no_close after h (j, k, sp) =
    let closes = span_close_len_complete (drop j after) sp.closes in
    let same = ap (λ i. span_close_len (drop i after)) (IsSpacer-find_lt after sp) in
    cc (h, closes, same)

not_blank :
    (after : Text)
    → ws_only (take (find_lt after) after) ≡ false
    → ¬ ((j : ℕ) × (k : ℕ) × IsSpacer after j k)
not_blank after h (j, k, sp) =
    let blank = (ws_only_iff (take j after)).1 (sp.some_blank, sp.blanks) in
    let same = ap (λ i. ws_only (take i after)) (IsSpacer-find_lt after sp) in cc (h, blank, same)

close_round-RoundOk :
    (s : Text) (n : ℕ) (o : Option ℕ)
    → is_span_open_at s ≡ true
    → find_tag_end s ≡ some n
    → span_close_len (drop (find_lt (drop (suc n) s)) (drop (suc n) s)) ≡ o
    → RoundOk s (close_round s n (find_lt (drop (suc n) s)) o)
unfolding close_round
close_round-RoundOk s n none opens found e = λ t r.
    tag n (opens_lem s opens) (find_tag_end_sound s found) (no_close (drop (suc n) s) e) r refl
close_round-RoundOk s n (some k) opens found e =
    let after = drop (suc n) s in
    let j = find_lt after in
    elim (Bool-cases (ws_only (take j after))) [
      | inl blank ↦ rw blank (λ t r.
          let (some_blank, blanks) = (ws_only_iff (take j after)).0 blank in
          spacer n j k (opens_lem s opens) (find_tag_end_sound s found)
            (record {
              some_blank = some_blank;
              blanks = blanks;
              closes = span_close_len_sound (drop j after) e;
            })
            r (append_assoc (take (suc n) s) (whitespace_sentinel ∷ take k (drop j after)) t))
      | inr other ↦ rw other (λ t r.
          tag n (opens_lem s opens) (find_tag_end_sound s found) (not_blank after other) r refl)
    ]

open_round-RoundOk :
    (c : ℕ) (s : Text) (o : Option ℕ)
    → is_span_open_at (c ∷ s) ≡ true
    → find_tag_end (c ∷ s) ≡ o
    → RoundOk (c ∷ s) (open_round (c ∷ s) o)
unfolding open_round
open_round-RoundOk c s none opens e t r = kept c (λ found. no_end (c ∷ s) e found.1) r
open_round-RoundOk c s (some n) opens e t r = close_round-RoundOk (c ∷ s) n _ opens e refl t r

span_round-RoundOk : (c : ℕ) (s : Text) → RoundOk (c ∷ s) (span_round tt c s)
unfolding span_round
span_round-RoundOk c s = elim (Bool-cases (c == b'<')) [
  | inr text ↦ rw text (λ t r. kept_run (find_lt (c ∷ s)) (c ∷ s) t (omega arith) r)
  | inl lt ↦ elim (Bool-cases (is_span_open_at (c ∷ s))) [
    | inr other ↦ rw (lt, other) (λ t r. kept c (no_tag c s other) r)
    | inl opens ↦ rw (lt, opens) (open_round-RoundOk c s _ opens refl)
  ]
]

-- Every round moves on.
abbrev Shrinks : Text → Round (Unit {0}) → Type 0
Shrinks s r = length r.rest ≤ length s

close_round-Shrinks :
    (c : ℕ) (s : Text) (n j : ℕ) (o : Option ℕ) → Shrinks s (close_round (c ∷ s) n j o)
unfolding close_round
close_round-Shrinks c s n j none = omega (arith, length-drop n s)
close_round-Shrinks c s n j (some k) =
    ground (arith, length-drop n s, length-drop j (drop n s), length-drop k (drop j (drop n s)))

open_round-Shrinks : (c : ℕ) (s : Text) (o : Option ℕ) → Shrinks s (open_round (c ∷ s) o)
unfolding open_round
open_round-Shrinks c s none = omega arith
open_round-Shrinks c s (some n) = close_round-Shrinks c s n _ _

find_lt-pos : (c : ℕ) (s : Text) → (c == b'<') ≡ false → find_lt (c ∷ s) ≡ suc (find_lt s)
unfolding find_lt
find_lt-pos c s h = rw h

pub span_round_shrinks :
    (u : Unit {0}) (c : ℕ) (s : Text) → length (span_round u c s).rest ≤ length s
unfolding span_round
span_round_shrinks u c s = elim (Bool-cases (c == b'<')) [
  | inr text ↦ rw (text, find_lt-pos c s text) (omega (arith, length-drop (find_lt s) s))
  | inl lt ↦ elim (Bool-cases (is_span_open_at (c ∷ s))) [
    | inr other ↦ rw (lt, other) (omega arith)
    | inl opens ↦ rw (lt, opens) (open_round-Shrinks c s _)
  ]
]

-- The loop's equation at a document that is not yet at its end.
pub preserve-cons :
    (c : ℕ) (s : Text)
    → preserve_whitespace_only_spans (c ∷ s)
      ≡ (span_round tt c s).emitted ++ preserve_whitespace_only_spans (span_round tt c s).rest
unfolding preserve_whitespace_only_spans
preserve-cons c s = rewrite-cons span_round span_round_shrinks tt c s

pub preserve-nil : preserve_whitespace_only_spans [] ≡ []
unfolding preserve_whitespace_only_spans
preserve-nil = rewrite-nil span_round tt

preserve-Respaced_upto :
    (fuel : ℕ) (s : Text) → length s ≤ fuel → Respaced s (preserve_whitespace_only_spans s)
preserve-Respaced_upto fuel [] h = rw preserve-nil end
preserve-Respaced_upto zero (c ∷ s) h = absurd (omega arith)
preserve-Respaced_upto (suc fuel) (c ∷ s) h = rw (preserve-cons c s) (
    span_round-RoundOk c s _ (
      preserve-Respaced_upto fuel (span_round tt c s).rest
        (omega (arith, span_round_shrinks tt c s))))

-- Whatever the document, the scan ends, and its output is the document with the white space of each
-- spacer replaced by one sentinel, and with nothing else changed. A spacer is a `<span` tag, which
-- reaches to its first `>` outside quotes, then spaces, tabs or line ends, one at least, and then the
-- closing tag of a span.
pub preserve-Respaced : (html : Text) → Respaced html (preserve_whitespace_only_spans html)
preserve-Respaced html = preserve-Respaced_upto (length html) html (omega arith)
