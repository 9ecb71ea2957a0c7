-- ===== src/Codeblock/Tags.antt =====
-- What src/util/codeblock_linebreaks.rs looks for inside `<pre>`, said without its tests.
use serica.Prelude.{
  ℕ, ◌≡◌, refl, ◌∙◌, ◌↔◌, ◌⊎◌, inl, inr, true, false, ◌&&◌, none, some, List, [], ◌∷◌, arith, ◌==◌,
  ==_iff, Bool-cases, Option-cases, Text, text, is_ascii_whitespace,
}
use serica.Html.Tag.{is_tag_open_at, closing_tag_len}
use serica.Html.Tag.Grammar.{
  Opens, Closes, is_tag_open_at_iff, closing_tag_len_sound, closing_tag_len_complete,
}
use serica.Codeblock.{find_closing, needs_break}

-- The tags that end a line.
abbrev pub line_tags : List Text
line_tags = text "div" ∷ text "p" ∷ text "tr" ∷ text "li" ∷ []

-- The closing tag of one of these, of this length, stands at the start.
abbrev pub AnyCloses : List Text → Text → ℕ → Type 0
AnyCloses [] s k = ⊥
AnyCloses (tag ∷ tags) s k = Closes tag s k ⊎ AnyCloses tags s k

-- Text follows on the same line: neither the end, nor white space, nor another closing tag.
abbrev pub WantsBreak : Text → Type 0
WantsBreak [] = ⊥
WantsBreak (b ∷ []) = is_ascii_whitespace b ≡ false
WantsBreak (b ∷ d ∷ s) = (is_ascii_whitespace b ≡ false) × ¬ ((b ≡ b'<') × (d ≡ b'/'))

pub needs_break_iff : (s : Text) → (needs_break s ≡ true) ↔ WantsBreak s
unfolding needs_break
needs_break_iff [] = (λ h. absurd (cc h), λ h. absurd h)
needs_break_iff (b ∷ []) = elim (Bool-cases (is_ascii_whitespace b)) [
  | inl space ↦ rw space (λ h. absurd (cc h), λ h. absurd (cc h))
  | inr other ↦ rw other (λ h. refl, λ h. refl)
]
needs_break_iff (b ∷ d ∷ s) = elim (Bool-cases (is_ascii_whitespace b)) [
  | inl space ↦ rw space (λ h. absurd (cc h), λ h. absurd (cc h.0))
  | inr other ↦ rw other (
    λ h. (refl, λ e. cc (rw ((==_iff b b'<').1 e.0, (==_iff d b'/').1 e.1) at h)),
    λ h. elim (Bool-cases (b == b'<' && d == b'/')) [
      | inl both ↦ absurd (h.1 (ground (arith, both)))
      | inr not_both ↦ rw not_both refl
    ],
  )
]

pub no_open : (name s : Text) → is_tag_open_at name s ≡ false → ¬ Opens name s
no_open name s h opens = cc (h, (is_tag_open_at_iff name s).1 opens)

pub no_close : (name s : Text) → closing_tag_len name s ≡ none → ¬ ((k : ℕ) × Closes name s k)
no_close name s h (k, closes) = cc (h, closing_tag_len_complete name s closes)

pub line_close :
    (tags : List Text) (s : Text) {k : ℕ} → find_closing tags s ≡ some k → AnyCloses tags s k
unfolding find_closing
line_close [] s h = absurd (cc h)
line_close (tag ∷ tags) s {k} h = elim (Option-cases (closing_tag_len tag s)) [
  | inl e ↦ inr (line_close tags s (rw (e, find_closing) at h))
  | inr (m, e) ↦ inl (closing_tag_len_sound tag s (e ∙ rw (e, find_closing) at h))
]

pub no_line_close :
    (tags : List Text) (s : Text) → find_closing tags s ≡ none → ¬ ((k : ℕ) × AnyCloses tags s k)
unfolding find_closing
no_line_close [] s h (k, found) = found
no_line_close (tag ∷ tags) s h (k, found) = elim (Option-cases (closing_tag_len tag s)) [
  | inr (m, e) ↦ absurd (cc (rw (e, find_closing) at h))
  | inl e ↦ elim found [
    | inl closes ↦ no_close tag s e (k, closes)
    | inr more ↦ no_line_close tags s (rw (e, find_closing) at h) (k, more)
  ]
]
