-- ===== src/Codespan/Blanks.antt =====
-- The spacers of src/util/codespan_fixup.rs, said without its tests.
use serica.Prelude.{
  ℕ, zero, suc, ◌≡◌, refl, ap, ◌≢◌, ◌↔◌, ◌⊎◌, inl, inr, true, some, [], ◌∷◌, arith, Bool-cases,
  take, drop, all, All, Text, text, to_ascii_lowercase, eq_ignore_ascii_case,
}
use serica.Html.Tag.{find_lt}
use serica.Html.Tag.Grammar.{Closes, Begins, closing_tag_len_sound, closing_tag_len_complete}
use serica.Codespan.{is_blank, ws_only, span_close_len}

-- Space, tab, line feed or carriage return.
abbrev pub IsBlank : ℕ → Type 0
IsBlank c = (c ≡ 32) ⊎ (c ≡ 9) ⊎ (c ≡ 10) ⊎ (c ≡ 13)

-- Behind an opening tag: `j` blanks, one at least, and then a closing tag of a span, of length `k`.
pub record IsSpacer (after : Text) (j k : ℕ) : Type 0 where
  pub some_blank : take j after ≢ []
  pub blanks : All IsBlank (take j after)
  pub closes : Closes (text "span") (drop j after) k

is_blank_iff : (c : ℕ) → (is_blank c ≡ true) ↔ IsBlank c
is_blank_iff c = (
  λ h. ground arith,
  λ h. elim h [
    | inl e ↦ rw e refl
    | inr (inl e) ↦ rw e refl
    | inr (inr (inl e)) ↦ rw e refl
    | inr (inr (inr e)) ↦ rw e refl
  ],
)

all_iff : (s : Text) → (all is_blank s ≡ true) ↔ All IsBlank s
all_iff [] = (λ h. tt, λ h. refl)
all_iff (c ∷ s) = elim (Bool-cases (is_blank c)) [
  | inl blank ↦ rw blank (λ h. ((is_blank_iff c).0 blank, (all_iff s).0 h), λ h. (all_iff s).1 h.1)
  | inr other ↦ rw other (λ h. absurd (cc h), λ h. absurd (cc (other, (is_blank_iff c).1 h.0)))
]

pub ws_only_iff : (s : Text) → (ws_only s ≡ true) ↔ ((s ≢ []) × All IsBlank s)
ws_only_iff [] = (λ h. absurd (cc h), λ h. absurd (h.0 refl))
ws_only_iff (c ∷ s) = (λ h. (λ e. cc e, (all_iff (c ∷ s)).0 h), λ h. (all_iff (c ∷ s)).1 h.1)

pub span_close_len_sound : (s : Text) {k : ℕ} → span_close_len s ≡ some k → Closes (text "span") s k
unfolding span_close_len
span_close_len_sound s h = closing_tag_len_sound (text "span") s h

pub span_close_len_complete :
    (s : Text) {k : ℕ} → Closes (text "span") s k → span_close_len s ≡ some k
unfolding span_close_len
span_close_len_complete s h = closing_tag_len_complete (text "span") s h

-- The blanks of a spacer reach to the next `<`.
spacer_at :
    (j : ℕ) (after : Text)
    → All IsBlank (take j after)
    → Begins (b'<' ∷ []) (drop j after)
    → find_lt after ≡ j
unfolding find_lt eq_ignore_ascii_case to_ascii_lowercase
spacer_at zero [] blanks lt = absurd lt
spacer_at zero (c ∷ after) blanks lt = ground (arith, lt.0)
spacer_at (suc j) [] blanks lt = absurd lt
spacer_at (suc j) (c ∷ after) blanks lt =
    let later = ap suc (spacer_at j after blanks.1 lt) in
    elim blanks.0 [
      | inl e ↦ rw e later
      | inr (inl e) ↦ rw e later
      | inr (inr (inl e)) ↦ rw e later
      | inr (inr (inr e)) ↦ rw e later
    ]

Closes-Begins : (s : Text) {k : ℕ} → Closes (text "span") s k → Begins (b'<' ∷ []) s
Closes-Begins [] h = absurd h.0
Closes-Begins (c ∷ s) h = (h.0.0, tt)

pub IsSpacer-find_lt : (after : Text) {j k : ℕ} → IsSpacer after j k → find_lt after ≡ j
IsSpacer-find_lt after {j} sp = spacer_at j after sp.blanks (Closes-Begins (drop j after) sp.closes)
