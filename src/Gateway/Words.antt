-- ===== src/Gateway/Words.antt =====
-- What `split` makes of a text: its words in the sense of the filter of src/gateway/mod.rs.
use serica.Prelude.{
  ℕ, ◌≡◌, refl, sym, ap, ◌∙◌, ◌≢◌, ◌↔◌, ◌⊎◌, inl, inr, Bool, true, false, List, [], ◌∷◌, ◌++◌,
  arith, Bool-cases, any, Text,
}
use serica.Gateway.{split}

module _ (is_separator : ℕ → Bool) where
  abbrev pub Unbroken : Text → Type 0
  Unbroken [] = Unit
  Unbroken (c ∷ s) = (is_separator c ≡ false) × Unbroken s

  -- At the end, or in front of a separator.
  abbrev pub Ends : Text → Type 0
  Ends [] = Unit
  Ends (c ∷ s) = is_separator c ≡ true

  module _ (P : Text → Type 0) where
    -- A word that passes the test stands at the text's start.
    pub record First (s : Text) : Type 0 where
      pub word : Text
      pub behind : Text
      pub whole : s ≡ word ++ behind
      pub unbroken : Unbroken word
      pub ends : Ends behind
      pub passes : P word

    -- A word that passes the test stands behind a separator.
    pub record Inner (s : Text) : Type 0 where
      pub before : Text
      pub separator : ℕ
      pub rest : Text
      pub whole : s ≡ before ++ separator ∷ rest
      pub separates : is_separator separator ≡ true
      pub first : First rest

  pub First-map :
      {P Q : Text → Type 0} → ((w : Text) → P w → Q w) → {s : Text} → First P s → First Q s
  First-map f first = record {
    word = first.word;
    behind = first.behind;
    whole = first.whole;
    unbroken = first.unbroken;
    ends = first.ends;
    passes = f first.word first.passes;
  }

  pub Inner-map :
      {P Q : Text → Type 0} → ((w : Text) → P w → Q w) → {s : Text} → Inner P s → Inner Q s
  Inner-map f i = record {
    before = i.before;
    separator = i.separator;
    rest = i.rest;
    whole = i.whole;
    separates = i.separates;
    first = First-map f i.first;
  }

  abbrev pub Passes : (Text → Bool) → Text → Type 0
  Passes p word = p word ≡ true

  module _ (p : Text → Bool) where
    record Shape (s : Text) : Type 0 where
      word : Text
      words : List Text
      behind : Text
      is_split : split is_separator s ≡ word ∷ words
      whole : s ≡ word ++ behind
      unbroken : Unbroken word
      ends : Ends behind
      inner : (any p words ≡ true) ↔ Inner (Passes p) s

  Unbroken-unique :
      (v w b c : Text) → Unbroken v → Unbroken w → Ends b → Ends c → v ++ b ≡ w ++ c → v ≡ w
  Unbroken-unique [] [] b c uv uw eb ec h = refl
  Unbroken-unique [] (y ∷ w) [] c uv uw eb ec h = absurd (cc h)
  Unbroken-unique [] (y ∷ w) (x ∷ b) c uv uw eb ec h =
      let same : x ≡ y = cc h in absurd (cc (same, eb, uw.0))
  Unbroken-unique (x ∷ v) [] b [] uv uw eb ec h = absurd (cc h)
  Unbroken-unique (x ∷ v) [] b (y ∷ c) uv uw eb ec h =
      let same : x ≡ y = cc h in absurd (cc (same, ec, uv.0))
  Unbroken-unique (x ∷ v) (y ∷ w) b c uv uw eb ec h =
      let same : x ≡ y = cc h in
      let tails : v ++ b ≡ w ++ c = cc h in
      let rest = Unbroken-unique v w b c uv.1 uw.1 eb ec tails in cc (same, rest)

  module _ (p : Text → Bool) where
    Inner-cons : (c : ℕ) {s : Text} → Inner (Passes p) s → Inner (Passes p) (c ∷ s)
    Inner-cons c i = record {
      before = c ∷ i.before;
      separator = i.separator;
      rest = i.rest;
      whole = ap (◌∷◌ c) i.whole;
      separates = i.separates;
      first = i.first;
    }

    nil_no_whole : (before : Text) (c : ℕ) (rest : Text) → [] ≢ before ++ c ∷ rest
    nil_no_whole [] c rest e = cc e
    nil_no_whole (d ∷ before) c rest e = cc e

    Inner-inv_by :
        (before : Text) {c d : ℕ} {s rest : Text}
        → c ∷ s ≡ before ++ d ∷ rest
        → is_separator d ≡ true
        → First (Passes p) rest
        → ((is_separator c ≡ true) × First (Passes p) s) ⊎ Inner (Passes p) s
    Inner-inv_by [] {c} {d} {s} {rest} e sep f =
        let same : c ≡ d = cc e in let tails : s ≡ rest = cc e in inl (cc (same, sep), rw tails f)
    Inner-inv_by (b ∷ before) {c} {d} {s} {rest} e sep f =
        let tails : s ≡ before ++ d ∷ rest = cc e in
        inr (record {
          before = before;
          separator = d;
          rest = rest;
          whole = tails;
          separates = sep;
          first = f;
        })

    Inner-inv :
        {c : ℕ} {s : Text}
        → Inner (Passes p) (c ∷ s)
        → ((is_separator c ≡ true) × First (Passes p) s) ⊎ Inner (Passes p) s
    Inner-inv i = Inner-inv_by i.before i.whole i.separates i.first

    First-is_head : {s : Text} (sh : Shape p s) → First (Passes p) s → p sh.word ≡ true
    First-is_head sh f =
        let same : sh.word ≡ f.word =
          Unbroken-unique sh.word f.word sh.behind f.behind sh.unbroken f.unbroken sh.ends f.ends
            (sym sh.whole ∙ f.whole) in
        rw same f.passes

    shape : (s : Text) → Shape p s
    unfolding split
    shape [] = record {
      word = [];
      words = [];
      behind = [];
      is_split = refl;
      whole = refl;
      unbroken = tt;
      ends = tt;
      inner = (λ h. absurd (cc h), λ i. absurd (nil_no_whole i.before i.separator i.rest i.whole));
    }
    shape (c ∷ s) =
        let sh = shape s in
        elim (Bool-cases (is_separator c)) [
          | inl sep ↦ record {
            word = [];
            words = sh.word ∷ sh.words;
            behind = c ∷ s;
            is_split = rw (sep, sh.is_split);
            whole = refl;
            unbroken = tt;
            ends = sep;
            inner = (
              λ h. elim (Bool-cases (p sh.word)) [
                | inl blocked ↦ record {
                  before = [];
                  separator = c;
                  rest = s;
                  whole = refl;
                  separates = sep;
                  first = record {
                    word = sh.word;
                    behind = sh.behind;
                    whole = sh.whole;
                    unbroken = sh.unbroken;
                    ends = sh.ends;
                    passes = blocked;
                  };
                }
                | inr allowed ↦ Inner-cons c (sh.inner.0 (ground arith))
              ],
              λ i. elim (Inner-inv i) [
                | inl (_, f) ↦ rw (First-is_head sh f)
                | inr j ↦ let later = sh.inner.1 j in ground arith
              ],
            );
          }
          | inr joins ↦ record {
            word = c ∷ sh.word;
            words = sh.words;
            behind = sh.behind;
            is_split = rw (joins, sh.is_split);
            whole = ap (◌∷◌ c) sh.whole;
            unbroken = (joins, sh.unbroken);
            ends = sh.ends;
            inner = (
              λ h. Inner-cons c (sh.inner.0 h),
              λ i. elim (Inner-inv i) [
                | inl (sep, f) ↦ absurd (cc (sep, joins))
                | inr j ↦ sh.inner.1 j
              ],
            );
          }
        ]

    -- One of the pieces of `split` passes a test exactly when the text has a word, whole and between
    -- separators or the text's ends, that passes it.
    pub any-split :
        (s : Text)
        → (any p (split is_separator s) ≡ true) ↔ (First (Passes p) s ⊎ Inner (Passes p) s)
    any-split s =
        let sh = shape s in
        rw sh.is_split (
          λ h. elim (Bool-cases (p sh.word)) [
            | inl blocked ↦ inl (record {
              word = sh.word;
              behind = sh.behind;
              whole = sh.whole;
              unbroken = sh.unbroken;
              ends = sh.ends;
              passes = blocked;
            })
            | inr allowed ↦ inr (sh.inner.0 (ground arith))
          ],
          λ h. elim h [
            | inl f ↦ rw (First-is_head sh f)
            | inr i ↦ let later = sh.inner.1 i in ground arith
          ],
        )
