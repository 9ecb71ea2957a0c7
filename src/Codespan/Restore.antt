-- ===== src/Codespan/Restore.antt =====
-- `restore_whitespace_placeholders` of src/util/codespan_fixup.rs: every sentinel is turned into one
-- space, which takes one space on either side into itself.
use mathlib.Core.List.{reverse, reverse_aux, reverse-cons}
use serica.Prelude.{
  ℕ, ◌≡◌, refl, sym, ◌∙◌, inl, inr, false, [], ◌∷◌, ◌++◌, append-nil, append_assoc, arith, ◌==◌,
  if◌then◌else◌, Bool-cases, All, Text,
}
use serica.Codespan.{whitespace_sentinel, pop_space, restore_onto, restore_whitespace_placeholders}

abbrev pub NotSentinel : ℕ → Type 0
NotSentinel c = (c == whitespace_sentinel) ≡ false

All-reverse_aux :
    (xs ys : Text) → All NotSentinel xs → All NotSentinel ys → All NotSentinel (reverse_aux xs ys)
All-reverse_aux [] ys h k = k
All-reverse_aux (x ∷ xs) ys h k = All-reverse_aux xs (x ∷ ys) h.1 (h.0, k)

All-reverse : (xs : Text) → All NotSentinel xs → All NotSentinel (reverse xs)
All-reverse xs h = All-reverse_aux xs [] h tt

All-pop_space : (out : Text) → All NotSentinel out → All NotSentinel (pop_space out)
All-pop_space [] h = h
All-pop_space (c ∷ out) h = ground arith

restore_onto-NotSentinel :
    (out s : Text) → All NotSentinel out → All NotSentinel (restore_onto out s)
unfolding restore_onto
restore_onto-NotSentinel out [] h = All-reverse out h
restore_onto-NotSentinel out (c ∷ []) h = elim (Bool-cases (c == whitespace_sentinel)) [
  | inl marked ↦ rw marked (All-reverse (32 ∷ pop_space out) (refl, All-pop_space out h))
  | inr plain ↦ rw plain (All-reverse (c ∷ out) (plain, h))
]
restore_onto-NotSentinel out (c ∷ d ∷ s) h = elim (Bool-cases (c == whitespace_sentinel)) [
  | inr plain ↦ rw plain (restore_onto-NotSentinel (c ∷ out) (d ∷ s) (plain, h))
  | inl marked ↦ elim (Bool-cases (d == 32)) [
    | inl space ↦
        rw (marked, space)
          (restore_onto-NotSentinel (32 ∷ pop_space out) s (refl, All-pop_space out h))
    | inr other ↦
        rw (marked, other)
          (restore_onto-NotSentinel (32 ∷ pop_space out) (d ∷ s) (refl, All-pop_space out h))
  ]
]

-- No sentinel is left, wherever the text comes from.
pub restore-NotSentinel :
    (content : Text) → All NotSentinel (restore_whitespace_placeholders content)
unfolding restore_whitespace_placeholders
restore-NotSentinel content = restore_onto-NotSentinel [] content tt

-- One space is dropped at the front.
abbrev pub skip_space : Text → Text
skip_space [] = []
skip_space (d ∷ s) = if d == 32 then s else d ∷ s

-- One space is dropped at the end.
abbrev pub drop_last_space : Text → Text
drop_last_space s = reverse (pop_space (reverse s))

restore_onto-plain : (out s : Text) → All NotSentinel s → restore_onto out s ≡ reverse out ++ s
unfolding restore_onto
restore_onto-plain out [] h = sym (append-nil (reverse out))
restore_onto-plain out (c ∷ []) h = rw h.0 (reverse-cons c out)
restore_onto-plain out (c ∷ d ∷ s) h =
    rw h.0 (restore_onto-plain (c ∷ out) (d ∷ s) h.1 ∙ simp (reverse-cons, append_assoc))

restore_onto-append :
    (out a : Text) (c : ℕ) (s : Text)
    → All NotSentinel a
    → restore_onto out (a ++ (c ∷ s)) ≡ restore_onto (reverse a ++ out) (c ∷ s)
unfolding restore_onto
restore_onto-append out [] c s h = refl
restore_onto-append out (b ∷ []) c s h = rw h.0
restore_onto-append out (b ∷ d ∷ a) c s h =
    rw h.0 (restore_onto-append (b ∷ out) (d ∷ a) c s h.1 ∙ simp (reverse-cons, append_assoc))

restore_onto-sentinel :
    (out s : Text)
    → restore_onto out (whitespace_sentinel ∷ s) ≡ restore_onto (32 ∷ pop_space out) (skip_space s)
unfolding restore_onto
restore_onto-sentinel out [] = refl
restore_onto-sentinel out (d ∷ s) = ground arith

skip_space-All : (s : Text) → All NotSentinel s → All NotSentinel (skip_space s)
skip_space-All [] h = h
skip_space-All (d ∷ s) h = ground arith

-- A sentinel between two texts that hold none becomes one space, and takes into itself one space
-- before it and one space behind it. All else stands as it did.
pub restore_between :
    (a b : Text)
    → All NotSentinel a
    → All NotSentinel b
    → restore_whitespace_placeholders (a ++ (whitespace_sentinel ∷ b))
      ≡ drop_last_space a ++ (32 ∷ skip_space b)
unfolding restore_whitespace_placeholders
restore_between a b ha hb =
    restore_onto-append [] a whitespace_sentinel b ha
    ∙ restore_onto-sentinel (reverse a ++ []) b
    ∙ restore_onto-plain (32 ∷ pop_space (reverse a ++ [])) (skip_space b) (skip_space-All b hb)
    ∙ simp (append-nil, reverse-cons, append_assoc)

-- A text with no sentinel is given back as it is.
pub restore_plain :
    (content : Text) → All NotSentinel content → restore_whitespace_placeholders content ≡ content
unfolding restore_whitespace_placeholders
restore_plain content h = restore_onto-plain [] content h

-- Restoring a second time changes nothing, whatever the text.
pub restore_idempotent :
    (content : Text)
    → restore_whitespace_placeholders (restore_whitespace_placeholders content)
      ≡ restore_whitespace_placeholders content
restore_idempotent content = restore_plain _ (restore-NotSentinel content)
