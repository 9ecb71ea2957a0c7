-- ===== src/Mcp/Stdio/Framing/Lines.antt =====
-- A text as a client reads it, line by line, beside what src/gateway/mcp.rs, `run_stdio`, writes.
use mathlib.Core.Bool.{Bool-set}
use mathlib.Core.List.{Perm, Permᴰ, reverse_aux}
use mathlib.Core.Logic.{∥∥₁_elim}
use serica.Prelude.{
  ℕ, ◌≡◌, refl, sym, ap, ◌∙◌, Bool, true, false, not, ◌&&◌, List, [], ◌∷◌, ◌++◌, append_assoc,
  arith, ◌==◌, if◌then◌else◌, all, Text,
}
use serica.Mcp.Stdio.{framed}

-- No newline is in the text.
abbrev pub is_line : Text → Bool
is_line t = all (λ c. not (c == 10)) t

abbrev pub prepend : ℕ → List Text → List Text
prepend c [] = (c ∷ []) ∷ []
prepend c (t ∷ ts) = (c ∷ t) ∷ ts

-- The text cut at its newlines. The last piece is the one that has no newline behind it.
unfoldable pub cut : Text → List Text
cut [] = [] ∷ []
cut (c ∷ s) = let pieces = cut s in if c == 10 then [] ∷ pieces else prepend c pieces

pub cut_line : (t s : Text) → is_line t ≡ true → cut (t ++ (10 ∷ s)) ≡ t ∷ cut s
unfolding cut
cut_line [] s h = refl
cut_line (c ∷ t) s h = ground (arith, cut_line t s)

pub cut_end : (t : Text) → is_line t ≡ true → cut t ≡ t ∷ []
unfolding cut
cut_end [] h = refl
cut_end (c ∷ t) h = ground (arith, cut_end t)

and-eq-true : (a b : Bool) → (a && b) ≡ true → (a ≡ true) × (b ≡ true)
and-eq-true true b h = (refl, h)
and-eq-true false b h = absurd (cc h)

pub cut-framed :
    (log : List Text) (rest : Text)
    → all is_line log ≡ true
    → cut (framed log ++ rest) ≡ reverse_aux log (cut rest)
unfolding framed
cut-framed [] rest h = refl
cut-framed (t ∷ log) rest h =
    let (own, others) = and-eq-true (is_line t) (all is_line log) h in
    ap cut (
      append_assoc (framed log) (t ++ (10 ∷ [])) rest
      ∙ ap (◌++◌ (framed log)) (append_assoc t (10 ∷ []) rest))
    ∙ (cut-framed log (t ++ (10 ∷ rest)) others ∙ ap (reverse_aux log) (cut_line t rest own))

pub all-append :
    {A : Type 0} (p : A → Bool) (xs ys : List A)
    → all p xs ≡ true
    → all p ys ≡ true
    → all p (xs ++ ys) ≡ true
all-append p [] ys h k = k
all-append p (x ∷ xs) ys h k = ground (arith, all-append p xs ys)

and_swap : (a b c : Bool) → (a && (b && c)) ≡ (b && (a && c))
and_swap true b c = refl
and_swap false true c = refl
and_swap false false c = refl

all-Permᴰ : {A : Type 0} (p : A → Bool) {xs ys : List A} → Permᴰ xs ys → all p xs ≡ all p ys
all-Permᴰ p Permᴰ.nil = refl
all-Permᴰ p (Permᴰ.cons e d) = cc (e, all-Permᴰ p d)
all-Permᴰ p (Permᴰ.swap {a} {b} {l} e e') = rw (sym e, sym e') (and_swap (p a) (p b) (all p l))
all-Permᴰ p (Permᴰ.trans d d') = all-Permᴰ p d ∙ all-Permᴰ p d'

pub all-Perm : {A : Type 0} (p : A → Bool) {xs ys : List A} → Perm xs ys → all p xs ≡ all p ys
all-Perm p {xs} {ys} h = ∥∥₁_elim h (Bool-set (all p xs) (all p ys)) (all-Permᴰ p)
