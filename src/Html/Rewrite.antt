-- ===== src/Html/Rewrite.antt =====
-- The shape of the two main loops: `while i < len { … }` over the document with an output buffer.
-- One round appends some text to the output and moves `i`; what stands from `i` on is the rest.
use serica.Prelude.{
  ℕ, zero, suc, ◌≤◌, ◌≡◌, refl, ap, [], ◌∷◌, ◌++◌, arith, Text, length, take, drop,
}

-- What one round does: it pushes `emitted`, and goes on in state `next` with `rest`.
pub record Round {ℓ} (S : Type ℓ) : Type ℓ where
  pub emitted : Text
  pub rest : Text
  pub next : S

-- Push the next `n` characters, and go on behind them.
abbrev pub copy {ℓ} : {S : Type ℓ} → S → ℕ → Text → Round S
copy st n s = record { emitted = take n s; rest = drop n s; next = st }

module _ {ℓ} {S : Type ℓ} (round : S → ℕ → Text → Round S) where
  -- The loop on fuel. The document's length is enough: every round moves `i`.
  unfoldable pub run : ℕ → S → Text → Text
  run zero st s = []
  run (suc fuel) st [] = []
  run (suc fuel) st (c ∷ s) = let r = round st c s in r.emitted ++ run fuel r.next r.rest

  unfoldable pub rewrite : S → Text → Text
  unfolding run
  rewrite st s = run (length s) st s

  module _ (shrinks : (st : S) (c : ℕ) (s : Text) → length (round st c s).rest ≤ length s) where
    -- More fuel than the length makes no difference.
    run_fuel : (f g : ℕ) (st : S) (s : Text) → length s ≤ f → length s ≤ g → run f st s ≡ run g st s
    unfolding run
    run_fuel zero zero st s p q = refl
    run_fuel zero (suc g) st [] p q = refl
    run_fuel zero (suc g) st (c ∷ s) p q = absurd (omega arith)
    run_fuel (suc f) zero st [] p q = refl
    run_fuel (suc f) zero st (c ∷ s) p q = absurd (omega arith)
    run_fuel (suc f) (suc g) st [] p q = refl
    run_fuel (suc f) (suc g) st (c ∷ s) p q =
        ap (λ t. (round st c s).emitted ++ t)
          (run_fuel f g (round st c s).next (round st c s).rest (omega (arith, shrinks st c s))
            (omega (arith, shrinks st c s)))

    -- The loop's equation, with no fuel.
    pub rewrite-cons :
        (st : S) (c : ℕ) (s : Text)
        → rewrite st (c ∷ s)
          ≡ (round st c s).emitted ++ rewrite (round st c s).next (round st c s).rest
    unfolding rewrite
    rewrite-cons st c s =
        ap (λ t. (round st c s).emitted ++ t)
          (run_fuel (length s) (length (round st c s).rest) (round st c s).next (round st c s).rest
            (shrinks st c s) (omega arith))

  pub rewrite-nil : (st : S) → rewrite st [] ≡ []
  unfolding rewrite
  rewrite-nil st = refl
