-- ===== src/Prelude/Tally.antt =====
-- The sum of a weight over a list, with one item in the middle, and an item that has a weight.
use Prim.Native.Nat.{ℕ, ◌+◌, ◌≤◌, ◌<◌}
use mathlib.Core.Path.{◌≡◌, refl, ap}
use mathlib.Core.Logic.{◌⊎◌, inl, inr}
use native.Mathlib.Decide.{dec_lt}
use mathlib.Core.List.{List, [], ◌∷◌, ◌++◌}
use native.Mathlib.Omega.{arith}

module _ {ℓ} {A : Type ℓ} (w : A → ℕ) where
  abbrev pub total : List A → ℕ
  total [] = 0
  total (x ∷ xs) = w x + total xs

  pub total-append : (xs ys : List A) → total (xs ++ ys) ≡ total xs + total ys
  total-append [] ys = omega arith
  total-append (x ∷ xs) ys = omega (arith, total-append xs ys)

  -- An item that has a weight, and the items around it.
  pub record Found (xs : List A) : Type ℓ where
    pub before : List A
    pub item : A
    pub after : List A
    pub split : xs ≡ before ++ (item ∷ after)
    pub weight : 0 < w item

  pub find : (xs : List A) → (total xs ≡ 0) ⊎ Found xs
  find [] = inl refl
  find (x ∷ xs) = elim (dec_lt 0 (w x)) [
    | yes h ↦ inr (record { before = []; item = x; after = xs; split = refl; weight = h })
    | no h ↦ elim (find xs) [
      | inl rest ↦ inl (omega (arith, rest))
      | inr f ↦ inr (record {
        before = x ∷ f.before;
        item = f.item;
        after = f.after;
        split = ap (◌∷◌ x) f.split;
        weight = f.weight;
      })
    ]
  ]

  pub total_middle :
      (xs : List A) (x : A) (ys : List A) → total (xs ++ (x ∷ ys)) ≡ w x + (total xs + total ys)
  total_middle xs x ys = omega (arith, total-append xs (x ∷ ys))

-- A weight that is nowhere more than another one gives no more.
pub total-le {ℓ} :
    {A : Type ℓ} (w w' : A → ℕ) (xs : List A) → ((x : A) → w x ≤ w' x) → total w xs ≤ total w' xs
total-le w w' [] h = omega arith
total-le w w' (x ∷ xs) h = omega (arith, h x, total-le w w' xs h)
