-- ===== src/Http/Key.antt =====
-- src/gateway/http.rs, the API key of `/api/v1/stats`: where it is read, and the comparison in constant
-- time.
use serica.Prelude.{
  ℕ, ◌+◌, ◌*◌, ◌/◌, ◌%◌, ◌<◌, ◌≡◌, refl, sym, ap, ◌∙◌, ◌↔◌, ◌⊎◌, inl, inr, Bool, true, false, not,
  ◌&&◌, Option, none, some, List, [], ◌∷◌, arith, ltb, ◌==◌, if◌then◌else◌, ==_iff, Bool-cases,
  length, All, text,
}
use Prim.Native.Nat.{bit_or, bit_xor}
use serica.Prelude.Tables.{every_below, every_below-lt}
use serica.Error.{unauthorized, Result, ok, err}

-- The bytes of the two headers, `none` where a header is missing or no text.
pub record HeaderMap : Type 0 where
  pub authorization : Option (List ℕ)
  pub x_api_key : Option (List ℕ)

-- `strip_prefix`
unfoldable pub strip_prefix : List ℕ → List ℕ → Option (List ℕ)
strip_prefix [] s = some s
strip_prefix (p ∷ ps) [] = none
strip_prefix (p ∷ ps) (c ∷ s) = let rest = strip_prefix ps s in if p == c then rest else none

abbrev pub bearer_token : Option (List ℕ) → Option (List ℕ)
bearer_token none = none
bearer_token (some value) = strip_prefix (text "Bearer ") value

-- `or`
abbrev pub or_else {ℓ} : {A : Type ℓ} → Option A → Option A → Option A
or_else none o = o
or_else (some a) o = some a

unfoldable pub extract_provided_key : HeaderMap → Option (List ℕ)
unfolding strip_prefix
extract_provided_key headers = or_else (bearer_token headers.authorization) headers.x_api_key

-- The fold over the two sequences.
unfoldable pub fold_bytes : ℕ → List ℕ → List ℕ → ℕ
fold_bytes acc (x ∷ a) (y ∷ b) = fold_bytes (bit_or acc (bit_xor x y)) a b
fold_bytes acc _ _ = acc

unfoldable pub constant_time_eq : List ℕ → List ℕ → Bool
unfolding fold_bytes
constant_time_eq a b = if not (length a == length b) then false else fold_bytes 0 a b == 0

-- The key that was provided, compared.
unfoldable pub match_key : List ℕ → Option (List ℕ) → Result (Unit {0})
unfolding constant_time_eq
match_key configured none = err (unauthorized (text "Missing or invalid API key"))
match_key configured (some provided) =
    if constant_time_eq provided configured
    then ok tt
    else err (unauthorized (text "Missing or invalid API key"))

unfoldable pub check_api_key : Option (List ℕ) → HeaderMap → Result (Unit {0})
unfolding match_key
check_api_key none headers = ok tt
check_api_key (some []) headers = ok tt
check_api_key (some (c ∷ key)) headers = match_key (c ∷ key) (extract_provided_key headers)

-- Bytes, and the tables of `|` and `^` on them.
abbrev pub IsBytes : List ℕ → Type 0
IsBytes s = All (λ x. x < 256) s

abbrev agrees : Bool → Bool → Bool
agrees true b = b
agrees false b = not b

or_pair : ℕ → ℕ → Bool
or_pair a b = ltb (bit_or a b) 256 && agrees (bit_or a b == 0) (a == 0 && b == 0)

xor_pair : ℕ → ℕ → Bool
xor_pair a b = ltb (bit_xor a b) 256 && agrees (bit_xor a b == 0) (a == b)

at_pairs : (ℕ → ℕ → Bool) → ℕ → Bool
at_pairs p n = p (n / 256) (n % 256)

or_table : every_below (at_pairs or_pair) 0x10000 ≡ true
unfolding every_below at_pairs or_pair
or_table = refl

xor_table : every_below (at_pairs xor_pair) 0x10000 ≡ true
unfolding every_below at_pairs xor_pair
xor_table = refl

pair_div : (a b : ℕ) → b < 256 → (a * 256 + b) / 256 ≡ a
pair_div a b h = omega (arith, h)

pair_mod : (a b : ℕ) → b < 256 → (a * 256 + b) % 256 ≡ b
pair_mod a b h = omega (arith, h)

row :
    (p : ℕ → ℕ → Bool) (a b : ℕ)
    → every_below (at_pairs p) 0x10000 ≡ true
    → a < 256
    → b < 256
    → p a b ≡ true
unfolding at_pairs
row p a b table ha hb =
    sym (λ i. p (pair_div a b hb i) (pair_mod a b hb i))
    ∙ every_below-lt (at_pairs p) 0x10000 (omega (arith, ha, hb)) table

or_lem :
    (a b : ℕ) → a < 256 → b < 256 → (bit_or a b < 256) × ((bit_or a b ≡ 0) ↔ ((a ≡ 0) × (b ≡ 0)))
unfolding or_pair
or_lem a b ha hb = let r = row or_pair a b or_table ha hb in ground arith

xor_lem : (a b : ℕ) → a < 256 → b < 256 → (bit_xor a b < 256) × ((bit_xor a b ≡ 0) ↔ (a ≡ b))
unfolding xor_pair
xor_lem a b ha hb = let r = row xor_pair a b xor_table ha hb in ground arith

fold_lem :
    (acc : ℕ) (a b : List ℕ)
    → acc < 256
    → IsBytes a
    → IsBytes b
    → length a ≡ length b
    → (fold_bytes acc a b ≡ 0) ↔ ((acc ≡ 0) × (a ≡ b))
unfolding fold_bytes
fold_lem acc [] [] h ha hb e = (λ z. (z, refl), λ z. z.0)
fold_lem acc [] (y ∷ b) h ha hb e = absurd (omega (arith, e))
fold_lem acc (x ∷ a) [] h ha hb e = absurd (omega (arith, e))
fold_lem acc (x ∷ a) (y ∷ b) h (hx, ha) (hy, hb) e =
    let (small, zero_iff) = xor_lem x y hx hy in
    let (small', zero_iff') = or_lem acc (bit_xor x y) h small in
    let (to, from) = fold_lem (bit_or acc (bit_xor x y)) a b small' ha hb (omega (arith, e)) in
    (
      λ z. let (z', same) = to z in let (z0, zx) = zero_iff'.0 z' in (z0, cc (zero_iff.0 zx, same)),
      λ (z0, same). from (zero_iff'.1 (z0, zero_iff.1 (cc same)), cc same),
    )

-- On bytes the comparison in constant time is equality.
pub constant_time_eq_iff :
    (a b : List ℕ) → IsBytes a → IsBytes b → (constant_time_eq a b ≡ true) ↔ (a ≡ b)
unfolding constant_time_eq
constant_time_eq_iff a b ha hb = elim (Bool-cases (length a == length b)) [
  | inl same ↦
      let (to, from) = fold_lem 0 a b (omega arith) ha hb ((==_iff _ _).0 same) in
      rw same (λ h. (to ((==_iff _ _).0 h)).1, λ e. (==_iff _ _).1 (from (refl, e)))
  | inr other ↦ rw other (λ h. absurd (cc h), λ e. let same = ap length e in absurd (ground arith))
]

-- A caller that provides a key passes exactly where the configured key is empty or equal to it.
pub check_api_key_iff :
    (key : List ℕ) (headers : HeaderMap) (provided : List ℕ)
    → IsBytes key
    → IsBytes provided
    → extract_provided_key headers ≡ some provided
    → (check_api_key (some key) headers ≡ ok tt) ↔ ((key ≡ []) ⊎ (provided ≡ key))
unfolding check_api_key match_key
check_api_key_iff [] headers provided hk hp e = (λ h. inl refl, λ h. refl)
check_api_key_iff (c ∷ key) headers provided hk hp e = rw e (
    let (to, from) = constant_time_eq_iff provided (c ∷ key) hp hk in
    elim (Bool-cases (constant_time_eq provided (c ∷ key))) [
      | inl equal ↦ rw equal (λ h. inr (to equal), λ h. refl)
      | inr other ↦ rw other (
        λ h. absurd (cc h),
        λ h. elim h [
          | inl e ↦ absurd (cc e)
          | inr e ↦ let clash : true ≡ false = sym (from e) ∙ other in absurd (cc clash)
        ],
      )
    ])
