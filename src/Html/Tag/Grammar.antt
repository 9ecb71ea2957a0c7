-- ===== src/Html/Tag/Grammar.antt =====
-- Where tags open, end and close in a document, said without the scanners of Html/Tag.antt, and that
-- these find just that.
use mathlib.Core.Option
use serica.Prelude.{
  ℕ, suc, ◌+◌, ◌≡◌, refl, sym, ◌≢◌, ◌↔◌, ◌⊎◌, inl, inr, Bool, true, false, not, ◌&&◌, Option, none,
  some, [], ◌∷◌, arith, ◌==◌, ==_iff, Bool-cases, Option-cases, length, drop, Text,
  is_ascii_whitespace, eq_ignore_ascii_case,
}
use mathlib.Core.Path.{subst}
use serica.Html.Tag.{
  starts_ignore_case, at_boundary, is_tag_open_at, squote_after, dquote_after, find_tag_end_from,
  find_tag_end, skip_to_gt, closing_tag_len,
}

-- The text begins with the letters, in any case.
abbrev pub Begins : Text → Text → Type 0
Begins [] s = Unit
Begins (t ∷ ts) [] = ⊥
Begins (t ∷ ts) (b ∷ s) = (eq_ignore_ascii_case b t ≡ true) × Begins ts s

-- White space, if any, and a `>`, of this length together.
abbrev pub Gap : Text → ℕ → Type 0
Gap [] k = ⊥
Gap (b ∷ s) k =
    ((b ≡ b'>') × (k ≡ 1)) ⊎ ((is_ascii_whitespace b ≡ true) × (m : ℕ) × (k ≡ suc m) × Gap s m)

-- A tag `</name >` of this length stands at the start.
abbrev pub Closes : Text → Text → ℕ → Type 0
Closes name s k =
    Begins (b'<' ∷ b'/' ∷ name) s
    × (m : ℕ) × (k ≡ 2 + length name + m)
    × Gap (drop (2 + length name) s) m

-- A tag `<name` stands at the start, with white space, a `>` or a `/` behind its name.
abbrev pub Bounded : Text → Type 0
Bounded [] = ⊥
Bounded (b ∷ s) = (is_ascii_whitespace b ≡ true) ⊎ (b ≡ b'>') ⊎ (b ≡ b'/')

abbrev pub Opens : Text → Text → Type 0
Opens name s = Begins (b'<' ∷ name) s × Bounded (drop (1 + length name) s)

pub data Place : Type 0 where
  outside single double : Place

starts_iff : (p s : Text) → (starts_ignore_case p s ≡ true) ↔ Begins p s
unfolding starts_ignore_case
starts_iff [] s = (λ h. tt, λ h. refl)
starts_iff (t ∷ ts) [] = (λ h. absurd (cc h), λ h. absurd h)
starts_iff (t ∷ ts) (b ∷ s) = elim (Bool-cases (eq_ignore_ascii_case b t)) [
  | inl same ↦ rw same (λ h. (refl, (starts_iff ts s).0 h), λ h. (starts_iff ts s).1 h.1)
  | inr other ↦ rw other (λ h. absurd (cc h), λ h. absurd (cc h.0))
]

at_boundary_iff : (s : Text) → (at_boundary s ≡ true) ↔ Bounded s
unfolding at_boundary
at_boundary_iff [] = (λ h. absurd (cc h), λ h. absurd h)
at_boundary_iff (b ∷ s) = elim (Bool-cases (is_ascii_whitespace b)) [
  | inl space ↦ rw space (λ h. inl refl, λ h. refl)
  | inr other ↦ rw other (elim (Bool-cases (b == b'>')) [
    | inl gt ↦ rw gt (λ h. inr (inl ((==_iff b b'>').0 gt)), λ h. refl)
    | inr no_gt ↦ rw no_gt (
      λ h. inr (inr ((==_iff b b'/').0 h)),
      λ h. elim h [
        | inl space ↦ absurd (cc space)
        | inr (inl gt) ↦ absurd (cc ((==_iff b b'>').1 gt, no_gt))
        | inr (inr slash) ↦ (==_iff b b'/').1 slash
      ],
    )
  ])
]

and_iff :
    (a b : Bool) {P Q : Type 0} → (a ≡ true) ↔ P → (b ≡ true) ↔ Q → ((a && b) ≡ true) ↔ (P × Q)
and_iff true b p q = (λ h. (p.0 refl, q.0 h), λ h. q.1 h.1)
and_iff false b p q = (λ h. absurd (cc h), λ h. p.1 h.0)

pub is_tag_open_at_iff : (name s : Text) → (is_tag_open_at name s ≡ true) ↔ Opens name s
unfolding is_tag_open_at
is_tag_open_at_iff name s =
    and_iff (starts_ignore_case (b'<' ∷ name) s) (at_boundary (drop (1 + length name) s))
      (starts_iff (b'<' ∷ name) s) (at_boundary_iff (drop (1 + length name) s))

skip_to_gt_sound : (s : Text) {k : ℕ} → skip_to_gt s ≡ some k → Gap s k
unfolding skip_to_gt
skip_to_gt_sound [] h = absurd (cc h)
skip_to_gt_sound (b ∷ s) {k} h = elim (Bool-cases (is_ascii_whitespace b)) [
  | inl space ↦ elim (Option-cases (skip_to_gt s)) [
    | inl e ↦ ground arith
    | inr (m, e) ↦ inr (space, m, ground arith, skip_to_gt_sound s e)
  ]
  | inr other ↦ elim (Bool-cases (b == b'>')) [
    | inl gt ↦ inl ((==_iff b b'>').0 gt, ground arith)
    | inr no_gt ↦ ground arith
  ]
]

skip_to_gt_complete : (s : Text) {k : ℕ} → Gap s k → skip_to_gt s ≡ some k
unfolding skip_to_gt is_ascii_whitespace
skip_to_gt_complete [] h = absurd h
skip_to_gt_complete (b ∷ s) (inl (gt, one)) = rw (gt, one) refl
skip_to_gt_complete (b ∷ s) (inr (space, m, e, gap)) = rw (space, e, skip_to_gt_complete s gap) refl

pub closing_tag_len_sound :
    (name s : Text) {k : ℕ} → closing_tag_len name s ≡ some k → Closes name s k
unfolding closing_tag_len
closing_tag_len_sound name s {k} h = elim (Bool-cases (starts_ignore_case (b'<' ∷ b'/' ∷ name) s)) [
  | inr other ↦ absurd (cc (h, other))
  | inl starts ↦ elim (Option-cases (skip_to_gt (drop (2 + length name) s))) [
    | inl e ↦ ground arith
    | inr (m, e) ↦ (
      (starts_iff (b'<' ∷ b'/' ∷ name) s).0 starts,
      m,
      ground arith,
      skip_to_gt_sound (drop (2 + length name) s) e,
    )
  ]
]

pub closing_tag_len_complete :
    (name s : Text) {k : ℕ} → Closes name s k → closing_tag_len name s ≡ some k
unfolding closing_tag_len
closing_tag_len_complete name s (starts, m, e, gap) =
    rw
      (
        (starts_iff (b'<' ∷ b'/' ∷ name) s).1 starts,
        skip_to_gt_complete (drop (2 + length name) s) gap,
        e,
      )
      refl

-- The flags of the scanner at a place.
abbrev in_single_of : Place → Bool
in_single_of single = true
in_single_of _ = false

abbrev in_double_of : Place → Bool
in_double_of double = true
in_double_of _ = false

-- One character on, at the place behind it.
pub data Moves : Place → ℕ → Place → Type 0 where
  stays : {b : ℕ} → b ≢ b'\'' → b ≢ b'"' → Moves outside b outside
  to_single : {b : ℕ} → b ≡ b'\'' → Moves outside b single
  to_double : {b : ℕ} → b ≡ b'"' → Moves outside b double
  in_single : {b : ℕ} → b ≢ b'\'' → Moves single b single
  in_double : {b : ℕ} → b ≢ b'"' → Moves double b double
  from_single : {b : ℕ} → b ≡ b'\'' → Moves single b outside
  from_double : {b : ℕ} → b ≡ b'"' → Moves double b outside

abbrev IsEnd : Place → ℕ → Type 0
IsEnd outside b = b ≡ b'>'
IsEnd _ b = ⊥

-- The first `>` outside quotes stands at this index.
pub data Ends : Place → Text → ℕ → Type 0 where
  here : {p : Place} {b : ℕ} {s : Text} → IsEnd p b → Ends p (b ∷ s) 0
  later :
      {p q : Place} {b : ℕ} {s : Text} {n : ℕ}
      → ¬ IsEnd p b
      → Moves p b q
      → Ends q s n
      → Ends p (b ∷ s) (suc n)

-- The flags after a move are those of the place.
Moves-flags :
    {p q : Place} {b : ℕ}
    → Moves p b q
    → (squote_after (in_single_of p) (in_double_of p) b ≡ in_single_of q)
      × (dquote_after (in_single_of p) (in_double_of p) b ≡ in_double_of q)
Moves-flags (stays no_sq no_dq) = ground arith
Moves-flags (to_single e) = ground arith
Moves-flags (to_double e) = ground arith
Moves-flags (in_single no_sq) = ground arith
Moves-flags (in_double no_dq) = ground arith
Moves-flags (from_single e) = ground arith
Moves-flags (from_double e) = ground arith

false-≢ : (a b : ℕ) → (a == b) ≡ false → a ≢ b
false-≢ a b h e = cc ((==_iff a b).1 e, h)

move : (p : Place) (b : ℕ) → (q : Place) × Moves p b q
move outside b = elim (Bool-cases (b == b'\'')) [
  | inl sq ↦ (single, to_single ((==_iff b b'\'').0 sq))
  | inr no_sq ↦ elim (Bool-cases (b == b'"')) [
    | inl dq ↦ (double, to_double ((==_iff b b'"').0 dq))
    | inr no_dq ↦ (outside, stays (false-≢ b b'\'' no_sq) (false-≢ b b'"' no_dq))
  ]
]
move single b = elim (Bool-cases (b == b'\'')) [
  | inl sq ↦ (outside, from_single ((==_iff b b'\'').0 sq))
  | inr no_sq ↦ (single, in_single (false-≢ b b'\'' no_sq))
]
move double b = elim (Bool-cases (b == b'"')) [
  | inl dq ↦ (outside, from_double ((==_iff b b'"').0 dq))
  | inr no_dq ↦ (double, in_double (false-≢ b b'"' no_dq))
]

IsEnd-cases :
    (p : Place) (b : ℕ)
    → ((not (in_single_of p) && not (in_double_of p) && b == b'>') ≡ true × IsEnd p b)
      ⊎ ((not (in_single_of p) && not (in_double_of p) && b == b'>') ≡ false × ¬ IsEnd p b)
IsEnd-cases outside b = elim (Bool-cases (b == b'>')) [
  | inl gt ↦ inl (gt, (==_iff b b'>').0 gt)
  | inr no_gt ↦ inr (no_gt, false-≢ b b'>' no_gt)
]
IsEnd-cases single b = inr (refl, λ h. h)
IsEnd-cases double b = inr (refl, λ h. h)

suc_inv : (o : Option ℕ) {n : ℕ} → Option.map suc o ≡ some n → (m : ℕ) × (o ≡ some m) × (n ≡ suc m)
suc_inv none h = absurd (cc h)
suc_inv (some m) h = (m, refl, sym (Option.some-injective _ _ h))

find_end_sound :
    (p : Place) (s : Text) {n : ℕ}
    → find_tag_end_from (in_single_of p) (in_double_of p) s ≡ some n
    → Ends p s n
unfolding find_tag_end_from
find_end_sound p [] h = absurd (cc h)
find_end_sound p (b ∷ s) h = elim (IsEnd-cases p b) [
  | inl (test, at_end) ↦
      let zero_is = Option.some-injective _ _ (rw test at h) in
      subst (Ends p (b ∷ s)) zero_is (here at_end)
  | inr (test, no_end) ↦
      let (q, m) = move p b in
      let moved = rw (test, (Moves-flags m).0, (Moves-flags m).1) at h in
      let (k, found, is_suc) =
        suc_inv (find_tag_end_from (in_single_of q) (in_double_of q) s) moved in
      subst (Ends p (b ∷ s)) (sym is_suc) (later no_end m (find_end_sound q s found))
]

find_end_complete :
    (p : Place) (s : Text) {n : ℕ}
    → Ends p s n
    → find_tag_end_from (in_single_of p) (in_double_of p) s ≡ some n
unfolding find_tag_end_from
find_end_complete p [] e = elim e [ ]
find_end_complete p (b ∷ s) (here at_end) = elim (IsEnd-cases p b) [
  | inl (test, _) ↦ rw test refl
  | inr (_, no_end) ↦ absurd (no_end at_end)
]
find_end_complete p (b ∷ s) (later no_end m e) = elim (IsEnd-cases p b) [
  | inl (_, at_end) ↦ absurd (no_end at_end)
  | inr (test, _) ↦ rw (test, (Moves-flags m).0, (Moves-flags m).1, find_end_complete _ s e) refl
]

pub find_tag_end_sound : (s : Text) {n : ℕ} → find_tag_end s ≡ some n → Ends outside s n
unfolding find_tag_end
find_tag_end_sound s h = find_end_sound outside s h

pub find_tag_end_complete : (s : Text) {n : ℕ} → Ends outside s n → find_tag_end s ≡ some n
unfolding find_tag_end
find_tag_end_complete s e = find_end_complete outside s e

pub no_end : (s : Text) → find_tag_end s ≡ none → ¬ ((n : ℕ) × Ends outside s n)
no_end s h (n, ends) = cc (h, find_tag_end_complete s ends)
