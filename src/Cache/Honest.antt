-- ===== src/Cache/Honest.antt =====
-- What every cache of src/cache promises its users: a hit is a value that was set under that key.
use serica.Prelude.{ℕ, ◌≡◌, ◌⊎◌, inl, inr, some, List, [], ◌∷◌, Text}
use mathlib.Core.List.{Mem, mem-cons_self, mem-cons_of_mem}
use serica.Cache.{CacheLayer, Op, get_op, set_op, sets, perform, run, noop_cache}

-- What a state holds, and that only `set` adds to it.
pub record Honest (L : CacheLayer) : Type 1 where
  pub Kept : L.State → Text → List ℕ → Type 0
  pub get_sound :
      (m : L.Moment) (key : Text) (s : L.State) (value : List ℕ)
      → (L.get m key s).0 ≡ some value
      → Kept s key value
  pub get_keeps :
      (m : L.Moment) (key : Text) (s : L.State) (key' : Text) (value : List ℕ)
      → Kept (L.get m key s).1 key' value
      → Kept s key' value
  pub set_keeps :
      (m : L.Moment) (key : Text) (value : List ℕ) (ttl : ℕ) (s : L.State)
      → (key' : Text) (value' : List ℕ) → Kept (L.set m key value ttl s) key' value'
      → ((key' ≡ key) × (value' ≡ value)) ⊎ Kept s key' value'

module _ (L : CacheLayer) (H : Honest L) where
  run-Kept :
      (ops : List (Op L.Moment)) (s : L.State) (key : Text) (value : List ℕ)
      → H.Kept (run L ops s) key value
      → Mem (key, value) (sets ops) ⊎ H.Kept s key value
  unfolding run perform sets
  run-Kept [] s key value kept = inr kept
  run-Kept (get_op m key' ∷ ops) s key value kept =
      run-Kept ops s key value (H.get_keeps m key' (run L ops s) key value kept)
  run-Kept (set_op m key' value' ttl ∷ ops) s key value kept =
      elim (H.set_keeps m key' value' ttl (run L ops s) key value kept) [
        | inl same ↦ inl (rw (same.0, same.1) mem-cons_self)
        | inr before ↦ elim (run-Kept ops s key value before) [
          | inl mem ↦ inl (mem-cons_of_mem _ mem)
          | inr started ↦ inr started
        ]
      ]

  -- A hit is a value that was set under its key, or one that was kept before the first operation.
  pub hit_was_set :
      (ops : List (Op L.Moment)) (s : L.State) (m : L.Moment) (key : Text) (value : List ℕ)
      → (L.get m key (run L ops s)).0 ≡ some value
      → Mem (key, value) (sets ops) ⊎ H.Kept s key value
  hit_was_set ops s m key value hit =
      run-Kept ops s key value (H.get_sound m key (run L ops s) value hit)

-- `NoopCache` holds nothing.
noop-Honest : Honest noop_cache
noop-Honest = record {
  Kept = λ s key value. ⊥;
  get_sound = λ m key s value h. cc h;
  get_keeps = λ m key s key' value kept. kept;
  set_keeps = λ m key value ttl s key' value' kept. inr kept;
}
