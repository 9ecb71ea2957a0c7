-- ===== src/Cache.antt =====
-- src/cache/mod.rs and src/cache/noop.rs: the cache as its users see it.
pub mod Honest
pub mod Redis
mod Tests
use serica.Prelude.{ℕ, Option, none, List, [], ◌∷◌, Text}

-- A cache, with the state that its operations share. A `Moment` is what the clock and the network do
-- to one operation.
pub record CacheLayer : Type 1 where
  pub State : Type 0
  pub Moment : Type 0
  pub get : Moment → Text → State → Option (List ℕ) × State
  pub set : Moment → Text → List ℕ → ℕ → State → State

-- One operation; a ttl is a `Duration` in milliseconds.
pub data Op (M : Type 0) : Type 0 where
  get_op : M → Text → Op M
  set_op : M → Text → List ℕ → ℕ → Op M

-- The keys and values that are set.
unfoldable pub sets : {M : Type 0} → List (Op M) → List (Text × List ℕ)
sets [] = []
sets (get_op m key ∷ ops) = sets ops
sets (set_op m key value ttl ∷ ops) = (key, value) ∷ sets ops

module _ (L : CacheLayer) where
  unfoldable pub perform : Op L.Moment → L.State → L.State
  perform (get_op m key) s = (L.get m key s).1
  perform (set_op m key value ttl) s = L.set m key value ttl s

  -- The operations in turn, the first of the list last.
  unfoldable pub run : List (Op L.Moment) → L.State → L.State
  unfolding perform
  run [] s = s
  run (op ∷ ops) s = perform op (run ops s)

  -- What the `get`s of `run` return, in its order.
  unfoldable pub hits : List (Op L.Moment) → L.State → List (Option (List ℕ))
  unfolding run
  hits [] s = []
  hits (get_op m key ∷ ops) s = (L.get m key (run ops s)).0 ∷ hits ops s
  hits (set_op m key value ttl ∷ ops) s = hits ops s

-- `NoopCache`
abbrev pub noop_cache : CacheLayer
noop_cache = record {
  State = Unit;
  Moment = Unit;
  get = λ m key s. (none, s);
  set = λ m key value ttl s. s;
}
