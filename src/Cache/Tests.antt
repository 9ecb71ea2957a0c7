-- ===== src/Cache/Tests.antt =====
-- src/cache on small servers and schedules.
use serica.Prelude.{
  ℕ, ◌≡◌, refl, sym, ◌⊎◌, inl, inr, true, Option, none, some, List, [], ◌∷◌, map, arith,
  if◌then◌else◌, Bool-cases, Text, text, text_eq, text_eq_iff,
}
use native.Mathlib.Decide.{ℕ_discrete}
use mathlib.Core.List.{Mem}
use serica.Cache.{Op, get_op, set_op, sets, run, hits, noop_cache}
use serica.Cache.Redis.{
  Server, fresh, Moment, connected, refused, Shared, lazy_get, lazy_set, lazy_redis_cache, look,
}
use serica.Cache.Redis.Lazy.{IsStore, Kept, lazy_hit_was_set}
use serica.Cache.Redis.Down.{erase, down_is_noop}
use serica.Cache.Redis.Attempts.{
  System, idle, connecting, seeking, after_look, init, Reach, start, later, fast_path, begin,
  set_phase,
}
use serica.Cache.Redis.Attempts.Progress.{CanReturn, can_return}
use serica.Cache.Redis.Attempts.Spacing.{IsPaced, Reach-IsPaced}

-- A server that holds the last value that was set, and says it for every key that is the same.
abbrev small : Server
small = record {
  Db = Option (Text × List ℕ);
  Conn = Unit;
  get = λ conn key db.
      (some (elim db [ none ↦ none | some (k, v) ↦ if text_eq k key then some v else none ]), db);
  setex = λ conn key secs value db. (true, some (key, value));
}

SmallHolds : Option (Text × List ℕ) → Text → List ℕ → Type 0
SmallHolds none k v = ⊥
SmallHolds (some (k', v')) k v = (k' ≡ k) × (v' ≡ v)

small_got :
    (c : Unit) (k : Text) (db : Option (Text × List ℕ)) (v : List ℕ)
    → (small.get c k db).0 ≡ some (some v)
    → SmallHolds db k v
unfolding SmallHolds
small_got c k none v h = absurd (cc h)
small_got c k (some (k', v')) v h = elim (Bool-cases (text_eq k' k)) [
  | inl e ↦ ((text_eq_iff k' k).0 e, grind arith)
  | inr e ↦ absurd (grind arith)
]

small-IsStore : IsStore small
unfolding SmallHolds
small-IsStore = record {
  Holds = SmallHolds;
  got = small_got;
  get_adds = λ c k db k' v h. h;
  setex_adds = λ c k secs v db k' v' h. inl (sym h.0, sym h.1);
}

abbrev connecting_moment : Moment Unit
connecting_moment = record { read_at = 0; locked_at = 0; attempt_at = 0; outcome = connected tt }

abbrev empty : Shared small
empty = record { lazy = fresh; db = none }

abbrev one_set : List (Op (Moment Unit))
one_set = set_op connecting_moment (text "k") (7 ∷ []) 1000 ∷ []

read_again :
    (lazy_get small connecting_moment (text "k") (run (lazy_redis_cache small) one_set empty)).0
    ≡ some (7 ∷ [])
unfolding lazy_get lazy_set run text_eq
read_again = refl

lazy_hit_was_set_example :
    Mem (text "k", 7 ∷ []) (sets one_set) ⊎ Kept small small-IsStore none (text "k") (7 ∷ [])
lazy_hit_was_set_example =
    lazy_hit_was_set small small-IsStore one_set empty connecting_moment (text "k") (7 ∷ [])
      read_again

abbrev down_moment : Moment Unit
down_moment = record connecting_moment { outcome = refused }

abbrev down_ops : List (Op (Moment Unit))
down_ops = get_op down_moment (text "k") ∷ (set_op down_moment (text "k") (7 ∷ []) 1000 ∷ [])

down_is_noop_example :
    (hits (lazy_redis_cache small) down_ops empty ≡ hits noop_cache (map erase down_ops) tt)
    × ((run (lazy_redis_cache small) down_ops empty).db ≡ none)
down_is_noop_example = down_is_noop small down_ops empty ((λ c e. cc e), ((λ c e. cc e), tt)) refl

abbrev sought : System Unit
sought = record init { phase = set_phase (λ i. idle) 2 seeking }

abbrev tried : System Unit
tried = record sought {
  now = 5;
  lazy = record { conn = none; last_attempt = some 5 };
  writer = some 2;
  attempts = 5 ∷ [];
  phase = set_phase (set_phase (λ i. idle) 2 seeking) 2 connecting;
}

sought-Reach : Reach sought
unfolding look after_look
sought-Reach = later start (fast_path 2 refl refl)

tried-Reach : Reach tried
unfolding look ℕ_discrete
tried-Reach = later sought-Reach (begin 2 5 refl refl refl)

can_return_example : CanReturn tried 2
can_return_example = can_return tried-Reach 2

Reach-IsPaced_example : IsPaced tried
Reach-IsPaced_example = Reach-IsPaced tried-Reach
