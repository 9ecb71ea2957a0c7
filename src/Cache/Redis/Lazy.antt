-- ===== src/Cache/Redis/Lazy.antt =====
-- The caches of src/cache/redis.rs as their users see them, while Redis answers or fails.
-- that is off while it does not.
use serica.Prelude.{ℕ, ◌≡◌, ◌⊎◌, inl, inr, Option, none, some, List, Text}
use mathlib.Core.List.{Mem}
use serica.Cache.{Op, sets, run}
use serica.Cache.Honest.{Honest, hit_was_set}
use serica.Cache.Redis.{
  Server, full_key, as_secs, heard, eager_get, eager_set, redis_cache, Moment, Shared, query_get,
  query_set, lazy_get, lazy_set, lazy_redis_cache,
}

-- What Redis documents of GET and SETEX, where no other client writes below the prefix: a value that
-- is got is held, GET adds nothing, and SETEX adds its own value at most.
pub record IsStore (R : Server) : Type 1 where
  pub Holds : R.Db → Text → List ℕ → Type 0
  pub got :
      (c : R.Conn) (k : Text) (db : R.Db) (v : List ℕ)
      → (R.get c k db).0 ≡ some (some v)
      → Holds db k v
  pub get_adds :
      (c : R.Conn) (k : Text) (db : R.Db) (k' : Text) (v : List ℕ)
      → Holds (R.get c k db).1 k' v
      → Holds db k' v
  pub setex_adds :
      (c : R.Conn) (k : Text) (secs : ℕ) (v : List ℕ) (db : R.Db) (k' : Text) (v' : List ℕ)
      → Holds (R.setex c k secs v db).1 k' v'
      → ((k' ≡ k) × (v' ≡ v)) ⊎ Holds db k' v'

full_key-injective : (k k' : Text) → full_key k ≡ full_key k' → k ≡ k'
unfolding full_key
full_key-injective k k' e = cc e

heard-some :
    (reply : Option (Option (List ℕ))) {v : List ℕ} → heard reply ≡ some v → reply ≡ some (some v)
unfolding heard
heard-some (some found) h = cc h
heard-some none h = absurd (cc h)

module _ (R : Server) (T : IsStore R) where
  abbrev pub Kept : R.Db → Text → List ℕ → Type 0
  Kept db key value = T.Holds db (full_key key) value

  eager_sound :
      (conn : R.Conn) (key : Text) (db : R.Db) (value : List ℕ)
      → (eager_get R conn key db).0 ≡ some value
      → Kept db key value
  unfolding eager_get
  eager_sound conn key db value h = T.got conn (full_key key) db value (heard-some _ h)

  eager_set_adds :
      (conn : R.Conn) (key : Text) (value : List ℕ) (ttl : ℕ) (db : R.Db)
      → (key' : Text) (value' : List ℕ) → Kept (eager_set R conn key value ttl db) key' value'
      → ((key' ≡ key) × (value' ≡ value)) ⊎ Kept db key' value'
  unfolding eager_set
  eager_set_adds conn key value ttl db key' value' kept =
      elim (T.setex_adds conn (full_key key) (as_secs ttl) value db (full_key key') value' kept) [
        | inl same ↦ inl (full_key-injective _ _ same.0, same.1)
        | inr held ↦ inr held
      ]

  -- `RedisCache` is honest.
  redis-Honest : (conn : R.Conn) → Honest (redis_cache R conn)
  unfolding eager_get
  redis-Honest conn = record {
    Kept = Kept;
    get_sound = λ m key db value h. eager_sound conn key db value h;
    get_keeps =
        λ m key db key' value kept. T.get_adds conn (full_key key) db (full_key key') value kept;
    set_keeps = λ m key value ttl db key' value' kept.
        eager_set_adds conn key value ttl db key' value' kept;
  }

  query_get_sound :
      (key : Text) (s : Shared R) (conn : Option R.Conn) (value : List ℕ)
      → (query_get R key s conn).0 ≡ some value
      → Kept s.db key value
  unfolding query_get
  query_get_sound key s none value h = absurd (cc h)
  query_get_sound key s (some conn) value h = T.got conn (full_key key) s.db value (heard-some _ h)

  query_get_adds :
      (key : Text) (s : Shared R) (conn : Option R.Conn) (key' : Text) (value : List ℕ)
      → Kept (query_get R key s conn).1.db key' value
      → Kept s.db key' value
  unfolding query_get
  query_get_adds key s none key' value kept = kept
  query_get_adds key s (some conn) key' value kept =
      T.get_adds conn (full_key key) s.db (full_key key') value kept

  query_set_adds :
      (key : Text) (value : List ℕ) (ttl : ℕ) (s : Shared R) (conn : Option R.Conn)
      → (key' : Text) (value' : List ℕ) → Kept (query_set R key value ttl s conn).db key' value'
      → ((key' ≡ key) × (value' ≡ value)) ⊎ Kept s.db key' value'
  unfolding query_set eager_set
  query_set_adds key value ttl s none key' value' kept = inr kept
  query_set_adds key value ttl s (some conn) key' value' kept =
      eager_set_adds conn key value ttl s.db key' value' kept

  -- `LazyRedisCache` is honest, however its attempts to connect end.
  lazy-Honest : Honest (lazy_redis_cache R)
  unfolding lazy_get lazy_set
  lazy-Honest = record {
    Kept = λ s key value. Kept s.db key value;
    get_sound = λ m key s value h. query_get_sound key _ _ value h;
    get_keeps = λ m key s key' value kept. query_get_adds key _ _ key' value kept;
    set_keeps =
        λ m key value ttl s key' value' kept. query_set_adds key value ttl _ _ key' value' kept;
  }

  -- A hit of `RedisCache` is a value that was set under its key, or one that Redis held before.
  pub redis_hit_was_set :
      (conn : R.Conn) (ops : List (Op Unit)) (db : R.Db) (key : Text) (value : List ℕ)
      → (eager_get R conn key (run (redis_cache R conn) ops db)).0 ≡ some value
      → Mem (key, value) (sets ops) ⊎ Kept db key value
  unfolding redis-Honest
  redis_hit_was_set conn ops db key value hit =
      hit_was_set (redis_cache R conn) (redis-Honest conn) ops db tt key value hit

  -- A hit of `LazyRedisCache` is a value that was set under its key, or one that Redis held before,
  -- however its attempts to connect and its queries end.
  pub lazy_hit_was_set :
      (ops : List (Op (Moment R.Conn))) (s : Shared R) (m : Moment R.Conn) (key : Text)
      → (value : List ℕ) → (lazy_get R m key (run (lazy_redis_cache R) ops s)).0 ≡ some value
      → Mem (key, value) (sets ops) ⊎ Kept s.db key value
  unfolding lazy-Honest
  lazy_hit_was_set ops s m key value hit =
      hit_was_set (lazy_redis_cache R) lazy-Honest ops s m key value hit
