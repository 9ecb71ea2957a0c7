-- ===== src/Cache/Redis.antt =====
-- src/cache/redis.rs: the caches that Redis holds. The server and its client are parameters. An
-- `Instant` is a number of milliseconds.
pub mod Attempts
pub mod Lazy
pub mod Down
use serica.Prelude.{
  ℕ, ◌-◌, ◌/◌, Bool, false, Option, none, some, List, ◌++◌, ltb, if◌then◌else◌, Text, text,
}
use serica.Cache.{CacheLayer}

-- `RECONNECT_MIN_INTERVAL`
abbrev pub reconnect_min_interval : ℕ
reconnect_min_interval = 10000

-- A Redis server, and what its client does with a connection. An error is `none` for GET and `false`
-- for SETEX, which may have taken effect all the same.
pub record Server : Type 1 where
  pub Db : Type 0
  pub Conn : Type 0
  pub get : Conn → Text → Db → Option (Option (List ℕ)) × Db
  pub setex : Conn → Text → ℕ → List ℕ → Db → Bool × Db

-- `full_key`, with the `key_prefix` that both caches are made with
unfoldable pub full_key : Text → Text
full_key key = text "serica:" ++ key

-- `as_secs`
abbrev pub as_secs : ℕ → ℕ
as_secs ttl = ttl / 1000

-- The hit or the miss that a reply to GET stands for: an error is a miss.
unfoldable pub heard : Option (Option (List ℕ)) → Option (List ℕ)
heard (some found) = found
heard none = none

module _ (R : Server) where
  -- `RedisCache::get`
  unfoldable pub eager_get : R.Conn → Text → R.Db → Option (List ℕ) × R.Db
  unfolding full_key heard
  eager_get conn key db = let (reply, db') = R.get conn (full_key key) db in (heard reply, db')

  -- `RedisCache::set`
  unfoldable pub eager_set : R.Conn → Text → List ℕ → ℕ → R.Db → R.Db
  unfolding full_key
  eager_set conn key value ttl db = (R.setex conn (full_key key) (as_secs ttl) value db).1

  -- `RedisCache`
  abbrev pub redis_cache : R.Conn → CacheLayer
  redis_cache conn = record {
    State = R.Db;
    Moment = Unit;
    get = λ m key db. eager_get conn key db;
    set = λ m key value ttl db. eager_set conn key value ttl db;
  }

pub record LazyState (C : Type 0) : Type 0 where
  pub conn : Option C
  pub last_attempt : Option ℕ

-- `LazyRedisCache::new`
abbrev pub fresh : {C : Type 0} → LazyState C
fresh = record { conn = none; last_attempt = none }

-- `last.elapsed() < RECONNECT_MIN_INTERVAL`
unfoldable pub throttled : ℕ → Option ℕ → Bool
throttled now none = false
throttled now (some last) = ltb (now - last) reconnect_min_interval

-- What the test of the connection and of the throttle decides.
pub data Look (C : Type 0) : Type 0 where
  given : Option C → Look C
  proceed : Look C

-- The test that `ensure_conn` makes under the read lock and again under the write lock.
unfoldable pub look : {C : Type 0} → ℕ → LazyState C → Look C
unfolding throttled
look now s = elim s.conn [
  | some conn ↦ given (some conn)
  | none ↦ if throttled now s.last_attempt then given none else proceed
]

-- What comes of `timeout(CONNECT_TIMEOUT, client.get_connection_manager())`.
pub data Connecting (C : Type 0) : Type 0 where
  connected : C → Connecting C
  refused : Connecting C
  timed_out : Connecting C

-- The match on it.
unfoldable pub settle : {C : Type 0} → Connecting C → LazyState C → Option C × LazyState C
settle (connected conn) s = (some conn, record s { conn = some conn })
settle refused s = (none, s)
settle timed_out s = (none, s)

-- `invalidate`
unfoldable pub invalidate : {C : Type 0} → LazyState C → LazyState C
invalidate s = record s { conn = none }

-- What is left of the connection behind a reply to GET.
unfoldable pub kept_if : {C : Type 0} → Option (Option (List ℕ)) → LazyState C → LazyState C
unfolding invalidate
kept_if (some found) s = s
kept_if none s = invalidate s

-- The clock as `ensure_conn` reads it, under the read lock, under the write lock and as the attempt
-- begins, and what the attempt comes to.
pub record Moment (C : Type 0) : Type 0 where
  pub read_at : ℕ
  pub locked_at : ℕ
  pub attempt_at : ℕ
  pub outcome : Connecting C

unfoldable pub attempt : {C : Type 0} → Moment C → LazyState C → Look C → Option C × LazyState C
unfolding settle
attempt m s (given conn) = (conn, s)
attempt m s proceed = settle m.outcome (record s { last_attempt = some m.attempt_at })

unfoldable pub relook : {C : Type 0} → Moment C → LazyState C → Look C → Option C × LazyState C
unfolding look attempt
relook m s (given conn) = (conn, s)
relook m s proceed = attempt m s (look m.locked_at s)

-- `ensure_conn` of a task that no other task interrupts.
unfoldable pub ensure_conn : {C : Type 0} → Moment C → LazyState C → Option C × LazyState C
unfolding look relook
ensure_conn m s = relook m s (look m.read_at s)

module _ (R : Server) where
  pub record Shared : Type 0 where
    pub lazy : LazyState R.Conn
    pub db : R.Db

  -- `match redis::cmd("GET")…`
  unfoldable pub query_get : Text → Shared → Option R.Conn → Option (List ℕ) × Shared
  unfolding full_key heard kept_if
  query_get key s none = (none, s)
  query_get key s (some conn) =
      let (reply, db') = R.get conn (full_key key) s.db in
      (heard reply, record { lazy = kept_if reply s.lazy; db = db' })

  -- `match redis::cmd("SETEX")…`
  unfoldable pub query_set : Text → List ℕ → ℕ → Shared → Option R.Conn → Shared
  unfolding full_key invalidate
  query_set key value ttl s none = s
  query_set key value ttl s (some conn) =
      let (accepted, db') = R.setex conn (full_key key) (as_secs ttl) value s.db in
      record { lazy = (if accepted then s.lazy else invalidate s.lazy); db = db' }

  unfoldable pub lazy_get : Moment R.Conn → Text → Shared → Option (List ℕ) × Shared
  unfolding ensure_conn query_get
  lazy_get m key s =
      let (conn, lazy') = ensure_conn m s.lazy in query_get key (record s { lazy = lazy' }) conn

  unfoldable pub lazy_set : Moment R.Conn → Text → List ℕ → ℕ → Shared → Shared
  unfolding ensure_conn query_set
  lazy_set m key value ttl s =
      let (conn, lazy') = ensure_conn m s.lazy in
      query_set key value ttl (record s { lazy = lazy' }) conn

  -- `LazyRedisCache`
  abbrev pub lazy_redis_cache : CacheLayer
  lazy_redis_cache = record {
    State = Shared;
    Moment = Moment R.Conn;
    get = lazy_get;
    set = lazy_set;
  }
