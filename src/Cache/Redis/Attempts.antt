-- ===== src/Cache/Redis/Attempts.antt =====
-- src/cache/redis.rs with any number of tasks on one `LazyRedisCache`, interleaved in any order. The
-- tests under the read lock hold no `await`, so each is one step; the write lock is held over the
-- connect.
pub mod Spacing
pub mod Progress
use serica.Prelude.{ℕ, ◌+◌, ◌≡◌, ◌≢◌, Option, none, some, List, [], ◌∷◌}
use native.Mathlib.Decide.{ℕ_discrete}
use mathlib.Core.Logic.{ite}
use serica.Cache.Redis.{
  LazyState, fresh, Look, given, proceed, look, Connecting, settle, invalidate,
}

-- Where a task stands in an operation.
pub data Phase (C : Type 0) : Type 0 where
  idle : Phase C  -- outside the cache
  seeking : Phase C  -- before `self.state.write()` in `ensure_conn`
  connecting : Phase C  -- in `timeout(CONNECT_TIMEOUT, …)`, with the write lock
  querying : C → Phase C  -- in `query_async`
  dropping : Phase C  -- before `self.state.write()` in `invalidate`

-- The phases with that of one task set.
abbrev pub set_phase : {C : Type 0} → (ℕ → Phase C) → ℕ → Phase C → ℕ → Phase C
set_phase phases task p other = ite (ℕ_discrete task other) p (phases other)

-- `attempts` are the times of the attempts, the last of them first.
pub record System (C : Type 0) : Type 0 where
  pub now : ℕ
  pub lazy : LazyState C
  pub writer : Option ℕ
  pub attempts : List ℕ
  pub phase : ℕ → Phase C

-- Where the test leads from the fast path.
unfoldable pub after_look : {C : Type 0} → Look C → Phase C
after_look (given none) = idle
after_look (given (some conn)) = querying conn
after_look proceed = seeking

-- Where a task goes with what `ensure_conn` returns.
unfoldable pub with_conn : {C : Type 0} → Option C → Phase C
with_conn none = idle
with_conn (some conn) = querying conn

pub data Step {C : Type 0} (s : System C) : System C → Type 0 where
  tick : (ms : ℕ) → Step s (record s { now = s.now + ms })
  fast_path :
      (i : ℕ)
      → s.phase i ≡ idle
      → s.writer ≡ none
      → Step s (record s { phase = set_phase s.phase i (after_look (look s.now s.lazy)) })
  recheck :
      (i : ℕ) {conn : Option C}
      → s.phase i ≡ seeking
      → s.writer ≡ none
      → look s.now s.lazy ≡ given conn
      → Step s (record s { phase = set_phase s.phase i (with_conn conn) })
  begin :
      (i ms : ℕ)
      → s.phase i ≡ seeking
      → s.writer ≡ none
      → look s.now s.lazy ≡ proceed
      → Step s (record {
        now = s.now + ms;
        lazy = record s.lazy { last_attempt = some (s.now + ms) };
        writer = some i;
        attempts = (s.now + ms) ∷ s.attempts;
        phase = set_phase s.phase i connecting;
      })
  finish :
      (i : ℕ) (outcome : Connecting C)
      → s.phase i ≡ connecting
      → Step s (record s {
        lazy = (settle outcome s.lazy).1;
        writer = none;
        phase = set_phase s.phase i (with_conn (settle outcome s.lazy).0);
      })
  answered :
      (i : ℕ) {conn : C}
      → s.phase i ≡ querying conn
      → Step s (record s { phase = set_phase s.phase i idle })
  broken :
      (i : ℕ) {conn : C}
      → s.phase i ≡ querying conn
      → Step s (record s { phase = set_phase s.phase i dropping })
  drop_conn :
      (i : ℕ)
      → s.phase i ≡ dropping
      → s.writer ≡ none
      → Step s (record s { lazy = invalidate s.lazy; phase = set_phase s.phase i idle })

-- The timeout of a request drops its future, and with it the lock.
pub data Cancel {C : Type 0} (s : System C) : System C → Type 0 where
  cancelled :
      (i : ℕ) → s.phase i ≢ connecting → Cancel s (record s { phase = set_phase s.phase i idle })
  connect_cancelled :
      (i : ℕ)
      → s.phase i ≡ connecting
      → Cancel s (record s { writer = none; phase = set_phase s.phase i idle })

-- The cache as `LazyRedisCache::new` makes it, with no task in it.
abbrev pub init : {C : Type 0} → System C
init = record { now = 0; lazy = fresh; writer = none; attempts = []; phase = λ i. idle }

pub data Reach {C : Type 0} : System C → Type 0 where
  start : Reach init
  later : {s t : System C} → Reach s → Step s t → Reach t
  dropped : {s t : System C} → Reach s → Cancel s t → Reach t
