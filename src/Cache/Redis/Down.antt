-- ===== src/Cache/Redis/Down.antt =====
-- src/cache/redis.rs while Redis does not answer.
use serica.Prelude.{
  ℕ, ◌≡◌, refl, ◌∙◌, ◌≢◌, ◌⊎◌, inl, inr, Option, none, some, List, [], ◌∷◌, map, Bool-cases, All,
  Text,
}
use mathlib.Core.Path.{ap₂}
use serica.Cache.{Op, get_op, set_op, perform, run, hits, noop_cache}
use serica.Cache.Redis.{
  Server, LazyState, Look, given, proceed, look, throttled, Connecting, connected, refused,
  timed_out, settle, Moment, attempt, relook, ensure_conn, Shared, query_get, query_set, lazy_get,
  lazy_set, lazy_redis_cache,
}

-- No attempt of the operation finds Redis.
abbrev pub FindsNone : {C : Type 0} → Moment C → Type 0
FindsNone {C} m = (c : C) → m.outcome ≢ connected c

abbrev pub IsDown : {C : Type 0} → Op (Moment C) → Type 0
IsDown (get_op m key) = FindsNone m
IsDown (set_op m key value ttl) = FindsNone m

-- The same operation on another cache.
abbrev pub erase : {M : Type 0} → Op M → Op Unit
erase (get_op m key) = get_op tt key
erase (set_op m key value ttl) = set_op tt key value ttl

settle_down :
    {C : Type 0} (o : Connecting C) (s : LazyState C)
    → ((c : C) → o ≢ connected c)
    → s.conn ≡ none
    → ((settle o s).0 ≡ none) × ((settle o s).1.conn ≡ none)
unfolding settle
settle_down (connected c) s down e = absurd (down c refl)
settle_down refused s down e = (refl, e)
settle_down timed_out s down e = (refl, e)

look_down :
    {C : Type 0} (now : ℕ) (s : LazyState C)
    → s.conn ≡ none
    → (look now s ≡ given none) ⊎ (look now s ≡ proceed)
unfolding look
look_down now s e = elim (Bool-cases (throttled now s.last_attempt)) [
  | inl t ↦ inl (rw (e, t))
  | inr t ↦ inr (rw (e, t))
]

attempt_down :
    {C : Type 0} (m : Moment C) (s : LazyState C) (l : Look C)
    → FindsNone m
    → s.conn ≡ none
    → (l ≡ given none) ⊎ (l ≡ proceed)
    → ((attempt m s l).0 ≡ none) × ((attempt m s l).1.conn ≡ none)
unfolding attempt
attempt_down m s l down e (inl h) = rw h (refl, e)
attempt_down m s l down e (inr h) = rw h (settle_down m.outcome _ down e)

relook_down :
    {C : Type 0} (m : Moment C) (s : LazyState C) (l : Look C)
    → FindsNone m
    → s.conn ≡ none
    → (l ≡ given none) ⊎ (l ≡ proceed)
    → ((relook m s l).0 ≡ none) × ((relook m s l).1.conn ≡ none)
unfolding relook
relook_down m s l down e (inl h) = rw h (refl, e)
relook_down m s l down e (inr h) = rw h (attempt_down m s _ down e (look_down m.locked_at s e))

ensure_down :
    {C : Type 0} (m : Moment C) (s : LazyState C)
    → FindsNone m
    → s.conn ≡ none
    → ((ensure_conn m s).0 ≡ none) × ((ensure_conn m s).1.conn ≡ none)
unfolding ensure_conn
ensure_down m s down e = relook_down m s _ down e (look_down m.read_at s e)

module _ (R : Server) where
  -- The operation missed, and left nothing behind but the time of an attempt.
  abbrev pub IsOff : Shared R → Shared R → Type 0
  IsOff s s' = (s'.lazy.conn ≡ none) × (s'.db ≡ s.db)

  query_get-IsOff :
      (key : Text) (s : Shared R) (conn : Option R.Conn)
      → conn ≡ none
      → s.lazy.conn ≡ none
      → ((query_get R key s conn).0 ≡ none) × IsOff s (query_get R key s conn).1
  unfolding query_get
  query_get-IsOff key s none h e = (refl, (e, refl))
  query_get-IsOff key s (some conn) h e = absurd (cc h)

  query_set-IsOff :
      (key : Text) (value : List ℕ) (ttl : ℕ) (s : Shared R) (conn : Option R.Conn)
      → conn ≡ none
      → s.lazy.conn ≡ none
      → IsOff s (query_set R key value ttl s conn)
  unfolding query_set
  query_set-IsOff key value ttl s none h e = (e, refl)
  query_set-IsOff key value ttl s (some conn) h e = absurd (cc h)

  lazy_get-IsOff :
      (m : Moment R.Conn) (key : Text) (s : Shared R)
      → FindsNone m
      → s.lazy.conn ≡ none
      → ((lazy_get R m key s).0 ≡ none) × IsOff s (lazy_get R m key s).1
  unfolding lazy_get
  lazy_get-IsOff m key s down e =
      let off = ensure_down m s.lazy down e in query_get-IsOff key _ _ off.0 off.1

  lazy_set-IsOff :
      (m : Moment R.Conn) (key : Text) (value : List ℕ) (ttl : ℕ) (s : Shared R)
      → FindsNone m
      → s.lazy.conn ≡ none
      → IsOff s (lazy_set R m key value ttl s)
  unfolding lazy_set
  lazy_set-IsOff m key value ttl s down e =
      let off = ensure_down m s.lazy down e in query_set-IsOff key value ttl _ _ off.0 off.1

  run-IsOff :
      (ops : List (Op (Moment R.Conn))) (s : Shared R)
      → All IsDown ops
      → s.lazy.conn ≡ none
      → IsOff s (run (lazy_redis_cache R) ops s)
  unfolding run perform
  run-IsOff [] s down e = (e, refl)
  run-IsOff (get_op m key ∷ ops) s down e =
      let before = run-IsOff ops s down.1 e in
      let off = (lazy_get-IsOff m key _ down.0 before.0).1 in (off.0, off.1 ∙ before.1)
  run-IsOff (set_op m key value ttl ∷ ops) s down e =
      let before = run-IsOff ops s down.1 e in
      let off = lazy_set-IsOff m key value ttl _ down.0 before.0 in (off.0, off.1 ∙ before.1)

  -- From a state without a connection, and while no attempt finds Redis, `LazyRedisCache` returns
  -- what `NoopCache` returns for the same operations, and leaves the server's data alone.
  pub down_is_noop :
      (ops : List (Op (Moment R.Conn))) (s : Shared R)
      → All IsDown ops
      → s.lazy.conn ≡ none
      → (hits (lazy_redis_cache R) ops s ≡ hits noop_cache (map erase ops) tt)
        × ((run (lazy_redis_cache R) ops s).db ≡ s.db)
  unfolding hits
  down_is_noop [] s down e = (refl, refl)
  down_is_noop (get_op m key ∷ ops) s down e =
      let before = run-IsOff ops s down.1 e in
      let off = lazy_get-IsOff m key (run (lazy_redis_cache R) ops s) down.0 before.0 in
      let rest = down_is_noop ops s down.1 e in
      (ap₂ ◌∷◌ off.0 rest.0, (run-IsOff (get_op m key ∷ ops) s down e).1)
  down_is_noop (set_op m key value ttl ∷ ops) s down e =
      ((down_is_noop ops s down.1 e).0, (run-IsOff (set_op m key value ttl ∷ ops) s down e).1)
