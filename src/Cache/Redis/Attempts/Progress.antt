-- ===== src/Cache/Redis/Attempts/Progress.antt =====
-- How the tasks of src/cache/redis.rs get past each other.
use serica.Prelude.{ℕ, ◌≡◌, refl, inl, inr, Option, none, some, arith, Option-cases}
use serica.Cache.Redis.{Look, given, proceed, look, refused, settle}
use serica.Cache.Redis.Attempts.{
  set_phase, Phase, idle, seeking, connecting, querying, dropping, System, with_conn, Step, recheck,
  begin, finish, answered, drop_conn, Reach,
}
use serica.Cache.Redis.Attempts.Spacing.{Reach-IsPaced}

-- Steps of which none is a cancellation.
pub data Steps {C : Type 0} : System C → System C → Type 0 where
  stay : {s : System C} → Steps s s
  onward : {s t u : System C} → Step s t → Steps t u → Steps s u

set_phase_self : {C : Type 0} (f : ℕ → Phase C) (i : ℕ) (p : Phase C) → set_phase f i p i ≡ p
set_phase_self f i p = ground arith

-- From here the task can leave the cache.
abbrev pub CanReturn : {C : Type 0} → System C → ℕ → Type 0
CanReturn {C} s i = (t : System C) × Steps s t × (t.phase i ≡ idle)

after_query :
    {C : Type 0} (s : System C) (i : ℕ) (conn : Option C)
    → s.phase i ≡ with_conn conn
    → CanReturn s i
unfolding with_conn
after_query s i none e = (s, stay, e)
after_query s i (some conn) e = (_, onward (answered i e) stay, set_phase_self s.phase i idle)

after_step : {C : Type 0} {s t : System C} {i : ℕ} → Step s t → CanReturn t i → CanReturn s i
after_step st (u, steps, e) = (u, onward st steps, e)

after_connect : {C : Type 0} (s : System C) (i : ℕ) → s.phase i ≡ connecting → CanReturn s i
unfolding settle with_conn
after_connect s i e = (_, onward (finish i refused e) stay, set_phase_self s.phase i idle)

after_seek :
    {C : Type 0} (s : System C) (i : ℕ) (l : Look C)
    → look s.now s.lazy ≡ l
    → s.phase i ≡ seeking
    → s.writer ≡ none
    → CanReturn s i
after_seek s i (given conn) h e free =
    after_step (recheck i e free h)
      (after_query _ i conn (set_phase_self s.phase i (with_conn conn)))
after_seek s i proceed h e free =
    after_step (begin i 0 e free h) (after_connect _ i (set_phase_self s.phase i connecting))

unlocked :
    {C : Type 0} (s : System C) (i : ℕ) (p : Phase C)
    → s.phase i ≡ p
    → s.writer ≡ none
    → CanReturn s i
unlocked s i idle e free = (s, stay, e)
unlocked s i seeking e free = after_seek s i _ refl e free
unlocked s i connecting e free = after_connect s i e
unlocked s i (querying conn) e free = (_, onward (answered i e) stay, set_phase_self s.phase i idle)
unlocked s i dropping e free = (_, onward (drop_conn i e free) stay, set_phase_self s.phase i idle)

-- No task is stuck: from every state that the tasks reach, each of them can still come to leave the
-- cache, and not by being cancelled.
pub can_return : {C : Type 0} {s : System C} → Reach s → (i : ℕ) → CanReturn s i
can_return {s} r i = elim (Option-cases s.writer) [
  | inl free ↦ unlocked s i _ refl free
  | inr (j, w) ↦
      after_step (finish j refused ((Reach-IsPaced r).held j w)) (unlocked _ i _ refl refl)
]
