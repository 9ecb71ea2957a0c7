-- ===== src/Cache/Redis/Attempts/Spacing.antt =====
-- How often the tasks of src/cache/redis.rs try to connect, and who of them does.
use serica.Prelude.{
  ℕ, ◌+◌, ◌*◌, ◌≤◌, ◌≡◌, refl, sym, ◌∙◌, ◌≢◌, inl, inr, false, Option, none, some, List, [], ◌∷◌,
  arith, tests, Bool-cases, Option-cases, length,
}
use serica.Cache.Redis.{
  LazyState, Look, given, proceed, throttled, look, Connecting, connected, refused, timed_out,
  settle, invalidate, reconnect_min_interval,
}
use serica.Cache.Redis.Attempts.{
  set_phase, Phase, connecting, System, after_look, with_conn, Step, tick, fast_path, recheck,
  begin, finish, answered, broken, drop_conn, Cancel, cancelled, connect_cancelled, init, Reach,
  start, later, dropped,
}

-- Each time is at least ten seconds after the one before, the last first and before the given one.
abbrev pub Apart : ℕ → List ℕ → Type 0
Apart at [] = Unit
Apart at (before ∷ earlier) = (before + reconnect_min_interval ≤ at) × Apart before earlier

-- The attempts up to now.
abbrev pub Spaced : ℕ → List ℕ → Type 0
Spaced now [] = Unit
Spaced now (at ∷ earlier) = (at ≤ now) × Apart at earlier

abbrev pub latest : List ℕ → Option ℕ
latest [] = none
latest (at ∷ earlier) = some at

-- What holds between any two steps. The task that connects holds the write lock, and no other does.
pub record IsPaced {C : Type 0} (s : System C) : Type 0 where
  pub spaced : Spaced s.now s.attempts
  pub recorded : s.lazy.last_attempt ≡ latest s.attempts
  pub holder : (i : ℕ) → s.phase i ≡ connecting → s.writer ≡ some i
  pub held : (i : ℕ) → s.writer ≡ some i → s.phase i ≡ connecting

Spaced-mono : (now ms : ℕ) (attempts : List ℕ) → Spaced now attempts → Spaced (now + ms) attempts
Spaced-mono now ms [] h = tt
Spaced-mono now ms (at ∷ l) h = (omega (arith, h.0), h.1)

throttle_over :
    (now last : ℕ) → throttled now (some last) ≡ false → last + reconnect_min_interval ≤ now
unfolding throttled
throttle_over now last h = grind (arith, tests)

look-proceed :
    {C : Type 0} (now : ℕ) (s : LazyState C)
    → look now s ≡ proceed
    → throttled now s.last_attempt ≡ false
unfolding look
look-proceed now s h = elim (Option-cases s.conn) [
  | inl e ↦ elim (Bool-cases (throttled now s.last_attempt)) [
    | inl t ↦ absurd (grind arith)
    | inr t ↦ t
  ]
  | inr (c, e) ↦ absurd (grind arith)
]

-- An attempt that the test lets through comes ten seconds after the one before.
Spaced-begin :
    {C : Type 0} (now ms : ℕ) (s : LazyState C) (attempts : List ℕ)
    → s.last_attempt ≡ latest attempts
    → look now s ≡ proceed
    → Spaced now attempts
    → Spaced (now + ms) ((now + ms) ∷ attempts)
Spaced-begin now ms s [] e h spaced = (omega arith, tt)
Spaced-begin now ms s (at ∷ earlier) e h spaced =
    let free : throttled now (some at) ≡ false = rw (sym e) (look-proceed now s h) in
    (omega arith, (omega (arith, throttle_over now at free), spaced.1))

-- Only the clock of the last attempt is kept by what an attempt ends in.
settle-last_attempt :
    {C : Type 0} (o : Connecting C) (s : LazyState C) → (settle o s).1.last_attempt ≡ s.last_attempt
unfolding settle
settle-last_attempt (connected c) s = refl
settle-last_attempt refused s = refl
settle-last_attempt timed_out s = refl

after_look-connecting : {C : Type 0} (l : Look C) → after_look l ≢ connecting
unfolding after_look
after_look-connecting (given none) e = cc e
after_look-connecting (given (some c)) e = cc e
after_look-connecting proceed e = cc e

with_conn-connecting : {C : Type 0} (o : Option C) → with_conn o ≢ connecting
unfolding with_conn
with_conn-connecting none e = cc e
with_conn-connecting (some c) e = cc e

-- A step that leaves the clock of the attempts alone, and takes a task from one phase to another that
-- are both without the lock.
module _ {C : Type 0} (s : System C) (inv : IsPaced s) (i : ℕ) (p : Phase C) where
  moved_holder :
      s.phase i ≢ connecting
      → p ≢ connecting
      → (j : ℕ) → set_phase s.phase i p j ≡ connecting
      → s.writer ≡ some j
  moved_holder from to j e = ground (arith, inv.holder j)

  moved_held :
      s.phase i ≢ connecting → (j : ℕ) → s.writer ≡ some j → set_phase s.phase i p j ≡ connecting
  moved_held from j e = ground (arith, inv.held j e)

  -- A task that gives the lock back leaves none that connects.
  released :
      s.phase i ≡ connecting
      → p ≢ connecting
      → (j : ℕ) → set_phase s.phase i p j ≡ connecting
      → none ≡ some j
  released from to j e = absurd (ground (arith, inv.holder j, inv.holder i from))

  -- As the phase alone changes.
  moved :
      s.phase i ≢ connecting → p ≢ connecting → IsPaced (record s { phase = set_phase s.phase i p })
  moved from to = record {
    spaced = inv.spaced;
    recorded = inv.recorded;
    holder = moved_holder from to;
    held = moved_held from;
  }

Step-IsPaced : {C : Type 0} {s t : System C} → Step s t → IsPaced s → IsPaced t
unfolding invalidate
Step-IsPaced {s} (tick ms) inv = record {
  spaced = Spaced-mono s.now ms s.attempts inv.spaced;
  recorded = inv.recorded;
  holder = inv.holder;
  held = inv.held;
}
Step-IsPaced {s} (fast_path i e free) inv =
    moved s inv i _ (λ c. cc (e, c)) (after_look-connecting (look s.now s.lazy))
Step-IsPaced {s} (recheck i {conn} e free l) inv =
    moved s inv i _ (λ c. cc (e, c)) (with_conn-connecting conn)
Step-IsPaced {s} (begin i ms e free l) inv = record {
  spaced = Spaced-begin s.now ms s.lazy s.attempts inv.recorded l inv.spaced;
  recorded = refl;
  holder = λ j c. ground (arith, inv.holder j);
  held = λ j w. ground (arith, inv.held j);
}
Step-IsPaced {s} (finish i o e) inv = record {
  spaced = inv.spaced;
  recorded = settle-last_attempt o s.lazy ∙ inv.recorded;
  holder = released s inv i _ e (with_conn-connecting (settle o s.lazy).0);
  held = λ j w. absurd (cc w);
}
Step-IsPaced {s} (answered i e) inv = moved s inv i _ (λ c. cc (e, c)) (λ c. cc c)
Step-IsPaced {s} (broken i e) inv = moved s inv i _ (λ c. cc (e, c)) (λ c. cc c)
Step-IsPaced {s} (drop_conn i e free) inv = record {
  spaced = inv.spaced;
  recorded = inv.recorded;
  holder = moved_holder s inv i _ (λ c. cc (e, c)) (λ c. cc c);
  held = moved_held s inv i _ (λ c. cc (e, c));
}

Cancel-IsPaced : {C : Type 0} {s t : System C} → Cancel s t → IsPaced s → IsPaced t
Cancel-IsPaced {s} (cancelled i away) inv = moved s inv i _ away (λ c. cc c)
Cancel-IsPaced {s} (connect_cancelled i e) inv = record {
  spaced = inv.spaced;
  recorded = inv.recorded;
  holder = released s inv i _ e (λ c. cc c);
  held = λ j w. absurd (cc w);
}

init-IsPaced : {C : Type 0} → IsPaced {C = C} init
init-IsPaced = record { spaced = tt; recorded = refl; holder = λ i e. cc e; held = λ i e. cc e }

-- In every state that the tasks reach, each attempt was begun at least ten seconds after the one
-- before, the last is the one that the throttle counts from, and a task is connecting just if it
-- holds the lock.
pub Reach-IsPaced : {C : Type 0} {s : System C} → Reach s → IsPaced s
Reach-IsPaced start = init-IsPaced
Reach-IsPaced (later r st) = Step-IsPaced st (Reach-IsPaced r)
Reach-IsPaced (dropped r c) = Cancel-IsPaced c (Reach-IsPaced r)

length-Spaced :
    (at : ℕ) (earlier : List ℕ) → Apart at earlier → length earlier * reconnect_min_interval ≤ at
length-Spaced at [] h = omega arith
length-Spaced at (before ∷ earlier) h = omega (arith, h.0, length-Spaced before earlier h.1)

attempts-le :
    (now : ℕ) (attempts : List ℕ)
    → Spaced now attempts
    → length attempts * reconnect_min_interval ≤ now + reconnect_min_interval
attempts-le now [] h = omega arith
attempts-le now (at ∷ earlier) h = omega (arith, h.0, length-Spaced at earlier h.1)

-- However many tasks use the cache and in whatever order, in the first `now` milliseconds they try to
-- connect at most `now / 10000 + 1` times.
pub attempts_bounded :
    {C : Type 0} {s : System C}
    → Reach s
    → length s.attempts * reconnect_min_interval ≤ s.now + reconnect_min_interval
attempts_bounded {s} r = attempts-le s.now s.attempts (Reach-IsPaced r).spaced

-- Two tasks never connect at once.
pub one_connects :
    {C : Type 0} {s : System C}
    → Reach s
    → (i j : ℕ) → s.phase i ≡ connecting
    → s.phase j ≡ connecting
    → i ≡ j
one_connects r i j e e' =
    let inv = Reach-IsPaced r in ground (arith, inv.holder i e, inv.holder j e')
