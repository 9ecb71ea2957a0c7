-- ===== src/Extract/Limiter/Progress.antt =====
-- src/util/extract.rs, `ExtractLimiter`: the requests that wait for a permit need not time out.
use serica.Prelude.{ℕ, zero, suc, ◌≤◌, ◌<◌, ◌≡◌, ap, ◌⊎◌, inl, inr, List, ◌∷◌, ◌++◌, arith}
use serica.Prelude.Tally.{total, total_middle, total-le, find}
use serica.Extract.Limiter.{
  Phase, looking, queued, fetching, parsing, detached, over, System, Move, miss, acquire,
  queue_times_out, fetch_times_out, spawn, parsed, parse_times_out, thread_ends, act, Reach,
}
use serica.Extract.Limiter.Balance.{permit, IsConserved, Step-IsConserved, Reach-IsConserved}

-- No timeout has struck.
abbrev pub IsTimely : {n n' : ℕ} {p p' : Phase} → Move n p n' p' → Type 0
IsTimely queue_times_out = ⊥
IsTimely fetch_times_out = ⊥
IsTimely parse_times_out = ⊥
IsTimely _ = Unit

-- The steps that are left to a request.
abbrev left_of : Phase → ℕ
left_of looking = 4
left_of queued = 3
left_of fetching = 2
left_of parsing = 1
left_of detached = 1
left_of over = 0

-- Steps of the requests that are there, with no timeout.
pub data Onward : System → System → Type 0 where
  stay : {s : System} → Onward s s
  onward :
      {s u : System} (before : List Phase) {p p' : Phase} {n : ℕ} (after : List Phase)
      → s.requests ≡ before ++ (p ∷ after)
      → (m : Move s.permits p n p') → IsTimely m
      → Onward (record { permits = n; requests = before ++ (p' ∷ after) }) u
      → Onward s u

-- A move of the request, with no timeout, and the work that it does.
record CanMove (n : ℕ) (p : Phase) : Type 0 where
  permits : ℕ
  phase : Phase
  move : Move n p permits phase
  timely : IsTimely move
  less : left_of phase < left_of p

-- One where the request needs no permit to go on.
abbrev free : Phase → ℕ
free queued = 0
free over = 0
free _ = 1

free-left : (p : Phase) → 0 < free p → 0 < left_of p
free-left looking h = omega arith
free-left queued h = absurd (omega (arith, h))
free-left fetching h = omega arith
free-left parsing h = omega arith
free-left detached h = omega arith
free-left over h = absurd (omega (arith, h))

-- A request that waits can move if a permit is left, and any other can.
can_move : (n : ℕ) (p : Phase) → 0 < left_of p → (0 < free p) ⊎ (0 < n) → CanMove n p
can_move n looking h ready = record {
  permits = n;
  phase = queued;
  move = miss;
  timely = tt;
  less = omega arith;
}
can_move n queued h (inl none_left) = absurd (omega (arith, none_left))
can_move zero queued h (inr none_left) = absurd (omega (arith, none_left))
can_move (suc n) queued h (inr some_left) = record {
  permits = n;
  phase = fetching;
  move = acquire;
  timely = tt;
  less = omega arith;
}
can_move n fetching h ready = record {
  permits = n;
  phase = parsing;
  move = spawn;
  timely = tt;
  less = omega arith;
}
can_move n parsing h ready = record {
  permits = suc n;
  phase = over;
  move = parsed;
  timely = tt;
  less = omega arith;
}
can_move n detached h ready = record {
  permits = n;
  phase = over;
  move = thread_ends;
  timely = tt;
  less = omega arith;
}
can_move n over h ready = absurd (omega (arith, h))

permit-le-free : (p : Phase) → permit p ≤ free p
permit-le-free looking = omega arith
permit-le-free queued = omega arith
permit-le-free fetching = omega arith
permit-le-free parsing = omega arith
permit-le-free detached = omega arith
permit-le-free over = omega arith

permit-le-left_of : (p : Phase) → permit p ≤ left_of p
permit-le-left_of looking = omega arith
permit-le-left_of queued = omega arith
permit-le-left_of fetching = omega arith
permit-le-left_of parsing = omega arith
permit-le-left_of detached = omega arith
permit-le-left_of over = omega arith

-- A request that can move.
record Next (s : System) : Type 0 where
  before : List Phase
  phase : Phase
  after : List Phase
  split : s.requests ≡ before ++ (phase ∷ after)
  can : CanMove s.permits phase

next : {k : ℕ} (s : System) → IsConserved (suc k) s → (total left_of s.requests ≡ 0) ⊎ Next s
next s h = elim (find free s.requests) [
  | inr f ↦ inr (record {
    before = f.before;
    phase = f.item;
    after = f.after;
    split = f.split;
    can = can_move s.permits f.item (free-left f.item f.weight) (inl f.weight);
  })
  | inl none_free ↦ elim (find left_of s.requests) [
    | inl done ↦ inl done
    | inr f ↦ inr (record {
      before = f.before;
      phase = f.item;
      after = f.after;
      split = f.split;
      can =
          can_move s.permits f.item f.weight
            (inr (omega (arith, h, none_free, total-le permit free s.requests permit-le-free)));
    })
  ]
]

-- The state behind the move.
abbrev behind : (s : System) → Next s → System
behind s n = record { permits = n.can.permits; requests = n.before ++ (n.can.phase ∷ n.after) }

behind-left :
    (s : System) (n : Next s) → total left_of (behind s n).requests < total left_of s.requests
behind-left s n = omega (
  arith,
  n.can.less,
  ap (total left_of) n.split,
  total_middle left_of n.before n.phase n.after,
  total_middle left_of n.before n.can.phase n.after,
)

-- From here all requests can end with no timeout, and the permits are then all free.
pub record Finishes (max_concurrent : ℕ) (s : System) : Type 0 where
  pub last : System
  pub run : Onward s last
  pub all_over : total left_of last.requests ≡ 0
  pub all_free : last.permits ≡ max_concurrent

at_end : {k : ℕ} (s : System) → IsConserved k s → total left_of s.requests ≡ 0 → Finishes k s
at_end s conserved done = record {
  last = s;
  run = stay;
  all_over = done;
  all_free = omega (arith, conserved, done, total-le permit left_of s.requests permit-le-left_of);
}

behind-IsConserved :
    {k : ℕ} (s : System) (n : Next s) → IsConserved k s → IsConserved k (behind s n)
behind-IsConserved s n conserved =
    Step-IsConserved (act n.before n.after n.split n.can.move) conserved

go_on : {k : ℕ} (s : System) (n : Next s) → Finishes k (behind s n) → Finishes k s
go_on s n rest = record {
  last = rest.last;
  run = onward n.before n.after n.split n.can.move n.can.timely rest.run;
  all_over = rest.all_over;
  all_free = rest.all_free;
}

finishes_within :
    (fuel k : ℕ) (s : System)
    → total left_of s.requests ≤ fuel
    → IsConserved (suc k) s
    → Finishes (suc k) s
finishes_within zero k s h conserved = at_end s conserved (omega (arith, h))
finishes_within (suc fuel) k s h conserved = elim (next s conserved) [
  | inl done ↦ at_end s conserved done
  | inr n ↦ go_on s n (
      finishes_within fuel k (behind s n) (omega (arith, h, behind-left s n))
        (behind-IsConserved s n conserved))
]

-- In every state that the requests reach, with one permit or more: all that are there can come to
-- their end without a timeout, also those that wait for a permit, and then all permits are free again.
-- No request has to be timed out for another one to go on.
pub Reach-Finishes : {k : ℕ} {s : System} → Reach (suc k) s → Finishes (suc k) s
Reach-Finishes {k} {s} r =
    finishes_within (total left_of s.requests) k s (omega arith) (Reach-IsConserved r)
