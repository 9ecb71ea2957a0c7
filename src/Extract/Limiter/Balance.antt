-- ===== src/Extract/Limiter/Balance.antt =====
-- The permits of src/util/extract.rs, `ExtractLimiter`.
use serica.Prelude.{ℕ, ◌+◌, ◌≡◌, ap, arith}
use serica.Prelude.Tally.{total, total_middle}
use serica.Extract.Limiter.{
  Phase, fetching, parsing, System, Move, hit, miss, acquire, queue_times_out, fetch_fails,
  fetch_times_out, spawn, parsed, parse_times_out, thread_ends, Step, arrive, act, new_limiter,
  Reach, start, later,
}

-- One if the request has a permit.
abbrev pub permit : Phase → ℕ
permit fetching = 1
permit parsing = 1
permit _ = 0

-- The permits that are left and those that requests hold.
abbrev pub IsConserved : ℕ → System → Type 0
IsConserved max_concurrent s = s.permits + total permit s.requests ≡ max_concurrent

Move-permits : {n n' : ℕ} {p p' : Phase} → Move n p n' p' → n' + permit p' ≡ n + permit p
Move-permits hit = omega arith
Move-permits miss = omega arith
Move-permits acquire = omega arith
Move-permits queue_times_out = omega arith
Move-permits fetch_fails = omega arith
Move-permits fetch_times_out = omega arith
Move-permits spawn = omega arith
Move-permits parsed = omega arith
Move-permits parse_times_out = omega arith
Move-permits thread_ends = omega arith

pub Step-IsConserved :
    {max_concurrent : ℕ} {s t : System}
    → Step s t
    → IsConserved max_concurrent s
    → IsConserved max_concurrent t
Step-IsConserved arrive h = omega (arith, h)
Step-IsConserved {s} (act before {p} {p'} after e m) h = omega (
  arith,
  h,
  ap (total permit) e,
  Move-permits m,
  total_middle permit before p after,
  total_middle permit before p' after,
)

-- In every state that the requests reach, whichever of them time out and where, the permits that are
-- left and those that requests hold are the ones of the start: no permit is lost, and at most that
-- many requests hold one at once.
pub Reach-IsConserved :
    {max_concurrent : ℕ} {s : System} → Reach max_concurrent s → IsConserved max_concurrent s
unfolding new_limiter
Reach-IsConserved start = omega arith
Reach-IsConserved (later r st) = Step-IsConserved st (Reach-IsConserved r)
