-- ===== src/Extract/Limiter.antt =====
-- src/util/extract.rs, `ExtractLimiter` and the timeout of `run_extract`, with any number of requests
-- interleaved in any order. When a timeout strikes is left open.
pub mod Balance
pub mod Detached
pub mod Progress
mod Tests
use serica.Prelude.{ℕ, suc, ◌≡◌, List, [], ◌∷◌, ◌++◌}

-- Where a request stands in `run_extract`: at the cache, inside the timeout before the permit, with the
-- permit before `spawn_blocking`, and with it while the blocking task parses. A timeout, its own
-- or that of the route, drops the future and with it the permit, but not the blocking task, which is
-- `detached`.
pub data Phase : Type 0 where
  looking : Phase
  queued : Phase
  fetching : Phase
  parsing : Phase
  detached : Phase
  over : Phase

-- The permits that are left, and the requests.
pub record System : Type 0 where
  pub permits : ℕ
  pub requests : List Phase

-- One step of one request, with the permits before and after.
pub data Move : ℕ → Phase → ℕ → Phase → Type 0 where
  hit : {n : ℕ} → Move n looking n over
  miss : {n : ℕ} → Move n looking n queued
  acquire : {n : ℕ} → Move (suc n) queued n fetching
  queue_times_out : {n : ℕ} → Move n queued n over
  fetch_fails : {n : ℕ} → Move n fetching (suc n) over
  fetch_times_out : {n : ℕ} → Move n fetching (suc n) over
  spawn : {n : ℕ} → Move n fetching n parsing
  parsed : {n : ℕ} → Move n parsing (suc n) over
  parse_times_out : {n : ℕ} → Move n parsing (suc n) detached
  thread_ends : {n : ℕ} → Move n detached n over

pub data Step (s : System) : System → Type 0 where
  arrive : Step s (record s { requests = looking ∷ s.requests })
  act :
      (before : List Phase) {p p' : Phase} {n : ℕ} (after : List Phase)
      → s.requests ≡ before ++ (p ∷ after)
      → Move s.permits p n p'
      → Step s (record { permits = n; requests = before ++ (p' ∷ after) })

-- `ExtractLimiter::new`, before any request.
unfoldable pub new_limiter : ℕ → System
new_limiter max_concurrent = record { permits = max_concurrent; requests = [] }

pub data Reach (max_concurrent : ℕ) : System → Type 0 where
  start : Reach max_concurrent (new_limiter max_concurrent)
  later : {s t : System} → Reach max_concurrent s → Step s t → Reach max_concurrent t
