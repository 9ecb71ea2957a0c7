-- ===== src/Mcp/Stdio/Balance.antt =====
-- The permits and the lock of src/gateway/mcp.rs, `run_stdio`.
use serica.Prelude.{
  ℕ, ◌+◌, ◌≤◌, ◌≡◌, refl, sym, Bool, true, false, Option, List, ◌∷◌, ◌++◌, arith, Text,
}
use serica.Prelude.Tally.{total, total_middle}
use serica.Config.{Config}
use serica.Mcp.Server.{JsonRpcResponse, McpEnv}
use serica.Mcp.Stdio.{
  max_in_flight, Phase, waiting, printing, breaking, wrote, ended, Task, Gate, System, Move,
  acquire, stay_silent, serialize_fails, answer, lock, write_response, write_newline,
  response_fails, newline_fails, Step, read_blank, end_of_input, read_line, act, Reach, start,
  later,
}

-- The sum over the tasks.
abbrev pub tally : (Phase → ℕ) → List Task → ℕ
tally w tasks = total (λ t. w t.phase) tasks

-- One if the task has a permit.
abbrev pub permit : Phase → ℕ
permit waiting = 0
permit (wrote t) = 0
permit ended = 0
permit _ = 1

-- One if the task has the lock of stdout.
abbrev pub lock_of : Phase → ℕ
lock_of (printing t) = 1
lock_of (breaking t) = 1
lock_of _ = 0

abbrev pub flag : Bool → ℕ
flag true = 1
flag false = 0

-- No permit is lost or made, and the lock is held by one task if it is held.
pub record IsBalanced (s : System) : Type 0 where
  pub permits : s.gate.permits + tally permit s.tasks ≡ max_in_flight
  pub locks : tally lock_of s.tasks ≡ flag s.gate.locked

-- The sum with one task in the middle.
pub tally_middle :
    (w : Phase → ℕ) (before : List Task) (t : Task) (after : List Task)
    → tally w (before ++ (t ∷ after)) ≡ w t.phase + (tally w before + tally w after)
tally_middle w before t after = total_middle (λ t. w t.phase) before t after

pub flag-le : (b : Bool) → flag b ≤ 1
flag-le true = omega arith
flag-le false = omega arith

module _ (env : McpEnv) (config : Config) (to_string : JsonRpcResponse → Option Text) where
  Move-permits :
      {msg : Text} {g g' : Gate} {p p' : Phase}
      → Move env config to_string msg g p g' p'
      → g'.permits + permit p' ≡ g.permits + permit p
  Move-permits (acquire e) = omega (arith, e)
  Move-permits (stay_silent a) = omega arith
  Move-permits (serialize_fails a e) = omega arith
  Move-permits (answer a e) = omega arith
  Move-permits (lock e) = omega arith
  Move-permits write_response = omega arith
  Move-permits write_newline = omega arith
  Move-permits (response_fails n) = omega arith
  Move-permits newline_fails = omega arith

  Move-locks :
      {msg : Text} {g g' : Gate} {p p' : Phase}
      → lock_of p ≤ flag g.locked
      → Move env config to_string msg g p g' p'
      → flag g'.locked + lock_of p ≡ flag g.locked + lock_of p'
  Move-locks h (acquire e) = omega arith
  Move-locks h (stay_silent a) = omega arith
  Move-locks h (serialize_fails a e) = omega arith
  Move-locks h (answer a e) = omega arith
  Move-locks h (lock e) = rw e (omega arith)
  Move-locks h write_response = omega arith
  Move-locks {g} h write_newline = omega (arith, h, flag-le g.locked)
  Move-locks {g} h (response_fails n) = omega (arith, h, flag-le g.locked)
  Move-locks {g} h newline_fails = omega (arith, h, flag-le g.locked)

  Move-IsBalanced :
      (s : System) (before : List Task) {msg : Text} {p p' : Phase} (after : List Task) {g : Gate}
      → s.tasks ≡ before ++ (record { msg = msg; phase = p } ∷ after)
      → Move env config to_string msg s.gate p g p'
      → IsBalanced s
      → IsBalanced
          (record s { tasks = before ++ (record { msg = msg; phase = p' } ∷ after); gate = g })
  Move-IsBalanced s before {msg} {p} {p'} after {g} e m inv = record {
    permits = omega (
      arith,
      permits,
      Move-permits m,
      tally_middle permit before _ after,
      tally_middle permit before (record { msg = msg; phase = p' }) after,
    );
    locks = omega (
      arith,
      locks,
      Move-locks (omega (arith, locks, tally_middle lock_of before _ after)) m,
      tally_middle lock_of before _ after,
      tally_middle lock_of before (record { msg = msg; phase = p' }) after,
    );
  }
    where
      permits :
          s.gate.permits + tally permit (before ++ (record { msg = msg; phase = p } ∷ after))
          ≡ max_in_flight
      permits = rw (sym e) inv.permits

      locks :
          tally lock_of (before ++ (record { msg = msg; phase = p } ∷ after)) ≡ flag s.gate.locked
      locks = rw (sym e) inv.locks

  Step-IsBalanced : {s t : System} → Step env config to_string s t → IsBalanced s → IsBalanced t
  Step-IsBalanced (read_blank e blank reading) inv = record {
    permits = inv.permits;
    locks = inv.locks;
  }
  Step-IsBalanced (end_of_input e reading) inv = record { permits = inv.permits; locks = inv.locks }
  Step-IsBalanced (read_line e filled reading) inv = record {
    permits = omega (arith, inv.permits);
    locks = omega (arith, inv.locks);
  }
  Step-IsBalanced {s} (act before after e m) inv = Move-IsBalanced s before after e m inv

  -- In every state that the loop and its tasks reach, the permits that are left and those that tasks
  -- hold are the 32 of the start, and just one task holds the lock of stdout if it is held.
  pub Reach-IsBalanced :
      {input : List Text} {s : System} → Reach env config to_string input s → IsBalanced s
  Reach-IsBalanced start = record { permits = refl; locks = refl }
  Reach-IsBalanced (later r st) = Step-IsBalanced st (Reach-IsBalanced r)
