-- ===== src/Mcp/Stdio/Finishing.antt =====
-- The work that src/gateway/mcp.rs, `run_stdio`, has left.
pub mod Ending
use serica.Prelude.{
  ℕ, suc, ◌+◌, ◌-◌, ◌*◌, ◌≤◌, ◌<◌, ◌≡◌, refl, ap, ◌⊎◌, inl, inr, Bool, true, false, Option, none,
  [], ◌∷◌, ◌++◌, arith, Option-cases, length, Text,
}
use serica.Config.{Config}
use serica.Metrics.{new_metrics}
use serica.Extract.Pipeline.{Weather}
use serica.Mcp.Server.{JsonRpcResponse, McpEnv, handle_message}
use serica.Mcp.Stdio.{
  Phase, waiting, handling, replying, printing, breaking, wrote, ended, Gate, System, Move, Answers,
  give_back, unlock, acquire, stay_silent, serialize_fails, answer, lock, write_response,
  write_newline, response_fails, newline_fails, Step, read_blank, end_of_input, read_line, act,
}
use serica.Mcp.Stdio.Balance.{tally, tally_middle, permit, lock_of}

-- The steps that are left to a task, to the loop behind its last line, and to the server.
abbrev pub work_of : Phase → ℕ
work_of waiting = 5
work_of handling = 4
work_of (replying t) = 3
work_of (printing t) = 2
work_of (breaking t) = 1
work_of (wrote t) = 0
work_of ended = 0

abbrev loop_work : Bool → ℕ
loop_work true = 0
loop_work false = 1

abbrev pub work : System → ℕ
work s = 6 * length s.input + (tally work_of s.tasks + loop_work s.returned)

-- All lines are read, the loop has returned, and all tasks are at their end.
pub record IsOver (s : System) : Type 0 where
  pub all_read : s.input ≡ []
  pub has_returned : s.returned ≡ true
  pub all_done : tally work_of s.tasks ≡ 0

module _ (env : McpEnv) (config : Config) (to_string : JsonRpcResponse → Option Text) where
  -- Steps one after the other, with their number.
  pub data Steps : ℕ → System → System → Type 0 where
    stay : {s : System} → Steps 0 s s
    onward :
        {n : ℕ} {s t u : System} → Step env config to_string s t → Steps n t u → Steps (suc n) s u

  Move-work :
      {msg : Text} {g g' : Gate} {p p' : Phase}
      → Move env config to_string msg g p g' p'
      → work_of p' < work_of p
  Move-work (acquire e) = omega arith
  Move-work (stay_silent a) = omega arith
  Move-work (serialize_fails a e) = omega arith
  Move-work (answer a e) = omega arith
  Move-work (lock e) = omega arith
  Move-work write_response = omega arith
  Move-work write_newline = omega arith
  Move-work (response_fails n) = omega arith
  Move-work newline_fails = omega arith

  pub Step-work : {s t : System} → Step env config to_string s t → work t < work s
  Step-work {s} (read_blank {line} {rest} e blank reading) = omega (arith, ap length e)
  Step-work {s} (end_of_input e reading) = omega (arith, ap loop_work reading)
  Step-work {s} (read_line {line} {rest} e filled reading) = omega (arith, ap length e)
  Step-work {s} (act before {msg} {p} {p'} after e m) = omega (
    arith,
    Move-work m,
    ap (tally work_of) e,
    tally_middle work_of before (record { msg = msg; phase = p }) after,
    tally_middle work_of before (record { msg = msg; phase = p' }) after,
  )

  -- Whatever the tasks do and in whatever order, the server makes at most as many steps as its work:
  -- six for each line that the client sends before it closes stdin, and one for the end of stdin, where
  -- the loop returns. No loop of it goes on for ever.
  pub Steps-bounded : {n : ℕ} {s t : System} → Steps n s t → n + work t ≤ work s
  Steps-bounded stay = omega arith
  Steps-bounded (onward st steps) = omega (arith, Step-work st, Steps-bounded steps)

  abbrev calm : Weather
  calm = record { elapsed_ms = 0; times_out = false; begun = 0; panics = false }

  -- What a message may be answered by.
  abbrev some_answer : Text → Option JsonRpcResponse
  some_answer msg = (handle_message env config calm (λ key. none) new_metrics msg).response

  is_answer :
      (msg : Text) {o : Option JsonRpcResponse}
      → some_answer msg ≡ o
      → Answers env config to_string msg o
  is_answer msg e = record { weather = calm; store = λ key. none; metrics = new_metrics; by = e }

  -- A step that the task can take, and that is no failure of a write.
  pub record Enabled (msg : Text) (g : Gate) (p : Phase) : Type 0 where
    pub gate : Gate
    pub phase : Phase
    pub move : Move env config to_string msg g p gate phase
    pub intact : gate.intact ≡ g.intact

  can_answer : (msg : Text) (g : Gate) → Enabled msg g handling
  can_answer msg g = elim (Option-cases (some_answer msg)) [
    | inl e ↦ record {
      gate = give_back g;
      phase = ended;
      move = stay_silent (is_answer msg e);
      intact = refl;
    }
    | inr (r, e) ↦ elim (Option-cases (to_string r)) [
      | inl bad ↦ record {
        gate = give_back g;
        phase = ended;
        move = serialize_fails (is_answer msg e) bad;
        intact = refl;
      }
      | inr (t, good) ↦ record {
        gate = g;
        phase = replying t;
        move = answer (is_answer msg e) good;
        intact = refl;
      }
    ]
  ]

  -- Of a task that is not at its end, it is enough that it has the lock, or that the lock is free and
  -- it has a permit or one is left.
  pub can_move :
      (msg : Text) (g : Gate) (p : Phase)
      → 0 < work_of p
      → (lock_of p ≡ 1) ⊎ ((g.locked ≡ false) × (0 < g.permits + permit p))
      → Enabled msg g p
  can_move msg g waiting h (inl e) = absurd (omega (arith, e))
  can_move msg g waiting h (inr (free, left)) = record {
    gate = record g { permits = g.permits - 1 };
    phase = handling;
    move = acquire (omega (arith, left));
    intact = refl;
  }
  can_move msg g handling h _ = can_answer msg g
  can_move msg g (replying t) h (inl e) = absurd (omega (arith, e))
  can_move msg g (replying t) h (inr (free, left)) = record {
    gate = record g { locked = true };
    phase = printing t;
    move = lock free;
    intact = refl;
  }
  can_move msg g (printing t) h _ = record {
    gate = record g { out = g.out ++ t };
    phase = breaking t;
    move = write_response;
    intact = refl;
  }
  can_move msg g (breaking t) h _ = record {
    gate = record (unlock g) { out = g.out ++ (10 ∷ []); log = t ∷ g.log };
    phase = wrote t;
    move = write_newline;
    intact = refl;
  }
  can_move msg g (wrote t) h _ = absurd (omega (arith, h))
  can_move msg g ended h _ = absurd (omega (arith, h))
