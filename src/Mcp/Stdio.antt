-- ===== src/Mcp/Stdio.antt =====
-- src/gateway/mcp.rs, `run_stdio`: the loop that reads lines and the tasks that it spawns, interleaved
-- in any order. What the cache holds and the counters say while a task handles its message is left
-- open, and so is the order in which the semaphore and the lock are given.
pub mod Balance
pub mod Framing
pub mod Finishing
pub mod Closing
mod Tests
use serica.Prelude.{
  ℕ, suc, ◌≡◌, Bool, true, false, Option, none, some, List, [], ◌∷◌, ◌++◌, take, is_empty, Text,
  trim,
}
use serica.Config.{Config}
use serica.Metrics.{MetricsCollector}
use serica.Extract.Pipeline.{Store, Weather}
use serica.Mcp.Server.{JsonRpcResponse, McpEnv, handle_message}

-- `Semaphore::new(32)`
abbrev pub max_in_flight : ℕ
max_in_flight = 32

-- Where a task stands: before the permit, in `handle_message`, before the lock of stdout, with the lock
-- before the response and before its newline, and at its end with or without a line written.
pub data Phase : Type 0 where
  waiting : Phase
  handling : Phase
  replying : Text → Phase
  printing : Text → Phase
  breaking : Text → Phase
  wrote : Text → Phase
  ended : Phase

pub record Task : Type 0 where
  pub msg : Text
  pub phase : Phase

-- What the tasks share: the permits that are left, the lock of stdout, and stdout. The `log` has the
-- lines that were written whole, the last first; `intact` says that no write has failed.
pub record Gate : Type 0 where
  pub permits : ℕ
  pub locked : Bool
  pub out : Text
  pub log : List Text
  pub intact : Bool

-- The lines that stdin still has, the tasks, and whether the loop has come to the end of stdin, where
-- it returns; a read of stdin that fails is left out.
pub record System : Type 0 where
  pub input : List Text
  pub returned : Bool
  pub tasks : List Task
  pub gate : Gate

-- The lines in the order in which they were written.
unfoldable pub framed : List Text → Text
framed [] = []
framed (t ∷ log) = framed log ++ (t ++ (10 ∷ []))

abbrev pub give_back : Gate → Gate
give_back g = record g { permits = suc g.permits }

abbrev pub unlock : Gate → Gate
unlock g = record g { permits = suc g.permits; locked = false }

-- The server as it starts, with the lines that the client will send before it closes stdin.
abbrev pub init : List Text → System
init input = record {
  input = input;
  returned = false;
  tasks = [];
  gate = record { permits = max_in_flight; locked = false; out = []; log = []; intact = true };
}

-- `serde_json::to_string` of a response is a parameter.
module _ (env : McpEnv) (config : Config) (to_string : JsonRpcResponse → Option Text) where
  -- The message may be answered so.
  pub record Answers (msg : Text) (o : Option JsonRpcResponse) : Type 0 where
    pub weather : Weather
    pub store : Store
    pub metrics : MetricsCollector
    pub by : (handle_message env config weather store metrics msg).response ≡ o

  -- One step of one task.
  pub data Move (msg : Text) (g : Gate) : Phase → Gate → Phase → Type 0 where
    acquire :
        {left : ℕ}
        → g.permits ≡ suc left
        → Move msg g waiting (record g { permits = left }) handling
    stay_silent : Answers msg none → Move msg g handling (give_back g) ended
    serialize_fails :
        {r : JsonRpcResponse}
        → Answers msg (some r)
        → to_string r ≡ none
        → Move msg g handling (give_back g) ended
    answer :
        {r : JsonRpcResponse} {t : Text}
        → Answers msg (some r)
        → to_string r ≡ some t
        → Move msg g handling g (replying t)
    lock :
        {t : Text}
        → g.locked ≡ false
        → Move msg g (replying t) (record g { locked = true }) (printing t)
    write_response :
        {t : Text} → Move msg g (printing t) (record g { out = g.out ++ t }) (breaking t)
    write_newline :
        {t : Text}
        → Move msg g
            (breaking t)
            (record (unlock g) { out = g.out ++ (10 ∷ []); log = t ∷ g.log })
            (wrote t)
    response_fails :
        {t : Text} (n : ℕ)
        → Move msg g
            (printing t)
            (record (unlock g) { out = g.out ++ take n t; intact = false })
            ended
    newline_fails :
        {t : Text} → Move msg g (breaking t) (record (unlock g) { intact = false }) ended

  -- One step of the loop or of one task.
  pub data Step (s : System) : System → Type 0 where
    read_blank :
        {line : Text} {rest : List Text}
        → s.input ≡ line ∷ rest
        → is_empty (trim line) ≡ true
        → s.returned ≡ false
        → Step s (record s { input = rest })
    end_of_input : s.input ≡ [] → s.returned ≡ false → Step s (record s { returned = true })
    read_line :
        {line : Text} {rest : List Text}
        → s.input ≡ line ∷ rest
        → is_empty (trim line) ≡ false
        → s.returned ≡ false
        → Step s (record s {
          input = rest;
          tasks = record { msg = trim line; phase = waiting } ∷ s.tasks;
        })
    act :
        (before : List Task) {msg : Text} {p p' : Phase} (after : List Task) {g : Gate}
        → s.tasks ≡ before ++ (record { msg = msg; phase = p } ∷ after)
        → Move msg s.gate p g p'
        → Step s
            (record s { tasks = before ++ (record { msg = msg; phase = p' } ∷ after); gate = g })

  pub data Reach (input : List Text) : System → Type 0 where
    start : Reach input (init input)
    later : {s t : System} → Reach input s → Step s t → Reach input t
