-- ===== src/Mcp/Stdio/Closing.antt =====
-- What src/gateway/mcp.rs, `run_stdio`, may leave undone where it returns: behind the last line.
use serica.Prelude.{
  true, false, ◌≡◌, refl, sym, ap, ◌∙◌, inl, inr, Option, List, [], ◌∷◌, Bool-cases, is_empty, All,
  Text, trim,
}
use serica.Config.{Config}
use serica.Mcp.Server.{JsonRpcResponse, McpEnv}
use serica.Mcp.Stdio.{
  waiting, System, read_blank, end_of_input, read_line, init, Reach, start, later, max_in_flight,
}
use serica.Mcp.Stdio.Framing.{messages, asked}
use serica.Mcp.Stdio.Framing.Reached.{frames}

-- The loop has come to the end of stdin and has returned, while no task has begun and stdout is empty.
pub record IsUnanswered (s : System) : Type 0 where
  pub has_returned : s.returned ≡ true
  pub all_read : s.input ≡ []
  pub silent : s.gate.out ≡ []
  pub untouched : s.gate.permits ≡ max_in_flight
  pub waits : All (λ t. t.phase ≡ waiting) s.tasks

module _ (env : McpEnv) (config : Config) (to_string : JsonRpcResponse → Option Text) where
  reads_on :
      {input : List Text} (rest : List Text) (s : System)
      → Reach env config to_string input s
      → s.input ≡ rest
      → s.returned ≡ false
      → s.gate.out ≡ []
      → s.gate.permits ≡ max_in_flight
      → All (λ t. t.phase ≡ waiting) s.tasks
      → (t : System) × Reach env config to_string input t × IsUnanswered t
  reads_on [] s r e reading out permits waits = (
    record s { returned = true },
    later r (end_of_input e reading),
    record { has_returned = refl; all_read = e; silent = out; untouched = permits; waits = waits },
  )
  reads_on (line ∷ rest) s r e reading out permits waits =
      elim (Bool-cases (is_empty (trim line))) [
        | inl blank ↦
            reads_on rest _ (later r (read_blank e blank reading)) refl reading out permits waits
        | inr filled ↦
            reads_on rest _ (later r (read_line e filled reading)) refl reading out permits
              (refl, waits)
      ]

  -- Whatever lines a client sends, the loop can have come to the end of stdin and returned with a task
  -- for each message and none of them begun, and nothing written, however many requests there are: it
  -- does not wait for the tasks that it has spawned.
  pub returns-IsUnanswered :
      (input : List Text)
      → (s : System) × Reach env config to_string input s
        × IsUnanswered s
        × (asked s.tasks [] ≡ messages input)
  unfolding messages
  returns-IsUnanswered input =
      let (s, r, left) = reads_on input (init input) start refl refl refl refl tt in
      (
        s,
        r,
        left,
        ap (λ rest. asked s.tasks (messages rest)) (sym left.all_read)
            ∙ (frames env config to_string r).read,
      )
