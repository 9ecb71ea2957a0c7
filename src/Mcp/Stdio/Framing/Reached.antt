-- ===== src/Mcp/Stdio/Framing/Reached.antt =====
-- The lines that src/gateway/mcp.rs writes to stdout, in the states that are reached.
use serica.Prelude.{
  ℕ, ◌+◌, ◌≤◌, ◌≡◌, refl, sym, ap, ◌∙◌, true, false, Option, List, [], ◌∷◌, ◌++◌, arith, is_empty,
  Text, trim,
}
use mathlib.Core.List.{Perm}
use mathlib.Core.List.Perm as Perm
use serica.Prelude.Tally.{total-le}
use serica.Config.{Config}
use serica.Mcp.Server.{JsonRpcResponse, McpEnv}
use serica.Mcp.Stdio.{
  Phase, waiting, handling, replying, printing, breaking, wrote, ended, Task, Gate, System, Move,
  framed, Step, read_blank, end_of_input, read_line, act, Reach, start, later,
}
use serica.Mcp.Stdio.Balance.{tally, tally_middle, lock_of, flag-le, IsBalanced, Reach-IsBalanced}
use serica.Mcp.Stdio.Framing.{
  collect, begun, written, messages, asked, collect_middle, asked_middle, All-middle,
  collect-unlocked, Replies, IsFramed, Move-Replies, Move-lines, Holds, AreAlone, Move-stdout,
}

messages_blank :
    (line : Text) (rest : List Text)
    → is_empty (trim line) ≡ true
    → messages (line ∷ rest) ≡ messages rest
unfolding messages
messages_blank line rest h = rw h refl

messages_filled :
    (line : Text) (rest : List Text)
    → is_empty (trim line) ≡ false
    → messages (line ∷ rest) ≡ trim line ∷ messages rest
unfolding messages
messages_filled line rest h = rw h refl

-- One for a response that is written and not yet its newline.
abbrev pub half_written : Phase → ℕ
half_written (breaking t) = 1
half_written _ = 0

half_written-le : (p : Phase) → half_written p ≤ lock_of p
half_written-le (breaking t) = omega arith
half_written-le waiting = omega arith
half_written-le handling = omega arith
half_written-le (replying t) = omega arith
half_written-le (printing t) = omega arith
half_written-le (wrote t) = omega arith
half_written-le ended = omega arith

module _ (env : McpEnv) (config : Config) (to_string : JsonRpcResponse → Option Text) where
  module _ (s : System) (before : List Task) (msg : Text) (p p' : Phase) (after : List Task) where
    abbrev of : Phase → List Task
    of q = before ++ (record { msg = msg; phase = q } ∷ after)

    alone :
        IsBalanced s
        → s.tasks ≡ of p
        → AreAlone env config to_string (collect begun before) (collect begun after) p
    alone inv e h = (
      collect-unlocked before (omega (arith, h, none_else)),
      collect-unlocked after (omega (arith, h, none_else)),
    )
      where
        none_else : lock_of p + (tally lock_of before + tally lock_of after) ≤ 1
        none_else = omega (
          arith,
          tally_middle lock_of before (record { msg = msg; phase = p }) after,
          ap (tally lock_of) e,
          inv.locks,
          flag-le s.gate.locked,
        )

    Move-IsFramed :
        {input : List Text} {g : Gate}
        → s.tasks ≡ of p
        → Move env config to_string msg s.gate p g p'
        → IsBalanced s
        → IsFramed env config to_string input s
        → IsFramed env config to_string input (record s { tasks = of p'; gate = g })
    Move-IsFramed {input} {g} e m balanced inv = record {
      stdout = λ intact. rw (collect_middle begun before (record { msg = msg; phase = p' }) after) (
          Move-stdout env config to_string (collect begun before) (collect begun after) m
            (alone balanced e) held intact);
      lines = rw (collect_middle written before (record { msg = msg; phase = p' }) after) (
          Move-lines env config to_string (collect written before) (collect written after) m
            logged);
      replies =
          All-middle (Replies env config to_string) before _ _ after
            (Move-Replies env config to_string m) (rw (sym e) inv.replies);
      read =
          asked_middle before _ _ after (messages s.input) refl
          ∙ (ap (λ tasks. asked tasks (messages s.input)) (sym e) ∙ inv.read);
    }
      where
        held : Holds env config to_string s.gate (collect begun before) (collect begun after) p
        held intact =
            inv.stdout intact
            ∙ ap (◌++◌ (framed s.gate.log))
                (ap (collect begun) e ∙ collect_middle begun before _ after)

        logged : Perm s.gate.log (collect written before ++ (written p ++ collect written after))
        logged = rw (sym (ap (collect written) e ∙ collect_middle written before _ after)) inv.lines

  Step-IsFramed :
      {input : List Text} {s t : System}
      → Step env config to_string s t
      → IsBalanced s
      → IsFramed env config to_string input s
      → IsFramed env config to_string input t
  Step-IsFramed {s} (read_blank {line} {rest} e blank reading) balanced inv = record {
    stdout = inv.stdout;
    lines = inv.lines;
    replies = inv.replies;
    read = ap (asked s.tasks) (sym (ap messages e ∙ messages_blank line rest blank)) ∙ inv.read;
  }
  Step-IsFramed (end_of_input e reading) balanced inv = record {
    stdout = inv.stdout;
    lines = inv.lines;
    replies = inv.replies;
    read = inv.read;
  }
  Step-IsFramed {s} (read_line {line} {rest} e filled reading) balanced inv = record {
    stdout = inv.stdout;
    lines = inv.lines;
    replies = (tt, inv.replies);
    read = ap (asked s.tasks) (sym (ap messages e ∙ messages_filled line rest filled)) ∙ inv.read;
  }
  Step-IsFramed {s} (act before {msg} {p} {p'} after e m) balanced inv =
      Move-IsFramed s before msg p p' after e m balanced inv

  pub frames :
      {input : List Text} {s : System}
      → Reach env config to_string input s
      → IsFramed env config to_string input s
  unfolding framed
  frames start = record { stdout = λ intact. refl; lines = Perm.refl []; replies = tt; read = refl }
  frames (later r st) = Step-IsFramed st (Reach-IsBalanced env config to_string r) (frames r)

  -- In every state that the loop and its tasks reach, stdout holds, until a write fails, whole lines
  -- and behind them what the tasks have begun, and at most one task has written its response and not
  -- yet its newline. The lines are those that the tasks have written, each a response to its task's
  -- message, and there is one task for each message that was read, in their order.
  pub Reach-IsFramed :
      {input : List Text} {s : System}
      → Reach env config to_string input s
      → IsFramed env config to_string input s × (tally half_written s.tasks ≤ 1)
  Reach-IsFramed {input} {s} r =
      let balanced = Reach-IsBalanced env config to_string r in
      (
        frames r,
        omega (
          arith,
          total-le (λ t. half_written t.phase) (λ t. lock_of t.phase) s.tasks
              (λ t. half_written-le t.phase),
          balanced.locks,
          flag-le s.gate.locked,
        ),
      )
