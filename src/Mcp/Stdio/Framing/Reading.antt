-- ===== src/Mcp/Stdio/Framing/Reading.antt =====
-- What a client of src/gateway/mcp.rs, `run_stdio`, reads from its stdout.
use mathlib.Core.List.{Perm, reverse, reverse_aux-eq, reverse_perm}
use mathlib.Core.List.Perm as Perm
use serica.Prelude.{
  ◌≡◌, refl, ap, ◌∙◌, true, false, ◌&&◌, Option, some, List, [], ◌∷◌, ◌++◌, all, All, Text,
}
use serica.Config.{Config}
use serica.Mcp.Server.{JsonRpcResponse, McpEnv}
use serica.Mcp.Stdio.{
  Phase, waiting, handling, replying, printing, breaking, wrote, ended, Task, System, Reach,
}
use serica.Mcp.Stdio.Balance.{flag, Reach-IsBalanced}
use serica.Mcp.Stdio.Framing.{collect, begun, written, collect-unlocked, IsReply, Replies}
use serica.Mcp.Stdio.Framing.Lines.{is_line, cut, cut_end, cut-framed, all-append, all-Perm}
use serica.Mcp.Stdio.Framing.Reached.{frames}

-- `serde_json` prints no newline.
abbrev pub PrintsLines : {R : Type 0} → (R → Option Text) → Type 0
PrintsLines {R} to_string = (r : R) (t : Text) → to_string r ≡ some t → is_line t ≡ true

module _ (env : McpEnv) (config : Config) (to_string : JsonRpcResponse → Option Text) where
  -- A client that cuts the output at its newlines gets whole lines and a rest. The lines are those
  -- that the tasks have written, each a response to its task's message, and while nobody writes there
  -- is no rest.
  pub record IsReadable (s : System) : Type 0 where
    pub lines : List Text
    pub rest : Text
    pub pieces : cut s.gate.out ≡ lines ++ (rest ∷ [])
    pub complete : Perm lines (collect written s.tasks)
    pub replies : All (Replies env config to_string) s.tasks
    pub idle : s.gate.locked ≡ false → rest ≡ []

  module _ (prints : PrintsLines to_string) where
    reply-is_line : {msg t : Text} → IsReply env config to_string msg t → is_line t ≡ true
    reply-is_line {msg} {t} reply = prints reply.response t reply.serialized

    task-is_line :
        (msg : Text) (p : Phase)
        → Replies env config to_string (record { msg = msg; phase = p })
        → (all is_line (written p) ≡ true) × (is_line (begun p) ≡ true)
    task-is_line msg (breaking t) h = (refl, reply-is_line h)
    task-is_line msg (wrote t) h = (ap (λ b. b && true) (reply-is_line h), refl)
    task-is_line msg waiting h = (refl, refl)
    task-is_line msg handling h = (refl, refl)
    task-is_line msg (replying t) h = (refl, refl)
    task-is_line msg (printing t) h = (refl, refl)
    task-is_line msg ended h = (refl, refl)

    collect-is_line :
        (tasks : List Task)
        → All (Replies env config to_string) tasks
        → (all is_line (collect written tasks) ≡ true) × (is_line (collect begun tasks) ≡ true)
    collect-is_line [] h = (refl, refl)
    collect-is_line (t ∷ tasks) h =
        let own = task-is_line t.msg t.phase h.0 in
        let others = collect-is_line tasks h.1 in
        (
          all-append is_line (written t.phase) _ own.0 others.0,
          all-append _ (begun t.phase) _ own.1 others.1,
        )

  -- In every state that the server reaches, as long as no write has failed: a client that cuts stdout
  -- at its newlines gets exactly the lines that the tasks have written, each the response to its
  -- task's own message, and behind them a rest, which is empty while no task writes; if the text of a
  -- response has no newline.
  pub Reach-IsReadable :
      {input : List Text} {s : System}
      → PrintsLines to_string
      → Reach env config to_string input s
      → s.gate.intact ≡ true
      → IsReadable s
  Reach-IsReadable {input} {s} prints r intact =
      let inv = frames env config to_string r in
      let texts = collect-is_line prints s.tasks inv.replies in
      record {
        lines = reverse s.gate.log;
        rest = collect begun s.tasks;
        pieces =
            ap cut (inv.stdout intact)
            ∙ (cut-framed s.gate.log (collect begun s.tasks) (all-Perm is_line inv.lines ∙ texts.0)
                ∙ (reverse_aux-eq s.gate.log _
                    ∙ ap (◌++◌ (reverse s.gate.log)) (cut_end _ texts.1)));
        complete = Perm.trans (reverse_perm s.gate.log) inv.lines;
        replies = inv.replies;
        idle = λ free.
            collect-unlocked s.tasks
              ((Reach-IsBalanced env config to_string r).locks ∙ ap flag free);
      }
