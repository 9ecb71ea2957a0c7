-- ===== src/Mcp/Stdio/Framing.antt =====
-- What src/gateway/mcp.rs, `run_stdio`, writes to stdout.
pub mod Reached
pub mod Lines
pub mod Reading
use serica.Prelude.{
  ◌≡◌, refl, sym, ap, ◌∙◌, true, Option, some, List, [], ◌∷◌, ◌++◌, append-nil, append_assoc, arith,
  if◌then◌else◌, is_empty, All, Text, trim,
}
use mathlib.Core.List.{Perm, perm_middle}
use mathlib.Core.List.Perm as Perm
use serica.Config.{Config}
use serica.Mcp.Server.{JsonRpcResponse, McpEnv}
use serica.Mcp.Stdio.{
  Phase, waiting, handling, replying, printing, breaking, wrote, ended, Task, Gate, System, Move,
  framed, Answers, acquire, stay_silent, serialize_fails, answer, lock, write_response,
  write_newline, response_fails, newline_fails,
}
use serica.Mcp.Stdio.Balance.{tally, lock_of}

-- What the phases of the tasks give, in the order of the list.
abbrev pub collect : {A : Type 0} → (Phase → List A) → List Task → List A
collect f [] = []
collect f (t ∷ tasks) = f t.phase ++ collect f tasks

-- The response of which the newline is still to be written.
abbrev pub begun : Phase → Text
begun (breaking t) = t
begun _ = []

-- The line that the task has written.
abbrev pub written : Phase → List Text
written (wrote t) = t ∷ []
written _ = []

-- The messages of the lines, trimmed and without the blank ones.
unfoldable pub messages : List Text → List Text
messages [] = []
messages (line ∷ rest) =
    let later_ones = messages rest in
    if is_empty (trim line) then later_ones else trim line ∷ later_ones

-- The messages of the tasks, the last of the list first, and then the others.
abbrev pub asked : List Task → List Text → List Text
asked [] others = others
asked (t ∷ tasks) others = asked tasks (t.msg ∷ others)

pub collect_middle :
    {A : Type 0} (f : Phase → List A) (before : List Task) (t : Task) (after : List Task)
    → collect f (before ++ (t ∷ after)) ≡ collect f before ++ (f t.phase ++ collect f after)
collect_middle f [] t after = refl
collect_middle f (x ∷ before) t after =
    ap (◌++◌ (f x.phase)) (collect_middle f before t after)
    ∙ sym (append_assoc (f x.phase) (collect f before) (f t.phase ++ collect f after))

pub asked_middle :
    (before : List Task) (t t' : Task) (after : List Task) (others : List Text)
    → t.msg ≡ t'.msg
    → asked (before ++ (t ∷ after)) others ≡ asked (before ++ (t' ∷ after)) others
asked_middle [] t t' after others e = ap (λ m. asked after (m ∷ others)) e
asked_middle (x ∷ before) t t' after others e = asked_middle before t t' after (x.msg ∷ others) e

pub All-middle :
    (P : Task → Type 0) (before : List Task) (t t' : Task) (after : List Task)
    → (P t → P t')
    → All P (before ++ (t ∷ after))
    → All P (before ++ (t' ∷ after))
All-middle P [] t t' after f h = (f h.0, h.1)
All-middle P (x ∷ before) t t' after f h = (h.0, All-middle P before t t' after f h.1)

begun-unlocked : (p : Phase) → lock_of p ≡ 0 → begun p ≡ []
begun-unlocked (breaking t) h = absurd (omega (arith, h))
begun-unlocked (printing t) h = absurd (omega (arith, h))
begun-unlocked waiting h = refl
begun-unlocked handling h = refl
begun-unlocked (replying t) h = refl
begun-unlocked (wrote t) h = refl
begun-unlocked ended h = refl

-- No response is begun where no task has the lock.
pub collect-unlocked : (tasks : List Task) → tally lock_of tasks ≡ 0 → collect begun tasks ≡ []
collect-unlocked [] h = refl
collect-unlocked (t ∷ tasks) h =
    rw (begun-unlocked t.phase (omega (arith, h))) (collect-unlocked tasks (omega (arith, h)))

module _ (env : McpEnv) (config : Config) (to_string : JsonRpcResponse → Option Text) where
  -- The text is a response to the message.
  pub record IsReply (msg t : Text) : Type 0 where
    pub response : JsonRpcResponse
    pub answers : Answers env config to_string msg (some response)
    pub serialized : to_string response ≡ some t

  -- What a task writes or has written is a response to its own message.
  abbrev pub Replies : Task → Type 0
  Replies task = elim task.phase [
    | waiting ↦ Unit
    | handling ↦ Unit
    | replying t ↦ IsReply task.msg t
    | printing t ↦ IsReply task.msg t
    | breaking t ↦ IsReply task.msg t
    | wrote t ↦ IsReply task.msg t
    | ended ↦ Unit
  ]

  -- Until a write fails, stdout holds whole lines and at most the response that a task has begun. The
  -- lines are those that the tasks have written, each a response to the task's message, and there is
  -- a task for each message that was read.
  pub record IsFramed (input : List Text) (s : System) : Type 0 where
    pub stdout : s.gate.intact ≡ true → s.gate.out ≡ framed s.gate.log ++ collect begun s.tasks
    pub lines : Perm s.gate.log (collect written s.tasks)
    pub replies : All Replies s.tasks
    pub read : asked s.tasks (messages s.input) ≡ messages input

  pub Move-Replies :
      {msg : Text} {g g' : Gate} {p p' : Phase}
      → Move env config to_string msg g p g' p'
      → Replies (record { msg = msg; phase = p })
      → Replies (record { msg = msg; phase = p' })
  Move-Replies (acquire e) h = tt
  Move-Replies (stay_silent a) h = tt
  Move-Replies (serialize_fails a e) h = tt
  Move-Replies (answer {r} a e) h = record { response = r; answers = a; serialized = e }
  Move-Replies (lock e) h = h
  Move-Replies write_response h = h
  Move-Replies write_newline h = h
  Move-Replies (response_fails n) h = tt
  Move-Replies newline_fails h = tt

  pub Move-lines :
      {msg : Text} {g g' : Gate} {p p' : Phase} (xs ys : List Text)
      → Move env config to_string msg g p g' p'
      → Perm g.log (xs ++ (written p ++ ys))
      → Perm g'.log (xs ++ (written p' ++ ys))
  Move-lines xs ys (acquire e) h = h
  Move-lines xs ys (stay_silent a) h = h
  Move-lines xs ys (serialize_fails a e) h = h
  Move-lines xs ys (answer a e) h = h
  Move-lines xs ys (lock e) h = h
  Move-lines xs ys write_response h = h
  Move-lines xs ys (write_newline {t}) h =
      Perm.trans (Perm.cons t h) (Perm.symm (perm_middle xs ys))
  Move-lines xs ys (response_fails n) h = h
  Move-lines xs ys newline_fails h = h

  respond :
      (out base t xs ys : Text)
      → (xs ≡ []) × (ys ≡ [])
      → out ≡ base ++ (xs ++ ys)
      → out ++ t ≡ base ++ (xs ++ (t ++ ys))
  respond out base t xs ys (ex, ey) h = rw (h, ex, ey, append-nil base, append-nil t) refl

  break_line :
      (out base t xs ys : Text)
      → (xs ≡ []) × (ys ≡ [])
      → out ≡ base ++ (xs ++ (t ++ ys))
      → out ++ (10 ∷ []) ≡ (base ++ (t ++ (10 ∷ []))) ++ (xs ++ ys)
  break_line out base t xs ys (ex, ey) h =
      rw (h, ex, ey, append-nil t, append-nil (base ++ (t ++ (10 ∷ []))))
        (append_assoc base t (10 ∷ []))

  -- What stdout holds where the tasks before and after have begun these texts.
  abbrev pub Holds : Gate → Text → Text → Phase → Type 0
  Holds g xs ys p = g.intact ≡ true → g.out ≡ framed g.log ++ (xs ++ (begun p ++ ys))

  -- None have begun, if the task itself has the lock.
  abbrev pub AreAlone : Text → Text → Phase → Type 0
  AreAlone xs ys p = lock_of p ≡ 1 → (xs ≡ []) × (ys ≡ [])

  pub Move-stdout :
      {msg : Text} {g g' : Gate} {p p' : Phase} (xs ys : Text)
      → Move env config to_string msg g p g' p'
      → AreAlone xs ys p
      → Holds g xs ys p
      → Holds g' xs ys p'
  unfolding framed
  Move-stdout xs ys (acquire e) alone h intact = h intact
  Move-stdout xs ys (stay_silent a) alone h intact = h intact
  Move-stdout xs ys (serialize_fails a e) alone h intact = h intact
  Move-stdout xs ys (answer a e) alone h intact = h intact
  Move-stdout xs ys (lock e) alone h intact = h intact
  Move-stdout {g} xs ys (write_response {t}) alone h intact =
      respond _ _ t xs ys (alone refl) (h intact)
  Move-stdout {g} xs ys (write_newline {t}) alone h intact =
      break_line _ _ t xs ys (alone refl) (h intact)
  Move-stdout xs ys (response_fails n) alone h intact = absurd (cc intact)
  Move-stdout xs ys newline_fails alone h intact = absurd (cc intact)
