-- ===== src/Mcp/Stdio/Finishing/Ending.antt =====
-- Where the loop and the tasks of src/gateway/mcp.rs, `run_stdio`, can come to.
use serica.Prelude.{
  ℕ, zero, suc, ◌≤◌, ◌<◌, ◌≡◌, refl, ap, ◌∙◌, ◌⊎◌, inl, inr, true, false, Option, List, [], ◌∷◌,
  arith, Bool-cases, is_empty, Text, trim,
}
use serica.Prelude.Tally.{Found, find}
use serica.Config.{Config}
use serica.Mcp.Server.{JsonRpcResponse, McpEnv}
use serica.Mcp.Stdio.{
  Phase, waiting, handling, replying, printing, breaking, wrote, ended, System, Step, read_blank,
  end_of_input, read_line, act, Reach, start, later,
}
use serica.Mcp.Stdio.Balance.{tally, permit, lock_of, flag, IsBalanced, Reach-IsBalanced}
use serica.Mcp.Stdio.Finishing.{
  work_of, work, IsOver, Steps, stay, onward, Step-work, Enabled, can_move,
}

module _ (env : McpEnv) (config : Config) (to_string : JsonRpcResponse → Option Text) where
  -- A step from here that is no failure of a write.
  record Next (s : System) : Type 0 where
    next : System
    step : Step env config to_string s next
    intact : next.gate.intact ≡ s.gate.intact

  of_task :
      (s : System) (w : Phase → ℕ) (f : Found (λ t. w t.phase) s.tasks)
      → Enabled env config to_string f.item.msg s.gate f.item.phase
      → Next s
  of_task s w f en = record {
    next = _;
    step = act f.before f.after f.split en.move;
    intact = en.intact;
  }

  lock_of-work : (p : Phase) → 0 < lock_of p → (0 < work_of p) × (lock_of p ≡ 1)
  lock_of-work (printing t) h = (omega arith, refl)
  lock_of-work (breaking t) h = (omega arith, refl)
  lock_of-work waiting h = absurd (omega (arith, h))
  lock_of-work handling h = absurd (omega (arith, h))
  lock_of-work (replying t) h = absurd (omega (arith, h))
  lock_of-work (wrote t) h = absurd (omega (arith, h))
  lock_of-work ended h = absurd (omega (arith, h))

  permit-work : (p : Phase) → 0 < permit p → 0 < work_of p
  permit-work (printing t) h = omega arith
  permit-work (breaking t) h = omega arith
  permit-work waiting h = absurd (omega (arith, h))
  permit-work handling h = omega arith
  permit-work (replying t) h = omega arith
  permit-work (wrote t) h = absurd (omega (arith, h))
  permit-work ended h = absurd (omega (arith, h))

  -- A task with the lock, else one with a permit, else any that is not at its end.
  with_permits :
      (s : System)
      → IsBalanced s
      → s.gate.locked ≡ false
      → tally permit s.tasks ≡ 0
      → (tally work_of s.tasks ≡ 0) ⊎ Next s
  with_permits s inv free none_held = elim (find (λ t. work_of t.phase) s.tasks) [
    | inl done ↦ inl done
    | inr f ↦ inr (
        of_task s work_of f (
          can_move env config to_string f.item.msg s.gate f.item.phase f.weight
            (inr (free, omega (arith, inv.permits, none_held)))))
  ]

  unlocked : (s : System) → IsBalanced s → tally lock_of s.tasks ≡ 0 → s.gate.locked ≡ false
  unlocked s inv h = elim (Bool-cases s.gate.locked) [
    | inl e ↦ absurd (omega (arith, h, inv.locks, ap flag e))
    | inr e ↦ e
  ]

  any_task : (s : System) → IsBalanced s → (tally work_of s.tasks ≡ 0) ⊎ Next s
  any_task s inv = elim (find (λ t. lock_of t.phase) s.tasks) [
    | inr f ↦ inr (
        of_task s lock_of f (
          can_move env config to_string f.item.msg s.gate f.item.phase
            (lock_of-work f.item.phase f.weight).0 (inl (lock_of-work f.item.phase f.weight).1)))
    | inl none_locked ↦ elim (find (λ t. permit t.phase) s.tasks) [
      | inr f ↦ inr (
          of_task s permit f (
            can_move env config to_string f.item.msg s.gate f.item.phase
              (permit-work f.item.phase f.weight)
              (inr (unlocked s inv none_locked, omega (arith, f.weight)))))
      | inl none_held ↦ with_permits s inv (unlocked s inv none_locked) none_held
    ]
  ]

  -- The loop returns behind its last line only.
  Reach-all_read :
      {input : List Text} {s : System}
      → Reach env config to_string input s
      → s.returned ≡ true
      → s.input ≡ []
  Reach-all_read start returned = absurd (cc returned)
  Reach-all_read (later r (read_blank e blank reading)) returned = absurd (cc (reading, returned))
  Reach-all_read (later r (read_line e filled reading)) returned = absurd (cc (reading, returned))
  Reach-all_read (later r (end_of_input e reading)) returned = e
  Reach-all_read (later r (act before after e m)) returned = Reach-all_read r returned

  reads :
      (s : System) (line : Text) (rest : List Text)
      → s.input ≡ line ∷ rest
      → s.returned ≡ false
      → Next s
  reads s line rest e reading = elim (Bool-cases (is_empty (trim line))) [
    | inl blank ↦ record { next = _; step = read_blank e blank reading; intact = refl }
    | inr filled ↦ record { next = _; step = read_line e filled reading; intact = refl }
  ]

  next_step :
      (s : System) (input : List Text)
      → s.input ≡ input
      → (s.returned ≡ true → s.input ≡ [])
      → IsBalanced s
      → IsOver s ⊎ Next s
  next_step s input e closed inv = elim (any_task s inv) [
    | inr n ↦ inr n
    | inl done ↦ elim (Bool-cases s.returned) [
      | inl returned ↦
          inl (record { all_read = closed returned; has_returned = returned; all_done = done })
      | inr reading ↦ inr (unread s input e reading)
    ]
  ]
    where
      unread : (s : System) (input : List Text) → s.input ≡ input → s.returned ≡ false → Next s
      unread s [] e reading = record { next = _; step = end_of_input e reading; intact = refl }
      unread s (line ∷ rest) e reading = reads s line rest e reading

  -- From here the server can come to its end, with no failure of a write on the way.
  pub record Ends (s : System) : Type 0 where
    pub last : System
    pub length_of_run : ℕ
    pub run : Steps env config to_string length_of_run s last
    pub over : IsOver last
    pub no_failure : last.gate.intact ≡ s.gate.intact

  at_end : (s : System) → IsOver s → Ends s
  at_end s over = record { last = s; length_of_run = 0; run = stay; over = over; no_failure = refl }

  after : (s : System) (n : Next s) → Ends n.next → Ends s
  after s n ends = record {
    last = ends.last;
    length_of_run = suc ends.length_of_run;
    run = onward n.step ends.run;
    over = ends.over;
    no_failure = ends.no_failure ∙ n.intact;
  }

  ends_within :
      (fuel : ℕ) {input : List Text} {s : System}
      → work s ≤ fuel
      → Reach env config to_string input s
      → Ends s
  ends_within zero {s} h r =
      elim (next_step s s.input refl (Reach-all_read r) (Reach-IsBalanced env config to_string r)) [
        | inl over ↦ at_end s over
        | inr n ↦ absurd (omega (arith, h, Step-work env config to_string n.step))
      ]
  ends_within (suc fuel) {s} h r =
      elim (next_step s s.input refl (Reach-all_read r) (Reach-IsBalanced env config to_string r)) [
        | inl over ↦ at_end s over
        | inr n ↦ after s n (
            ends_within fuel (omega (arith, h, Step-work env config to_string n.step))
              (later r n.step))
      ]

  -- From every state that the loop and its tasks reach, they can come to an end with all lines read,
  -- the loop returned and no task left, and with no failure of a write on the way.
  pub Reach-Ends : {input : List Text} {s : System} → Reach env config to_string input s → Ends s
  Reach-Ends {s} r = ends_within (work s) (omega arith) r
