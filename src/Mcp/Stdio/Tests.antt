-- ===== src/Mcp/Stdio/Tests.antt =====
-- src/gateway/mcp.rs, `run_stdio`, on one line.
use mathlib.Core.Option
use serica.Prelude.{
  sym, Bool, ◌++◌, none, text_eq, ℕ, ◌+◌, ◌≤◌, ◌≡◌, refl, true, false, Option, some, List, [], ◌∷◌,
  Text, text, trim,
}
use serica.Config.{default_config}
use serica.Mcp.Server.Tests.{server}
use serica.Metrics.{new_metrics}
use serica.Extract.Tests.{calm}
use serica.Json.{number}
use serica.Mcp.{done}
use serica.Mcp.Tools.{tools_list}
use serica.Mcp.Server.{JsonRpcResponse, respond, handle_message}
use serica.Mcp.Stdio.{
  Phase, replying, printing, breaking, wrote, Answers, answer, lock, write_response, write_newline,
  System, waiting, handling, init, Reach, start, later, Step, read_line, act, acquire,
}
use serica.Mcp.Stdio.Framing.{IsFramed, messages, asked}
use serica.Mcp.Stdio.Framing.Reached.{half_written, Reach-IsFramed}
use serica.Mcp.Stdio.Balance.{tally}
use serica.Mcp.Stdio.Framing.Reading.{PrintsLines, IsReadable, Reach-IsReadable}
use serica.Mcp.Stdio.Finishing.{stay, onward, work, Steps-bounded}
use serica.Mcp.Stdio.Finishing.Ending.{Ends, Reach-Ends}
use serica.Mcp.Stdio.Closing.{IsUnanswered, returns-IsUnanswered}

abbrev braces : JsonRpcResponse → Option Text
braces r = some (text "{}")

abbrev lines : List Text
lines = text " x " ∷ []

-- The line is read, and its task has a permit.
abbrev begun : System
begun = record {
  input = [];
  returned = false;
  tasks = record { msg = text "x"; phase = handling } ∷ [];
  gate = record { permits = 31; locked = false; out = []; log = []; intact = true };
}

abbrev read : System
read = record begun {
  tasks = record { msg = text "x"; phase = waiting } ∷ [];
  gate = record { permits = 32; locked = false; out = []; log = []; intact = true };
}

reads : Step server default_config braces (init lines) read
unfolding trim
reads = read_line refl refl refl

begins : Step server default_config braces read begun
begins = act [] [] refl (acquire refl)

begun-Reach : Reach server default_config braces lines begun
begun-Reach = later (later start reads) begins

Reach-IsFramed_example :
    IsFramed server default_config braces lines begun × (tally half_written begun.tasks ≤ 1)
Reach-IsFramed_example = Reach-IsFramed server default_config braces begun-Reach

Steps-bounded_example : 2 + work begun ≤ work (init lines)
Steps-bounded_example =
    Steps-bounded server default_config braces (onward reads (onward begins stay))

Reach-Ends_example : Ends server default_config braces begun
Reach-Ends_example = Reach-Ends server default_config braces begun-Reach

returns-IsUnanswered_example :
    (s : System) × Reach server default_config braces lines s
    × IsUnanswered s
    × (asked s.tasks [] ≡ messages lines)
returns-IsUnanswered_example = returns-IsUnanswered server default_config braces lines

-- The answer to the tool list.
abbrev listing : JsonRpcResponse
listing = respond (number 4) (done tools_list)

braces_answered : Answers server default_config braces (text "x") (some listing)
unfolding handle_message text_eq
braces_answered = record { weather = calm; store = λ key. none; metrics = new_metrics; by = refl }

-- The task in this phase, with this output and these lines behind it.
abbrev at : Phase → ℕ → Bool → Text → List Text → System
at phase permits locked out log = record {
  input = [];
  returned = false;
  tasks = record { msg = text "x"; phase = phase } ∷ [];
  gate = record { permits = permits; locked = locked; out = out; log = log; intact = true };
}

abbrev finished : System
finished = at (wrote (text "{}")) 32 false (text "{}" ++ (10 ∷ [])) (text "{}" ∷ [])

-- The steps of the task that has a permit.
replied : Step server default_config braces begun (at (replying (text "{}")) 31 false [] [])
replied = act [] [] refl (answer braces_answered refl)

locked :
    Step server default_config braces
      (at (replying (text "{}")) 31 false [] [])
      (at (printing (text "{}")) 31 true [] [])
locked = act [] [] refl (lock refl)

printed :
    Step server default_config braces
      (at (printing (text "{}")) 31 true [] [])
      (at (breaking (text "{}")) 31 true (text "{}") [])
printed = act [] [] refl write_response

ended_line :
    Step server default_config braces (at (breaking (text "{}")) 31 true (text "{}") []) finished
ended_line = act [] [] refl write_newline

finished-Reach : Reach server default_config braces lines finished
finished-Reach = later (later (later (later begun-Reach replied) locked) printed) ended_line

prints : PrintsLines braces
prints r t e = let same : text "{}" ≡ t = Option.some-injective _ _ e in rw (sym same) refl

Reach-IsReadable_example : IsReadable server default_config braces finished
Reach-IsReadable_example = Reach-IsReadable server default_config braces prints finished-Reach refl
