-- ===== src/Engine/Monitor.antt =====
-- src/engines/duckduckgo.rs, `spawn_health_monitor`: what the ticks have recorded so far.
use serica.Prelude.{ℕ, List, [], ◌∷◌}
use serica.Engine.{Answer, probe_of, EngineHealth, new_health, record_health}

-- What a tick meets: the engine's answer to the probe, and the time behind it.
pub record Tick : Type 0 where
  pub answer : Answer
  pub now : ℕ

-- The body of the loop.
unfoldable pub on_tick : Tick → EngineHealth → EngineHealth
unfolding record_health probe_of
on_tick tick health = record_health (probe_of tick.answer) tick.now health

-- The ticks in turn, the first of the list last.
unfoldable pub monitored : List Tick → EngineHealth
unfolding on_tick
monitored [] = new_health
monitored (tick ∷ ticks) = on_tick tick (monitored ticks)
