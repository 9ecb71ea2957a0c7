-- ===== src/Startup/Shutdown.antt =====
-- src/main.rs: the end of the HTTP server, from the first signal to the close of its listener.
use serica.Prelude.{ℕ, ◌+◌, ◌*◌, ◌≤◌, ◌≡◌, refl, Bool, true, false, arith}
use mathlib.Core.Path.{subst}
use serica.Config.{Config}
use serica.Engine.{EngineHealth}
use serica.Http.Handlers.{ready_status}

-- Where the future of `with_graceful_shutdown` stands: in `shutdown_signal`, in the `sleep`, or done,
-- with the time at which the signal came.
pub data Phase : Type 0 where
  awaiting : Phase
  draining : (signalled_at : ℕ) → Phase
  closed : (signalled_at : ℕ) → Phase

-- The time is in milliseconds.
pub record Server : Type 0 where
  pub now : ℕ
  pub is_shutting_down : Bool
  pub phase : Phase

abbrev pub serving : ℕ → Server
serving now = record { now = now; is_shutting_down = false; phase = awaiting }

pub data Step (config : Config) (s : Server) : Server → Type 0 where
  tick : (ms : ℕ) → Step config s (record s { now = s.now + ms })
  signal :
      s.phase ≡ awaiting
      → Step config s (record s { is_shutting_down = true; phase = draining s.now })
  close :
      {at : ℕ}
      → s.phase ≡ draining at
      → at + config.server.shutdown_drain_timeout_seconds * 1000 ≤ s.now
      → Step config s (record s { phase = closed at })

pub data Reach (config : Config) : Server → Type 0 where
  start : (now : ℕ) → Reach config (serving now)
  later : {s t : Server} → Reach config s → Step config s t → Reach config t

-- The flag says whether the signal has come, and the listener closes only behind the drain.
abbrev pub IsOrderly : Config → ℕ → Bool → Phase → Type 0
IsOrderly config now flag awaiting = flag ≡ false
IsOrderly config now flag (draining at) = flag ≡ true
IsOrderly config now flag (closed at) =
    (flag ≡ true) × (at + config.server.shutdown_drain_timeout_seconds * 1000 ≤ now)

IsOrderly-mono :
    (config : Config) (now ms : ℕ) (flag : Bool) (p : Phase)
    → IsOrderly config now flag p
    → IsOrderly config (now + ms) flag p
IsOrderly-mono config now ms flag awaiting h = h
IsOrderly-mono config now ms flag (draining at) h = h
IsOrderly-mono config now ms flag (closed at) h = (h.0, omega (arith, h.1))

Reach-IsOrderly :
    {config : Config} {s : Server}
    → Reach config s
    → IsOrderly config s.now s.is_shutting_down s.phase
Reach-IsOrderly (start now) = refl
Reach-IsOrderly {config} (later {s} r (tick ms)) =
    IsOrderly-mono config s.now ms s.is_shutting_down s.phase (Reach-IsOrderly r)
Reach-IsOrderly (later r (signal e)) = refl
Reach-IsOrderly {config} (later {s} r (close {at} e drained)) =
    let before : IsOrderly config s.now s.is_shutting_down (draining at) =
      subst (IsOrderly config s.now s.is_shutting_down) e (Reach-IsOrderly r) in
    (before, drained)

-- A signal has come.
abbrev pub IsEnding : Phase → Type 0
IsEnding awaiting = ⊥
IsEnding (draining at) = Unit
IsEnding (closed at) = Unit

ending-flag :
    (config : Config) (now : ℕ) (flag : Bool) (p : Phase)
    → IsOrderly config now flag p
    → IsEnding p
    → flag ≡ true
ending-flag config now flag awaiting h ending = absurd ending
ending-flag config now flag (draining at) h ending = h
ending-flag config now flag (closed at) h ending = h.0

-- From the signal on the readiness probe answers 503, whatever the engine's health, and the listener
-- that it is asked on stays open for the drain of the configuration.
pub drains_before_close :
    {config : Config} {s : Server} (health : EngineHealth)
    → Reach config s
    → IsEnding s.phase
    → ((ready_status s.is_shutting_down health).1 ≡ 503)
      × ((at : ℕ)
          → s.phase ≡ closed at
          → at + config.server.shutdown_drain_timeout_seconds * 1000 ≤ s.now)
unfolding ready_status
drains_before_close {config} {s} health r ending = (
  rw (ending-flag config s.now s.is_shutting_down s.phase (Reach-IsOrderly r) ending) refl,
  λ at e.
      let orderly : IsOrderly config s.now s.is_shutting_down (closed at) =
        subst (IsOrderly config s.now s.is_shutting_down) e (Reach-IsOrderly r) in
      orderly.1,
)
