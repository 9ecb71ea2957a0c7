-- ===== src/Http/Handlers/Readiness.antt =====
-- What a load balancer learns from src/gateway/http.rs of what src/engines/duckduckgo.rs has probed.
use serica.Prelude.{◌≡◌, refl, ◌↔◌, inl, inr, Bool, true, false, List, [], ◌∷◌, arith, Bool-cases}
use serica.Ssrf.Url.{UrlLib}
use serica.Engine.{EngineLib, EngineHealth, outcome_of, record_health}
use serica.Engine.Health.{GotPage, probe_iff_page}
use serica.Engine.Monitor.{Tick, on_tick, monitored}
use serica.Http.Handlers.{ready_status}

module _ (U : UrlLib) (lib : EngineLib) where
  -- A search that got the answer of the last probe would have had a page to read.
  abbrev pub LastGotPage : List Tick → Type 0
  LastGotPage [] = Unit
  LastGotPage (tick ∷ ticks) = GotPage (outcome_of U lib tick.answer)

  healthy_iff : (ticks : List Tick) → ((monitored ticks).healthy ≡ true) ↔ LastGotPage ticks
  unfolding monitored on_tick record_health
  healthy_iff [] = (λ h. tt, λ h. refl)
  healthy_iff (tick ∷ ticks) = probe_iff_page U lib tick.answer

  ready-healthy :
      (health : EngineHealth) → ((ready_status false health).1 ≡ 200) ↔ (health.healthy ≡ true)
  unfolding ready_status
  ready-healthy health = elim (Bool-cases health.healthy) [
    | inl e ↦ rw e (λ h. refl, λ h. refl)
    | inr e ↦ rw e (λ h. absurd (omega (arith, h)), λ h. absurd (cc h))
  ]

  -- The readiness probe answers 200 just while the server is not shutting down and either no probe of
  -- the engine was made yet, or a search with the answer of the last one would be neither blocked nor
  -- challenged, and fail neither by its status nor on the way. That the page can be parsed is not part
  -- of it.
  pub ready_iff :
      (shutting_down : Bool) (ticks : List Tick)
      → ((ready_status shutting_down (monitored ticks)).1 ≡ 200)
        ↔ ((shutting_down ≡ false) × LastGotPage ticks)
  unfolding ready_status
  ready_iff true ticks = (λ h. absurd (omega (arith, h)), λ h. absurd (cc h.0))
  ready_iff false ticks = (
    λ h. (refl, (healthy_iff ticks).0 ((ready-healthy (monitored ticks)).0 h)),
    λ h. (ready-healthy (monitored ticks)).1 ((healthy_iff ticks).1 h.1),
  )
