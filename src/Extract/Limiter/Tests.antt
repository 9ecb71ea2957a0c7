-- ===== src/Extract/Limiter/Tests.antt =====
-- src/util/extract.rs, `ExtractLimiter`, with two permits.
use serica.Prelude.{refl, [], ◌∷◌}
use serica.Extract.Limiter.{fetching, miss, acquire, arrive, act, new_limiter, Reach, start, later}
use serica.Extract.Limiter.Balance.{IsConserved, Reach-IsConserved}
use serica.Extract.Limiter.Progress.{Finishes, Reach-Finishes}

one_fetches : Reach 2 (record { permits = 1; requests = fetching ∷ [] })
unfolding new_limiter
one_fetches = later (later (later start arrive) (act [] [] refl miss)) (act [] [] refl acquire)

Reach-IsConserved_example : IsConserved 2 (record { permits = 1; requests = fetching ∷ [] })
Reach-IsConserved_example = Reach-IsConserved one_fetches

Reach-Finishes_example : Finishes 2 (record { permits = 1; requests = fetching ∷ [] })
Reach-Finishes_example = Reach-Finishes one_fetches
