-- ===== src/Engine/Health.antt =====
-- How src/engines/duckduckgo.rs tells a search that failed from one that found nothing, and what its
-- health probe reports.
use serica.Prelude.{
  ◌≡◌, refl, ◌↔◌, inl, inr, true, false, Option, none, some, List, [], ◌∷◌, arith, ◌==◌, Bool-cases,
}
use serica.Gateway.{SearchResult}
use serica.Ssrf.Url.{UrlLib}
use serica.Engine.{
  EngineLib, Answer, unsent, unread, answered, SearchOutcome, found, failed, parse_empty,
  parse_panicked, is_success_status, is_challenge_page, check_results, outcome_of, probe_of,
}

-- The engine gave a page to read: it neither blocked nor challenged the search, and the search failed
-- neither by its status nor on the way. What is read in the page does not matter: results, none, or a
-- parse that panics.
abbrev pub GotPage : SearchOutcome → Type 0
GotPage (found results) = Unit
GotPage (failed parse_empty) = Unit
GotPage (failed parse_panicked) = Unit
GotPage (failed _) = ⊥

module _ (U : UrlLib) (lib : EngineLib) where
  check_results-GotPage : (r : Option (List SearchResult)) → GotPage (check_results U lib r)
  unfolding check_results
  check_results-GotPage none = tt
  check_results-GotPage (some []) = tt
  check_results-GotPage (some (r ∷ results)) = tt

  -- The probe reports the engine as healthy exactly when a search that gets the same answer is neither
  -- blocked nor challenged, and fails neither by its status nor on the way.
  pub probe_iff_page :
      (answer : Answer) → (probe_of answer ≡ true) ↔ GotPage (outcome_of U lib answer)
  unfolding probe_of outcome_of
  probe_iff_page (unsent e) = (λ h. absurd (cc h), λ h. absurd h)
  probe_iff_page (unread status e) = elim (Bool-cases (status == 403)) [
    | inl forbidden ↦ rw forbidden (λ h. absurd (cc h), λ h. absurd h)
    | inr other ↦ rw other (elim (Bool-cases (is_success_status status)) [
      | inl good ↦ rw good (λ h. absurd (cc h), λ h. absurd h)
      | inr bad ↦ rw bad (λ h. absurd (cc h), λ h. absurd h)
    ])
  ]
  probe_iff_page (answered status body) = elim (Bool-cases (status == 403)) [
    | inl forbidden ↦
        let bad : is_success_status status ≡ false = ground arith in
        rw (forbidden, bad) (λ h. absurd (cc h), λ h. absurd h)
    | inr other ↦ rw other (elim (Bool-cases (is_success_status status)) [
      | inr bad ↦ rw bad (λ h. absurd (cc h), λ h. absurd h)
      | inl good ↦ rw good (elim (Bool-cases (is_challenge_page status body)) [
        | inl puzzle ↦ rw puzzle (λ h. absurd (cc h), λ h. absurd h)
        | inr page ↦ rw page (λ h. check_results-GotPage _, λ h. refl)
      ])
    ])
  ]
