-- ===== src/Recovery/EditCycle/Examples.antt =====
-- Two files that are edited in turn.
use bonsai_agent.Prelude.{
  ℕ, ◌+◌, true, String, ◌≡◌, refl, Option, none, List, [], ◌∷◌, map, HashMap, is_some, push_capped,
}
use bonsai_agent.Recovery.EditCycle.{
  MultiFileEditCycleDetector, default, record_and_check, reset, is_cycle,
}
use bonsai_agent.Recovery.EditCycle.Firing.{nudge_gap}

abbrev keys : HashMap ℕ → List String
keys = map (λ (e : String × ℕ). e.0)

abbrev check : MultiFileEditCycleDetector → String → MultiFileEditCycleDetector × Option String
check = record_and_check (λ p. p) keys

abbrev edited : MultiFileEditCycleDetector
edited = record default { recent_paths = "a" ∷ "b" ∷ "a" ∷ [] }

fires : is_some (check edited "b").1 ≡ true
unfolding record_and_check is_cycle push_capped
fires = refl

nudge_gap_case :
    let d₁ = (check edited "b").0 in
    let d₂ = (check d₁ "a").0 in
    let d₃ = (check d₂ "b").0 in
    ((check d₁ "a").1 ≡ none)
    × ((check d₂ "b").1 ≡ none)
    × ((check d₃ "a").1 ≡ none)
    × ((check d₃ "a").0.nudge_fire_count ≡ edited.nudge_fire_count + 1)
nudge_gap_case = nudge_gap (λ p. p) keys edited "b" "a" "b" "a" fires

reset_test : (reset edited).recent_paths ≡ []
unfolding reset
reset_test = refl
