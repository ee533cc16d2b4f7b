-- ===== src/LoopState/Stall/Examples.antt =====
-- Three steps with the same output.
use bonsai_agent.Prelude.{true, false, ◌≡◌, leb, List, [], ◌∷◌}
use bonsai_agent.LoopState.Stall.{record_step}
use bonsai_agent.LoopState.Stall.Progress.{Step, step, cleared, after, idle, record_step-stalls}

abbrev steps : List Step
steps = step true 7 ∷ step true 7 ∷ cleared ∷ step false 7 ∷ []

record_step-stalls_example :
    (record_step (after 3 steps) true 7).1 ≡ leb 3 (idle (step true 7 ∷ steps))
record_step-stalls_example = record_step-stalls 3 steps true 7
