-- ===== src/LoopState/TokenBudget/Examples.antt =====
-- A budget of 1000 and five short outputs.
use bonsai_agent.Prelude.{ℕ, ◌≡◌, List, [], ◌∷◌, arith}
use bonsai_agent.LoopState.TokenBudget.{new, check}
use bonsai_agent.LoopState.TokenBudget.Advice.{record_all, expected, check-history}

abbrev outputs : List ℕ
outputs = 300 ∷ 50 ∷ 40 ∷ 30 ∷ 20 ∷ 10 ∷ []

check-history_example : check (record_all (new 1000) outputs) ≡ expected 1000 outputs
check-history_example = check-history 1000 outputs (omega arith)
