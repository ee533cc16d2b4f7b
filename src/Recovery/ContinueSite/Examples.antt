-- ===== src/Recovery/ContinueSite/Examples.antt =====
-- The ladder on one history.
use bonsai_agent.Prelude.{◌-◌, ◌<◌, ◌≡◌, List, [], ◌∷◌}
use bonsai_agent.Recovery.Failure.{network_error, reasoning_error, decide_recovery}
use bonsai_agent.Recovery.ContinueSite.{decide_escalated_recovery, or_reasoning_error}
use bonsai_agent.Recovery.ContinueSite.Escalation.{
  Outcome, succeeded, failed, after, streak, last_mode, IsReplan, IsStop, escalation_ladder,
}

abbrev history : List Outcome
history = failed network_error ∷ failed reasoning_error ∷ failed network_error ∷ succeeded ∷ []

escalation_ladder_example :
    (3 < streak history → IsStop (decide_escalated_recovery (λ m. "") (after history) 3))
    × (streak history ≡ 3 → IsReplan (decide_escalated_recovery (λ m. "") (after history) 3))
    × (streak history < 3
        → decide_escalated_recovery (λ m. "") (after history) 3
          ≡ decide_recovery
              (λ m. "")
              (or_reasoning_error (last_mode history))
              (streak history - 1)
              3)
escalation_ladder_example = escalation_ladder (λ m. "") history 3
