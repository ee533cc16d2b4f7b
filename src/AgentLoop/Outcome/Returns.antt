-- ===== src/AgentLoop/Outcome/Returns.antt =====
-- src/agent/agent_loop/outcome.rs: what `handle_outcome` returns and what it keeps.
use bonsai_agent.Prelude.{ℕ, ◌+◌, ◌<◌, true, false, ◌≡◌, String, List, arith}
use bonsai_agent.AgentLoop.State.{
  StepOutcome, final_answer, continue, aborted, OutcomeAction, return, go_on, Run, Outside,
}
use bonsai_agent.Recovery.ContinueSite as ContinueSite
use bonsai_agent.AgentLoop.Inject.{inject_replan_on_stall}
use bonsai_agent.AgentLoop.Outcome.{handle_outcome}

abbrev pub ReturnsAt : ℕ → OutcomeAction → Type 0
ReturnsAt n (return r) = r.iterations_used ≡ n
ReturnsAt n go_on = Unit {0}

-- After a failed step: the run is returned at once, or it goes on with one more failure and three
-- at most.
abbrev pub EscalatedFrom : {W : Type 0} → ℕ → ℕ → OutcomeAction × Run W → Type 0
EscalatedFrom final_iteration n (return r, x) = r.iterations_used ≡ final_iteration
EscalatedFrom final_iteration n (go_on, x) =
    (x.state.continue_site.consecutive_failures ≡ n + 1) × (n < 3)

module _ {W : Type 0} (o : Outside W) (task_context : String)
    (max_iterations final_iteration iteration duration_ms : ℕ) where
  pub handle_outcome-ReturnsAt :
      (outcome : StepOutcome) (x : Run W)
      → ReturnsAt final_iteration
          (handle_outcome o task_context max_iterations final_iteration iteration duration_ms
            outcome x).0
  unfolding handle_outcome
  handle_outcome-ReturnsAt (final_answer answer) x = ground arith
  handle_outcome-ReturnsAt (aborted reason) x = ground arith
  handle_outcome-ReturnsAt (continue tools true) x = ground arith
  handle_outcome-ReturnsAt (continue tools false) x = ground arith

  pub handle_outcome-EscalatedFrom :
      (tools : List String) (x : Run W)
      → EscalatedFrom final_iteration x.state.continue_site.consecutive_failures (
          handle_outcome o task_context max_iterations final_iteration iteration duration_ms
            (continue tools false)
            x)
  unfolding handle_outcome ContinueSite.decide_escalated_recovery ContinueSite.record_failure
      inject_replan_on_stall
  handle_outcome-EscalatedFrom tools x = ground arith
