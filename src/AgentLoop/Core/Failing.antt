-- ===== src/AgentLoop/Core/Failing.antt =====
-- src/agent/agent_loop/core.rs: the loop on steps that all fail.
use bonsai_agent.Prelude.{
  ℕ, zero, suc, ◌+◌, ◌-◌, ◌≤◌, ◌<◌, false, ◌≡◌, refl, String, Option, none, some, List, arith,
  Bool-cases, inl, inr,
}
use mathlib.Core.Path.{subst}
use bonsai_agent.Conversation.{Session}
use bonsai_agent.ToolExec.Apply.{StoreWrite}
use bonsai_agent.AgentLoop.State.{
  AgentLoopResult, StepOutcome, continue, OutcomeAction, return, go_on, StepState, Run, Outside,
}
use bonsai_agent.AgentLoop.Outcome.{handle_outcome}
use bonsai_agent.AgentLoop.Outcome.Returns.{EscalatedFrom, handle_outcome-EscalatedFrom}
use bonsai_agent.AgentLoop.Core.{
  LoopConfig, Round, finished, next, timed_out, ended, concluded, follow, acted, resumed, stepped,
  let_in, guarded, stopped_early, round, rounds, run_agent_loop_with_session,
}

abbrev pub UsesAtMost : ℕ → Option AgentLoopResult → Type 0
UsesAtMost n none = ⊥
UsesAtMost n (some r) = r.iterations_used ≤ n

module _ {W : Type 0} (o : Outside W)
    (execute_step : ℕ → StepState W → Option StepOutcome × StepState W) (c : LoopConfig)
    (task_context : String) (start : ℕ) where
  failures : Run W → ℕ
  failures x = x.state.continue_site.consecutive_failures

  -- A round after `iteration` failures ends the loop, or is one more of four.
  FailingRound : ℕ → Round W → Type 0
  unfolding failures
  FailingRound iteration (finished r x) = UsesAtMost 4 r
  FailingRound iteration (next x) = (failures x ≡ iteration + 1) × (iteration < 3)

  acted-FailingRound :
      (iteration : ℕ) (a : OutcomeAction × Run W)
      → iteration ≤ 3
      → EscalatedFrom (iteration + 1) iteration a
      → FailingRound iteration (acted o execute_step a)
  unfolding FailingRound failures acted concluded ended
  acted-FailingRound iteration (return r, x) few escalated = omega (arith, escalated)
  acted-FailingRound iteration (go_on, x) few escalated = escalated

  resumed-FailingRound :
      (iteration duration : ℕ) (outcome : Option StepOutcome) (tools : List String) (x : Run W)
      → iteration ≤ 3
      → failures x ≡ iteration
      → outcome ≡ some (continue tools false)
      → FailingRound iteration
          (resumed o execute_step c task_context start iteration duration outcome x)
  unfolding resumed failures
  resumed-FailingRound iteration duration outcome tools x few at_i failed =
      let handled =
        handle_outcome o task_context c.max_iterations (iteration + 1) iteration duration
          (continue tools false) x in
      let escalated =
        handle_outcome-EscalatedFrom o task_context c.max_iterations (iteration + 1) iteration
          duration tools x in
      rw failed (
        acted-FailingRound iteration handled few
          (subst (λ n. EscalatedFrom (iteration + 1) n handled) at_i escalated))

  -- The rounds of a loop in which every step runs tools that fail.
  module _
      (fails : (iteration : ℕ) (s : StepState W)
        → (tools : List String) × ((execute_step iteration s).0
            ≡ some (continue tools false))) where
    let_in-FailingRound :
        (iteration : ℕ) (reason : Option String) (x : Run W)
        → iteration ≤ 3
        → failures x ≡ iteration
        → FailingRound iteration (let_in o execute_step c task_context start iteration reason x)
    unfolding FailingRound failures let_in stepped stopped_early concluded ended
    let_in-FailingRound iteration none x few at_i =
        let (tools, failed) = fails iteration x.current in
        resumed-FailingRound iteration _ _ tools _ few at_i failed
    let_in-FailingRound iteration (some reason) x few at_i = omega arith

    round-FailingRound :
        (iteration : ℕ) (x : Run W)
        → iteration ≤ 3
        → failures x ≡ iteration
        → FailingRound iteration (round o execute_step c task_context start iteration x)
    unfolding FailingRound failures round guarded stopped_early concluded ended
    round-FailingRound iteration x few at_i =
        elim (Bool-cases (timed_out c.task_timeout (o.advising.now x.current.world - start))) [
          | inl late ↦ rw (late, FailingRound) (omega arith)
          | inr early ↦ rw (early, FailingRound) (let_in-FailingRound iteration _ _ few at_i)
        ]

    follow-UsesAtMost :
        (iteration : ℕ) (later : Run W → Option AgentLoopResult × Run W) (r : Round W)
        → FailingRound iteration r
        → ((x : Run W) → iteration + 1 ≤ 3 → failures x ≡ iteration + 1 → UsesAtMost 4 (later x).0)
        → UsesAtMost 4 (follow later r).0
    unfolding FailingRound
    follow-UsesAtMost iteration later (finished r x) ends all = ends
    follow-UsesAtMost iteration later (next x) (one_more, few) all = all x (omega arith) one_more

    rounds-UsesAtMost :
        (left iteration : ℕ) (x : Run W)
        → iteration ≤ 3
        → failures x ≡ iteration
        → UsesAtMost 4 (rounds o execute_step c task_context start left iteration x).0
    unfolding rounds ended stopped_early
    rounds-UsesAtMost zero iteration x few at_i = omega arith
    rounds-UsesAtMost (suc left) iteration x few at_i =
        follow-UsesAtMost iteration _ _ (round-FailingRound iteration x few at_i) (λ y few₁ at_i₁.
          rounds-UsesAtMost left (suc iteration) y (omega arith) (omega (arith, at_i₁)))

module _ {W : Type 0} (o : Outside W)
    (execute_step : ℕ → StepState W → Option StepOutcome × StepState W)
    (inject : Session → String → W → (Session × List ℕ) × W) where
  -- Where every step runs tools of which some fail, the loop returns a result after four iterations
  -- at most, however many the configuration allows.
  pub run_agent_loop_with_session-failing :
      (c : LoopConfig) (session : Session) (store : Option (List StoreWrite)) (world : W)
      → ((iteration : ℕ) (s : StepState W)
          → (tools : List String) × ((execute_step iteration s).0 ≡ some (continue tools false)))
      → UsesAtMost 4 (run_agent_loop_with_session o execute_step inject c session store world).0
  unfolding run_agent_loop_with_session failures
  run_agent_loop_with_session-failing c session store world fails =
      rounds-UsesAtMost o execute_step c _ _ fails c.max_iterations 0 _ (omega arith) refl
