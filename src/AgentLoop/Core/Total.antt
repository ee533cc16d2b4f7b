-- ===== src/AgentLoop/Core/Total.antt =====
-- src/agent/agent_loop/core.rs: the loop returns a result when no step fails.
use bonsai_agent.Prelude.{
  ℕ, zero, suc, ◌-◌, true, ◌≡◌, refl, String, Option, none, some, List, is_some, Bool-cases, inl,
  inr,
}
use bonsai_agent.Conversation.{Session}
use bonsai_agent.ToolExec.Apply.{StoreWrite}
use bonsai_agent.AgentLoop.State.{
  AgentLoopResult, StepOutcome, OutcomeAction, return, go_on, StepState, Run, Outside,
}
use bonsai_agent.AgentLoop.Core.{
  LoopConfig, Round, finished, next, timed_out, ended, concluded, follow, acted, resumed, stepped,
  let_in, guarded, round, rounds, run_agent_loop_with_session,
}

abbrev HasResult : {W : Type 0} → Round W → Type 0
HasResult (finished r x) = is_some r ≡ true
HasResult (next x) = Unit

module _ {W : Type 0} (o : Outside W)
    (execute_step : ℕ → StepState W → Option StepOutcome × StepState W)
    (answers : (iteration : ℕ) (s : StepState W)
      → is_some (execute_step iteration s).0 ≡ true) where
  acted-HasResult : (a : OutcomeAction × Run W) → HasResult (acted o execute_step a)
  unfolding acted concluded ended
  acted-HasResult (return r, x) = refl
  acted-HasResult (go_on, x) = tt

  module _ (c : LoopConfig) (task_context : String) (start : ℕ) where
    resumed-HasResult :
        (iteration duration : ℕ) (outcome : Option StepOutcome) (x : Run W)
        → is_some outcome ≡ true
        → HasResult (resumed o execute_step c task_context start iteration duration outcome x)
    unfolding resumed
    resumed-HasResult iteration duration none x h = h
    resumed-HasResult iteration duration (some outcome) x h = acted-HasResult _

    let_in-HasResult :
        (iteration : ℕ) (reason : Option String) (x : Run W)
        → HasResult (let_in o execute_step c task_context start iteration reason x)
    unfolding let_in stepped concluded ended
    let_in-HasResult iteration none x =
        resumed-HasResult iteration _ _ _ (answers iteration x.current)
    let_in-HasResult iteration (some reason) x = refl

    round-HasResult :
        (iteration : ℕ) (x : Run W)
        → HasResult (round o execute_step c task_context start iteration x)
    unfolding round guarded concluded ended
    round-HasResult iteration x =
        elim (Bool-cases (timed_out c.task_timeout (o.advising.now x.current.world - start))) [
          | inl late ↦ rw (late, HasResult) refl
          | inr early ↦ rw (early, HasResult) (let_in-HasResult iteration _ _)
        ]

    follow-some :
        (later : Run W → Option AgentLoopResult × Run W) (r : Round W)
        → HasResult r
        → ((x : Run W) → is_some (later x).0 ≡ true)
        → is_some (follow later r).0 ≡ true
    follow-some later (finished r x) h all = h
    follow-some later (next x) h all = all x

    rounds-some :
        (left iteration : ℕ) (x : Run W)
        → is_some (rounds o execute_step c task_context start left iteration x).0 ≡ true
    unfolding rounds ended
    rounds-some zero iteration x = refl
    rounds-some (suc left) iteration x =
        follow-some _ _ (round-HasResult iteration x) (λ y. rounds-some left (suc iteration) y)

  pub run_agent_loop_with_session-some :
      (inject : Session → String → W → (Session × List ℕ) × W) (c : LoopConfig) (session : Session)
      (store : Option (List StoreWrite)) (world : W)
      → is_some (run_agent_loop_with_session o execute_step inject c session store world).0 ≡ true
  unfolding run_agent_loop_with_session
  run_agent_loop_with_session-some inject c session store world =
      rounds-some c _ _ c.max_iterations 0 _
