-- ===== src/AgentLoop/Core/Spending.antt =====
-- src/agent/agent_loop/core.rs: how often the loop has the advisor and the critic called.
use bonsai_agent.Prelude.{
  ℕ, zero, suc, ◌+◌, ◌-◌, ◌*◌, ◌≤◌, String, Option, none, some, List, Bool-cases, inl, inr, arith,
}
use bonsai_agent.Conversation.{Session}
use bonsai_agent.ToolExec.Apply.{StoreWrite}
use bonsai_agent.AgentLoop.State.{
  AgentLoopResult, StepOutcome, OutcomeAction, return, go_on, StepState, Run, Outside,
}
use bonsai_agent.AgentLoop.Outcome.Spending.{
  Meter, Measures, left_over, Affords, handle_outcome-Affords,
}
use bonsai_agent.AgentLoop.Core.{
  LoopConfig, Round, finished, next, timed_out, ended, concluded, follow, acted, resumed, stepped,
  let_in, guarded, round, rounds, task_context_of, run_agent_loop_with_session,
}

le_self : (n : ℕ) → n ≤ n
le_self n = omega arith

abbrev RoundAffords : {W : Type 0} → Meter W → ℕ → Round W → Type 0
RoundAffords m budget (finished r x) = Affords m budget x
RoundAffords m budget (next x) = Affords m budget x

module _ {W : Type 0} (m : Meter W) (o : Outside W) (measures : Measures m o)
    (execute_step : ℕ → StepState W → Option StepOutcome × StepState W)
    (free : (i : ℕ) (s : StepState W) → m.count (execute_step i s).1.world ≤ m.count s.world) where
  module _ (budget : ℕ) (c : LoopConfig) (task_context : String) (start : ℕ) where
    acted-Affords :
        (a : OutcomeAction × Run W)
        → Affords m budget a.1
        → RoundAffords m budget (acted o execute_step a)
    unfolding acted concluded ended
    acted-Affords (return r, x) h = h
    acted-Affords (go_on, x) h = h

    resumed-Affords :
        (iteration duration : ℕ) (outcome : Option StepOutcome) (x : Run W)
        → Affords m budget x
        → RoundAffords m budget
            (resumed o execute_step c task_context start iteration duration outcome x)
    unfolding resumed
    resumed-Affords iteration duration none x h = h
    resumed-Affords iteration duration (some outcome) x h = acted-Affords _ (
        handle_outcome-Affords m o measures budget task_context c.max_iterations (iteration + 1)
          iteration duration outcome x h)

    let_in-Affords :
        (iteration : ℕ) (reason : Option String) (x : Run W)
        → Affords m budget x
        → RoundAffords m budget (let_in o execute_step c task_context start iteration reason x)
    unfolding let_in stepped concluded ended
    let_in-Affords iteration none x h =
        resumed-Affords iteration _ _ _ (omega (arith, h, free iteration x.current))
    let_in-Affords iteration (some reason) x h = h

    round-Affords :
        (iteration : ℕ) (x : Run W)
        → Affords m budget x
        → RoundAffords m budget (round o execute_step c task_context start iteration x)
    unfolding round guarded concluded ended
    round-Affords iteration x h =
        elim (Bool-cases (timed_out c.task_timeout (o.advising.now x.current.world - start))) [
          | inl late ↦ rw (late, RoundAffords) h
          | inr early ↦ rw (early, RoundAffords) (let_in-Affords iteration _ _ h)
        ]

    follow-Affords :
        (later : Run W → Option AgentLoopResult × Run W) (r : Round W)
        → RoundAffords m budget r
        → ((x : Run W) → Affords m budget x → Affords m budget (later x).1)
        → Affords m budget (follow later r).1
    follow-Affords later (finished r x) h all = h
    follow-Affords later (next x) h all = all x h

    rounds-Affords :
        (left iteration : ℕ) (x : Run W)
        → Affords m budget x
        → Affords m budget (rounds o execute_step c task_context start left iteration x).1
    unfolding rounds ended
    rounds-Affords zero iteration x h = h
    rounds-Affords (suc left) iteration x h =
        follow-Affords _ _ (round-Affords iteration x h)
          (λ y afforded. rounds-Affords left (suc iteration) y afforded)

  -- The calls themselves are bounded, by any count of the world to which a command of the advisor, a
  -- request to it and a review add at most their costs, a review that fails nothing, and a step and
  -- the memories before the loop nothing: over the whole loop it grows by at most the costs of one
  -- command and one request for each use of the advisor that the configuration leaves, and of one
  -- review for each such use of the critic. A review that fails is not counted by the source.
  pub run_agent_loop_with_session-spends :
      (inject : Session → String → W → (Session × List ℕ) × W)
      → ((s : Session) (task : String) (w : W) → m.count (inject s task w).1 ≤ m.count w)
      → (c : LoopConfig) (session : Session) (store : Option (List StoreWrite)) (world : W)
      → m.count
          (run_agent_loop_with_session o execute_step inject c session store world).1.current.world
        ≤ m.count world
          + (m.per_command + m.per_post) * (c.advisor.max_uses - c.advisor.calls_used)
          + m.per_review * (c.critic.max_critic_uses - c.critic.critic_calls_used)
  unfolding run_agent_loop_with_session
  run_agent_loop_with_session-spends inject light c session store world =
      let w = (inject session (task_context_of session) world).1 in
      let budget = m.count w + left_over m c.advisor c.critic in
      let task = task_context_of session in
      let spent : Affords m budget
          (run_agent_loop_with_session o execute_step inject c session store world).1 =
        rounds-Affords budget c task (o.advising.now w) c.max_iterations 0 _ (le_self budget) in
      omega (arith, light session task world, spent)
