-- ===== src/AgentLoop/Core/Uses.antt =====
-- src/agent/agent_loop/core.rs: a round keeps the counters of the advisor and of the critic within their
-- limits, and the form of the chain of middlewares.
use bonsai_agent.Prelude.{
  ℕ, ◌+◌, ◌-◌, ◌≤◌, String, Option, none, some, [], refl, Bool-cases, inl, inr,
}
use bonsai_agent.LoopState.TokenBudget as TokenBudget
use bonsai_agent.AgentLoop.Middleware.{build_default_chain}
use bonsai_agent.AgentLoop.State.{
  StepOutcome, OutcomeAction, return, go_on, StepState, Run, Outside,
}
use bonsai_agent.AgentLoop.Outcome.Advised.{Limits, IsSound, Bounded, handle_outcome-Bounded}
use bonsai_agent.AgentLoop.Core.{
  LoopConfig, Round, finished, next, timed_out, ended, concluded, acted, resumed, stepped, let_in,
  guarded, round,
}

abbrev pub limits : LoopConfig → Limits
limits c = record {
  advice = c.advisor.max_uses;
  reviews = c.critic.max_critic_uses;
  compaction = c.compaction;
}

pub start-Bounded :
    (c : LoopConfig)
    → c.advisor.calls_used ≤ c.advisor.max_uses
    → c.critic.critic_calls_used ≤ c.critic.max_critic_uses
    → IsSound (limits c) c.advisor c.critic (build_default_chain c.compaction)
start-Bounded c advised reviewed = record {
  max_advised = refl;
  advised = advised;
  max_reviewed = refl;
  reviewed = reviewed;
  guarding = ([], TokenBudget.default, refl);
}

abbrev pub RoundBounded : {W : Type 0} → Limits → Round W → Type 0
RoundBounded l (finished r x) = Bounded l x
RoundBounded l (next x) = Bounded l x

module _ {W : Type 0} (o : Outside W)
    (execute_step : ℕ → StepState W → Option StepOutcome × StepState W) (c : LoopConfig)
    (task_context : String) (start : ℕ) where
  acted-Bounded :
      (a : OutcomeAction × Run W)
      → Bounded (limits c) a.1
      → RoundBounded (limits c) (acted o execute_step a)
  unfolding acted concluded ended
  acted-Bounded (return r, x) h = h
  acted-Bounded (go_on, x) h = h

  resumed-Bounded :
      (iteration duration : ℕ) (outcome : Option StepOutcome) (x : Run W)
      → Bounded (limits c) x
      → RoundBounded
          (limits c)
          (resumed o execute_step c task_context start iteration duration outcome x)
  unfolding resumed
  resumed-Bounded iteration duration none x h = h
  resumed-Bounded iteration duration (some outcome) x h = acted-Bounded _ (
      handle_outcome-Bounded o (limits c) task_context c.max_iterations (iteration + 1) iteration
        duration outcome x h)

  let_in-Bounded :
      (iteration : ℕ) (reason : Option String) (x : Run W)
      → Bounded (limits c) x
      → RoundBounded (limits c) (let_in o execute_step c task_context start iteration reason x)
  unfolding let_in stepped concluded ended
  let_in-Bounded iteration none x h = resumed-Bounded iteration _ _ _ h
  let_in-Bounded iteration (some reason) x h = h

  pub round-Bounded :
      (iteration : ℕ) (x : Run W)
      → Bounded (limits c) x
      → RoundBounded (limits c) (round o execute_step c task_context start iteration x)
  unfolding round guarded concluded ended
  round-Bounded iteration x h =
      elim (Bool-cases (timed_out c.task_timeout (o.advising.now x.current.world - start))) [
        | inl late ↦ rw (late, RoundBounded) h
        | inr early ↦ rw (early, RoundBounded) (let_in-Bounded iteration _ _ h)
      ]
