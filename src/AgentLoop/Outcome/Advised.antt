-- ===== src/AgentLoop/Outcome/Advised.antt =====
-- src/agent/agent_loop/outcome.rs: `handle_outcome` keeps the counters of the advisor and of the
-- critic within their limits, and the form of the chain of middlewares.
use bonsai_agent.Prelude.{
  ℕ, ◌≤◌, Bool, true, false, ◌≡◌, String, Option, none, some, List, [], ◌∷◌, ◌++◌, arith,
}
use bonsai_agent.Compaction.Config.{CompactionConfig}
use bonsai_agent.LoopState.TokenBudget.{TokenBudgetTracker}
use bonsai_agent.AgentLoop.Middleware.{Middleware, StepResult, Scene}
use bonsai_agent.AgentLoop.Middleware.Budget.{chain_of, spent, run_after_step-chain_of}
use bonsai_agent.LoopState.TokenBudget.Advice.{record_all}
use bonsai_agent.AgentLoop.Advisor.{
  AdvisorRole, AdvisorConfig, Advising, resolve_advisor_prompt, try_claude_code_advice,
  try_remote_advice, can_advise, record_call,
}
use bonsai_agent.AgentLoop.Critic as Critic
use bonsai_agent.Recovery.Failure.{
  RecoveryAction, explain_and_stop, replan, retry_with_fix, retry_with_temperature_delta,
  suggest_alternative, abort,
}
use bonsai_agent.AgentLoop.Inject.{
  StallAction, exhausted_and_aborted, no_stall, replan_injected, inject_replan_on_stall,
  inject_verification_step,
}
use bonsai_agent.AgentLoop.State.{
  CriticConfig, StepOutcome, final_answer, continue, aborted, Run, Outside,
}
use bonsai_agent.AgentLoop.Outcome.{
  handle_outcome, middleware_ran, went_on, given_up, returned, completed, answered, settled,
  escalated, verifying, judged, step_succeeded, step_failed, cut_off, compute_output_hash,
}

-- The default chain, with some tools and some token budget.
abbrev pub Guarding : CompactionConfig → List Middleware → Type 0
Guarding config chain =
    (tools : List String) × (t : TokenBudgetTracker) × (chain ≡ chain_of config tools t)

pub record Limits : Type 0 where
  pub advice : ℕ
  pub reviews : ℕ
  pub compaction : CompactionConfig

-- The counters of the advisor and of the critic are within the limits, and the chain is the default
-- one.
pub record IsSound (l : Limits) (a : AdvisorConfig) (c : CriticConfig) (chain : List Middleware)
    : Type 0 where
  pub max_advised : a.max_uses ≡ l.advice
  pub advised : a.calls_used ≤ l.advice
  pub max_reviewed : c.max_critic_uses ≡ l.reviews
  pub reviewed : c.critic_calls_used ≤ l.reviews
  pub guarding : Guarding l.compaction chain

abbrev pub Bounded : {W : Type 0} → Limits → Run W → Type 0
Bounded l x = IsSound l x.state.advisor x.state.critic x.state.middleware_chain

pub resolve_advisor_prompt-calls :
    {W : Type 0} (o : Advising W) (role : AdvisorRole) (task : String) (a : AdvisorConfig) (w : W)
    → ((resolve_advisor_prompt o role task a w).1.calls_used ≡ a.calls_used)
      × ((resolve_advisor_prompt o role task a w).1.max_uses ≡ a.max_uses)
unfolding resolve_advisor_prompt try_claude_code_advice try_remote_advice
resolve_advisor_prompt-calls o role task a w = ground arith

module _ {W : Type 0} (o : Outside W) (l : Limits) where
  inject_replan_on_stall-Bounded :
      (task : String) (succeeded : Bool) (hash : ℕ) (x : Run W)
      → Bounded l x
      → Bounded l (inject_replan_on_stall o task succeeded hash x).1
  unfolding inject_replan_on_stall can_advise record_call
  inject_replan_on_stall-Bounded task succeeded hash x h = record {
    max_advised = ground (
      arith,
      h.max_advised,
      resolve_advisor_prompt-calls o.advising AdvisorRole.replan task x.state.advisor
          x.current.world,
    );
    advised = ground (
      arith,
      h.max_advised,
      h.advised,
      resolve_advisor_prompt-calls o.advising AdvisorRole.replan task x.state.advisor
          x.current.world,
    );
    max_reviewed = ground (arith, h.max_reviewed);
    reviewed = ground (arith, h.max_reviewed, h.reviewed);
    guarding =
        (let e : (inject_replan_on_stall o task succeeded hash x).1.state.middleware_chain
              ≡ x.state.middleware_chain =
            ground arith in
          rw e h.guarding);
  }

  inject_verification_step-Bounded :
      (task answer : String) (iteration max_iterations : ℕ) (x : Run W)
      → Bounded l x
      → Bounded l (inject_verification_step o task answer iteration max_iterations x).1
  unfolding inject_verification_step can_advise record_call
  inject_verification_step-Bounded task answer iteration max_iterations x h = record {
    max_advised = ground (
      arith,
      h.max_advised,
      resolve_advisor_prompt-calls o.advising AdvisorRole.verification task x.state.advisor
          x.current.world,
    );
    advised = ground (
      arith,
      h.max_advised,
      h.advised,
      resolve_advisor_prompt-calls o.advising AdvisorRole.verification task x.state.advisor
          x.current.world,
    );
    max_reviewed = ground (arith, h.max_reviewed);
    reviewed = ground (arith, h.max_reviewed, h.reviewed);
    guarding =
        (let e : (inject_verification_step o task answer iteration max_iterations
                x).1.state.middleware_chain
              ≡ x.state.middleware_chain =
            ground arith in
          rw e h.guarding);
  }

  inject_critic_review-Bounded :
      (task answer : String) (x : Run W)
      → Bounded l x
      → Bounded l (Critic.inject_critic_review o task answer x).1
  unfolding Critic.inject_critic_review Critic.can_critique Critic.record_call
  inject_critic_review-Bounded task answer x h = record {
    max_advised = ground (arith, h.max_advised);
    advised = ground (arith, h.advised);
    max_reviewed = ground (arith, h.max_reviewed);
    reviewed = ground (arith, h.max_reviewed, h.reviewed);
    guarding =
        (let e : (Critic.inject_critic_review o task answer x).1.state.middleware_chain
              ≡ x.state.middleware_chain =
            ground arith in
          rw e h.guarding);
  }

  middleware_ran-Bounded :
      (r : StepResult) (x : Run W) → Bounded l x → Bounded l (middleware_ran o r x)
  unfolding middleware_ran
  middleware_ran-Bounded r x h =
      let (tools, t, e) = h.guarding in
      let scene : Scene = record {
        session = x.current.trace.session;
        store = x.current.trace.store;
      } in
      record {
        max_advised = h.max_advised;
        advised = h.advised;
        max_reviewed = h.max_reviewed;
        reviewed = h.reviewed;
        guarding = (
          tools ++ r.tools_used,
          record_all t (spent (r ∷ [])),
          rw e (
              run_after_step-chain_of o.iteration_order o.scale o.shorten o.hash_hex o.write_file
                l.compaction tools t r scene),
        );
      }

  module _ (task_context : String) (max_iterations final_iteration iteration duration_ms : ℕ) where
    settled-Bounded :
        (s : StallAction × Run W)
        → Bounded l s.1
        → Bounded l
            (settled o task_context max_iterations final_iteration iteration duration_ms s).1
    unfolding settled given_up returned
    settled-Bounded (exhausted_and_aborted reason, x) h = h
    settled-Bounded (no_stall, x) h = h
    settled-Bounded (replan_injected, x) h = h

    went_on-Bounded :
        (tools : List String) (succeeded : Bool) (x : Run W)
        → Bounded l x
        → Bounded l
            (went_on o task_context max_iterations final_iteration iteration duration_ms tools
              succeeded x).1
    unfolding went_on
    went_on-Bounded tools succeeded x h = settled-Bounded _ (
        inject_replan_on_stall-Bounded task_context succeeded
          (compute_output_hash o x.current.trace.session) _ (middleware_ran-Bounded _ x h))

    escalated-Bounded :
        (action : RecoveryAction) (tools : List String) (x : Run W)
        → Bounded l x
        → Bounded l
            (escalated o task_context max_iterations final_iteration iteration duration_ms action
              tools x).1
    unfolding escalated given_up returned
    escalated-Bounded (explain_and_stop reason) tools x h = h
    escalated-Bounded (replan prompt) tools x h = went_on-Bounded tools false _ h
    escalated-Bounded (retry_with_fix m) tools x h = went_on-Bounded tools false x h
    escalated-Bounded retry_with_temperature_delta tools x h = went_on-Bounded tools false x h
    escalated-Bounded (suggest_alternative m) tools x h = went_on-Bounded tools false x h
    escalated-Bounded (abort m) tools x h = went_on-Bounded tools false x h

    verifying-Bounded :
        (answer : String) (v : Bool × Run W)
        → Bounded l v.1
        → Bounded l
            (verifying o task_context max_iterations final_iteration iteration duration_ms answer
              v).1
    unfolding verifying completed returned
    verifying-Bounded answer (true, x) h = h
    verifying-Bounded answer (false, x) h = middleware_ran-Bounded _ x h

    judged-Bounded :
        (answer : String) (o' : Option String) (x : Run W)
        → Bounded l x
        → Bounded l
            (judged o task_context max_iterations final_iteration iteration duration_ms answer o'
              x).1
    unfolding judged
    judged-Bounded answer (some raw) x h = h
    judged-Bounded answer none x h =
        verifying-Bounded answer _
          (inject_verification_step-Bounded task_context answer iteration max_iterations x h)

    pub handle_outcome-Bounded :
        (outcome : StepOutcome) (x : Run W)
        → Bounded l x
        → Bounded l
            (handle_outcome o task_context max_iterations final_iteration iteration duration_ms
              outcome x).1
    unfolding handle_outcome answered cut_off step_succeeded step_failed given_up returned
    handle_outcome-Bounded (final_answer answer) x h =
        judged-Bounded answer _ _ (inject_critic_review-Bounded task_context answer _ h)
    handle_outcome-Bounded (aborted reason) x h = middleware_ran-Bounded _ x h
    handle_outcome-Bounded (continue tools true) x h = went_on-Bounded tools true _ h
    handle_outcome-Bounded (continue tools false) x h = escalated-Bounded _ tools _ h
