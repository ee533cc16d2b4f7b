-- ===== src/AgentLoop/Core/Counted.antt =====
-- A world that counts the calls of the advisor and of the critic.
use bonsai_agent.Prelude.{
  ℕ, zero, suc, ◌+◌, ◌-◌, ◌*◌, ◌≤◌, ◌≡◌, refl, true, Option, none, some, [], ◌∷◌, arith, show,
  push_capped,
}
use bonsai_agent.AgentLoop.Advisor as Advisor
use bonsai_agent.LoopState.Stall as Stall
use bonsai_agent.Conversation.{Session, user_message}
use bonsai_agent.LoopState.TokenBudget as TokenBudget
use bonsai_agent.Compaction.Levels.{compact_if_needed}
use bonsai_agent.Compaction.Pruning.{compact_level0}
use bonsai_agent.Compaction.Config.{estimate_message_tokens, estimate_tokens}
use bonsai_agent.WorkingMemory.{cap_session_messages}
use bonsai_agent.Recovery.ContinueSite as ContinueSite
use bonsai_agent.Recovery.Trials.{format_for_injection, from_trial_summary}
use bonsai_agent.AgentLoop.Advisor.{claude_code}
use bonsai_agent.AgentLoop.Critic as Critic
use bonsai_agent.AgentLoop.Middleware.{run_before_step, before_step, run_after_step, after_step}
use bonsai_agent.AgentLoop.State.{Outside, StepOutcome, final_answer, continue, StepState}
use bonsai_agent.AgentLoop.Outcome.{handle_outcome, compute_output_hash}
use bonsai_agent.AgentLoop.Outcome.Spending.{Meter, Measures}
use bonsai_agent.AgentLoop.Inject.{
  inject_replan_on_stall, inject_verification_step, should_skip_verification, inject_planning_step,
  detect_task_complexity, count_signals,
}
use bonsai_agent.AgentLoop.Core.{
  LoopConfig, run_agent_loop_with_session, rounds, round, task_context_of,
}
use bonsai_agent.AgentLoop.Core.Spending.{run_agent_loop_with_session-spends}
use bonsai_agent.AgentLoop.Instances.{still, config, critic, nothing, session}

abbrev answers : ℕ → StepState ℕ → Option StepOutcome × StepState ℕ
answers iteration s = (some (final_answer "done"), s)

-- Every call is counted.
abbrev counting : Outside ℕ
counting = record still {
  advising = record {
    now = λ w. 0;
    cache_key = λ role task. 0;
    claude_cli = λ prompt w. (some "think again", w + 1);
    post = λ request w. (none, w + 1);
  };
  generate = λ messages temperature w. (some "AGREE", w + 1);
}

-- A critic that never answers.
abbrev silent : Outside ℕ
silent = record counting {
  advising = record {
    now = λ w. 0;
    cache_key = λ role task. 0;
    claude_cli = λ prompt w. (none, w);
    post = λ request w. (none, w);
  };
  generate = λ messages temperature w. (none, w + 1);
}

abbrev reviewing : LoopConfig
reviewing = record config {
  advisor = record Advisor.default { backend = claude_code };
  critic = record critic { enabled = true; max_critic_uses = 1 };
}

abbrev meter : Meter ℕ
meter = record { count = λ w. w; per_command = 1; per_post = 1; per_review = 1 }

measures : Measures meter counting
unfolding still
measures = record {
  command = λ prompt w. omega arith;
  post = λ r w. omega arith;
  review = λ ms temperature w. omega arith;
}

run_agent_loop_with_session-spends_example :
    (run_agent_loop_with_session counting answers nothing reviewing session none 0).1.current.world
    ≤ 0 + (1 + 1) * (3 - 0) + 1 * (1 - 0)
run_agent_loop_with_session-spends_example =
    run_agent_loop_with_session-spends meter counting measures answers (λ i s. omega arith) nothing
      (λ s task w. omega arith) reviewing session none 0

-- A step that first uses a tool, and a task that is verified.
abbrev hesitates : ℕ → StepState ℕ → Option StepOutcome × StepState ℕ
hesitates zero s = (some (continue [] true), s)
hesitates (suc iteration) s = (some (final_answer "done"), s)

abbrev long_task : Session
long_task = record session { messages = user_message "実装して、修正して" ∷ [] }

-- Four reviews, each of which fails, where the configuration allows one.
failed_reviews :
    (run_agent_loop_with_session silent hesitates nothing reviewing long_task none
      0).1.current.world
    ≡ 4
unfolding run_agent_loop_with_session still rounds round run_before_step before_step estimate_tokens
    cap_session_messages inject_planning_step detect_task_complexity count_signals task_context_of
    estimate_message_tokens handle_outcome inject_verification_step should_skip_verification
    Critic.inject_critic_review Critic.can_critique Critic.record_call Critic.parse_critic_response
    ContinueSite.record_success Advisor.can_advise Advisor.local_prompt_for Advisor.log_advisor_call
    Advisor.record_call Advisor.resolve_advisor_prompt Advisor.try_claude_code_advice
    Advisor.try_remote_advice Advisor.user_prompt show run_after_step after_step TokenBudget.check
    TokenBudget.usage_reaches TokenBudget.record_tokens TokenBudget.is_diminishing push_capped
    compact_if_needed compact_level0 inject_replan_on_stall Stall.record_step Stall.reset
    format_for_injection from_trial_summary Critic.review_prompt compute_output_hash
failed_reviews = refl
