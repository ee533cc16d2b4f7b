-- ===== src/AgentLoop/Core/Examples.antt =====
-- Two loops: one whose step answers at once, one whose step always fails. The world is a clock that no
-- one moves.
use bonsai_agent.Prelude.{ℕ, ◌≤◌, true, false, ◌≡◌, refl, Option, none, some, [], ◌∷◌, arith, ltb}
use bonsai_agent.Compaction.Config.{estimate_tokens}
use bonsai_agent.AgentLoop.Advisor as Advisor
use bonsai_agent.AgentLoop.State.{StepOutcome, final_answer, continue, StepState}
use bonsai_agent.Prelude.{show, push_capped}
use bonsai_agent.LoopState.TokenBudget as TokenBudget
use bonsai_agent.Compaction.Levels.{compact_if_needed}
use bonsai_agent.Compaction.Pruning.{compact_level0}
use bonsai_agent.Compaction.Config.{estimate_message_tokens}
use bonsai_agent.WorkingMemory.{cap_session_messages}
use bonsai_agent.LoopState.Stall as Stall
use bonsai_agent.Recovery.ContinueSite as ContinueSite
use bonsai_agent.Recovery.Failure.{decide_recovery}
use bonsai_agent.Recovery.Trials.{format_for_injection, format_for_replan, from_trial_summary}
use bonsai_agent.AgentLoop.Middleware.{run_before_step, before_step, run_after_step, after_step}
use bonsai_agent.AgentLoop.Inject.{
  inject_planning_step, detect_task_complexity, count_signals, inject_replan_on_stall,
}
use bonsai_agent.AgentLoop.Outcome.{handle_outcome}
use bonsai_agent.AgentLoop.Core.{run_agent_loop_with_session, rounds, round, task_context_of}
use bonsai_agent.AgentLoop.Instances.{still, config, nothing, session}
use bonsai_agent.AgentLoop.Core.Ending.{ClosedWithin, run_agent_loop_with_session-closes}
use bonsai_agent.AgentLoop.Core.Failing.{UsesAtMost, run_agent_loop_with_session-failing}
use bonsai_agent.AgentLoop.Core.Context.{run_agent_loop_with_session-within_context}

abbrev answers : ℕ → StepState ℕ → Option StepOutcome × StepState ℕ
answers iteration s = (some (final_answer "done"), s)

abbrev fails : ℕ → StepState ℕ → Option StepOutcome × StepState ℕ
fails iteration s = (some (continue ("shell" ∷ []) false), s)

run_agent_loop_with_session-closes_example :
    ClosedWithin 10
      (run_agent_loop_with_session still answers nothing config session (some []) 5).0
      (run_agent_loop_with_session still answers nothing config session (some []) 5).1
run_agent_loop_with_session-closes_example =
    run_agent_loop_with_session-closes still answers nothing config session (some []) 5

run_agent_loop_with_session-failing_example :
    UsesAtMost 4 (run_agent_loop_with_session still fails nothing config session (some []) 5).0
run_agent_loop_with_session-failing_example =
    run_agent_loop_with_session-failing still fails nothing config session (some []) 5
      (λ iteration s. ("shell" ∷ [], refl))

-- Steps that differ only on messages that are too long.
abbrev cautious : ℕ → StepState ℕ → Option StepOutcome × StepState ℕ
cautious iteration s = elim (ltb 14000 (estimate_tokens s.trace.session.messages)) [
  | true ↦ (none, s)
  | false ↦ (some (final_answer "done"), s)
]

cautious-answers :
    (iteration : ℕ) (s : StepState ℕ)
    → estimate_tokens s.trace.session.messages ≤ 14000
    → cautious iteration s ≡ answers iteration s
cautious-answers iteration s within = ground (arith, within)

run_agent_loop_with_session-within_context_example :
    run_agent_loop_with_session still cautious nothing config session none 5
    ≡ run_agent_loop_with_session still answers nothing config session none 5
run_agent_loop_with_session-within_context_example =
    run_agent_loop_with_session-within_context still nothing cautious answers config session none 5
      (omega arith) (omega arith) cautious-answers

-- The tools of the fourth step are not among those that are reported.
run-fails :
    (run_agent_loop_with_session still fails nothing config session none 5).0
    ≡ some (record {
      answer = "[中断] 4回続けて失敗しました。安全のため中断します。原因: ToolExecError";
      iterations_used = 4;
      tools_called = "shell" ∷ "shell" ∷ "shell" ∷ [];
    })
unfolding run_agent_loop_with_session still rounds round run_before_step before_step estimate_tokens
    cap_session_messages inject_planning_step detect_task_complexity count_signals task_context_of
    estimate_message_tokens handle_outcome ContinueSite.decide_escalated_recovery
    ContinueSite.record_failure decide_recovery inject_replan_on_stall Stall.record_step
    Advisor.can_advise Advisor.local_prompt_for Advisor.log_advisor_call Advisor.record_call
    Advisor.resolve_advisor_prompt Advisor.try_claude_code_advice Advisor.try_remote_advice
    Advisor.user_prompt Stall.reset show format_for_injection format_for_replan from_trial_summary
    run_after_step after_step TokenBudget.check TokenBudget.usage_reaches TokenBudget.record_tokens
    TokenBudget.is_diminishing push_capped compact_if_needed compact_level0
run-fails = refl
