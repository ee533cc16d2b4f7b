-- ===== src/AgentLoop/Outcome.antt =====
-- src/agent/agent_loop/outcome.rs: `handle_outcome`, with the records that support.rs writes to the
-- store. The check of invariants, which only logs, is left out.
pub mod Returns
pub mod Advised
pub mod Spending
use bonsai_agent.Prelude.{
  ℕ, ◌+◌, Bool, true, false, not, ◌&&◌, String, ◌<>◌, Option, none, some, List, [], ◌∷◌, ◌++◌, map,
  is_empty, if◌then◌else◌,
}
use bonsai_agent.Conversation.{Message, Session, system_message}
use bonsai_agent.Recovery.Failure.{
  FailureMode, tool_exec_error, ToolErrorDetail, reasoning_error, RecoveryAction, explain_and_stop,
  replan,
}
use bonsai_agent.Recovery.ContinueSite as ContinueSite
use bonsai_agent.ToolExec.Apply.{
  Trace, StoreWrite, saved_session, experience_completed, experience_aborted, skills_promoted,
  heuristic_outcome, write, say,
}
use bonsai_agent.AgentLoop.Middleware.{StepResult, Scene, Middleware, run_after_step}
use bonsai_agent.AgentLoop.State.{
  AgentLoopResult, StepOutcome, final_answer, continue, aborted, OutcomeAction, return, go_on,
  CriticDisagreementAction, inject_as_system_message, LoopState, StepState, Run, Outside,
}
use bonsai_agent.AgentLoop.Inject.{
  StallAction, no_stall, replan_injected, exhausted_and_aborted, inject_replan_on_stall,
  inject_verification_step,
}
use bonsai_agent.AgentLoop.Critic.{CriticOutcome, disagree, inject_critic_review}

abbrev pub last_content : List Message → Option String
last_content [] = none
last_content (m ∷ []) = some m.content
last_content (m ∷ n ∷ ms) = last_content (n ∷ ms)

unfoldable pub record_success : String → String → Trace → Trace
record_success task_context answer t =
    write
      (saved_session t.session ∷ experience_completed task_context answer ∷ skills_promoted 3 ∷ [])
      t

unfoldable pub record_abort : String → String → Trace → Trace
record_abort task_context reason t =
    write (saved_session t.session ∷ experience_aborted task_context reason ∷ []) t

unfoldable pub record_heuristic_outcomes : List ℕ → Bool → Trace → Trace
record_heuristic_outcomes ids task_succeeded t =
    write (map (λ id. heuristic_outcome id task_succeeded) ids) t

pub is_injecting : CriticDisagreementAction → Bool
is_injecting inject_as_system_message = true
is_injecting _ = false

abbrev pub traced : {W : Type 0} → Trace → Run W → Run W
traced t x = record x { current = record x.current { trace = t } }

abbrev pub tool_failure : FailureMode
tool_failure = tool_exec_error (ToolErrorDetail.unknown "tool_failure")

abbrev pub stopped : String → String
stopped reason = "[中断] " <> reason

module _ {W : Type 0} (o : Outside W) where
  unfoldable pub compute_output_hash : Session → ℕ
  compute_output_hash s = o.hash (last_content s.messages)

  pub middleware_ran : StepResult → Run W → Run W
  middleware_ran r x =
      let t = x.current.trace in
      let (chain, scene) =
        run_after_step o.iteration_order o.scale o.shorten o.hash_hex o.write_file
          x.state.middleware_chain r (record { session = t.session; store = t.store }) in
      record {
        current = record x.current {
          trace = record t { session = scene.session; store = scene.store };
        };
        state = record x.state { middleware_chain = chain };
      }

  -- The result, with the tools taken out of the state.
  pub returned : String → ℕ → Run W → OutcomeAction × Run W
  returned answer final_iteration x = (
    return (record {
      answer = answer;
      iterations_used = final_iteration;
      tools_called = x.state.all_tools;
    }),
    record x { state = record x.state { all_tools = [] } },
  )

  -- What is recorded of an abort, and its result.
  pub given_up : String → String → ℕ → Run W → OutcomeAction × Run W
  unfolding returned
  given_up task_context reason final_iteration x = returned (stopped reason) final_iteration (
      traced
        (record_heuristic_outcomes x.state.injected_heuristic_ids false
          (record_abort task_context reason x.current.trace))
        x)

  module _ (task_context : String) (max_iterations final_iteration iteration duration_ms : ℕ) where
    pub completed : String → Run W → OutcomeAction × Run W
    unfolding middleware_ran returned
    completed answer x =
        let x₁ =
          middleware_ran
            (record {
              outcome_type = "final_answer";
              iteration = iteration;
              duration_ms = duration_ms;
              tools_used = [];
              tools_succeeded = true;
              output_hash = 0;
              consecutive_failures = 0;
            })
            x in
        let x₂ = record x₁ { state = record x₁.state { consecutive_failures = 0 } } in
        returned answer final_iteration (
          traced
            (record_heuristic_outcomes x₂.state.injected_heuristic_ids true
              (record_success task_context answer x₂.current.trace))
            x₂)

    -- What a critic has to say, if it is to be injected.
    pub objection : CriticOutcome → Run W → Option String
    unfolding is_injecting
    objection (disagree raw) x =
        if is_injecting x.state.critic.on_disagreement then some raw else none
    objection _ x = none

    pub verifying : String → Bool × Run W → OutcomeAction × Run W
    unfolding completed middleware_ran returned
    verifying answer (true, x) = (go_on, x)
    verifying answer (false, x) = completed answer x

    pub judged : String → Option String → Run W → OutcomeAction × Run W
    unfolding verifying completed middleware_ran returned
    judged answer (some raw) x =
        (go_on, traced (say (system_message ("[critic] " <> raw)) x.current.trace) x)
    judged answer none x =
        verifying answer (inject_verification_step o task_context answer iteration max_iterations x)

    pub answered : String → Run W → OutcomeAction × Run W
    unfolding judged verifying objection is_injecting completed middleware_ran returned
    answered answer x =
        let site = ContinueSite.record_success x.state.continue_site in
        let x₁ = record x { state = record x.state { continue_site = site } } in
        let (outcome, x₂) = inject_critic_review o task_context answer x₁ in
        judged answer (objection outcome x₂) x₂

    pub cut_off : String → Run W → OutcomeAction × Run W
    unfolding middleware_ran given_up returned
    cut_off reason x =
        let failures = x.state.consecutive_failures + 1 in
        let site = ContinueSite.record_failure x.state.continue_site reasoning_error in
        let x₁ = record x {
          state = record x.state { consecutive_failures = failures; continue_site = site };
        } in
        given_up task_context reason final_iteration (
          middleware_ran
            (record {
              outcome_type = "aborted";
              iteration = iteration;
              duration_ms = duration_ms;
              tools_used = [];
              tools_succeeded = false;
              output_hash = 0;
              consecutive_failures = failures;
            })
            x₁)

    pub settled : StallAction × Run W → OutcomeAction × Run W
    unfolding given_up returned
    settled (exhausted_and_aborted reason, x) = given_up task_context reason final_iteration x
    settled (no_stall, x) = (go_on, x)
    settled (replan_injected, x) = (go_on, x)

    -- From the middlewares on.
    pub went_on : List String → Bool → Run W → OutcomeAction × Run W
    unfolding settled middleware_ran given_up returned
    went_on step_tools tools_succeeded x =
        let output_hash = compute_output_hash x.current.trace.session in
        let x₁ =
          middleware_ran
            (record {
              outcome_type = "continue";
              iteration = iteration;
              duration_ms = duration_ms;
              tools_used = step_tools;
              tools_succeeded = tools_succeeded;
              output_hash = output_hash;
              consecutive_failures = x.state.consecutive_failures;
            })
            x in
        let x₂ = record x₁ {
          state = record x₁.state { all_tools = x₁.state.all_tools ++ step_tools };
        } in
        settled (inject_replan_on_stall o task_context tools_succeeded output_hash x₂)

    pub step_succeeded : List String → Run W → OutcomeAction × Run W
    unfolding went_on settled middleware_ran given_up returned
    step_succeeded step_tools x = went_on step_tools true (record x {
      state = record x.state {
        consecutive_failures = 0;
        continue_site = ContinueSite.record_success x.state.continue_site;
      };
    })

    -- An action that neither stops nor asks for a new plan changes nothing.
    pub escalated : RecoveryAction → List String → Run W → OutcomeAction × Run W
    unfolding went_on settled middleware_ran given_up returned
    escalated (explain_and_stop reason) step_tools x =
        given_up task_context reason final_iteration x
    escalated (replan prompt) step_tools x =
        went_on step_tools false (traced (say (system_message prompt) x.current.trace) x)
    escalated _ step_tools x = went_on step_tools false x

    pub step_failed : List String → Run W → OutcomeAction × Run W
    unfolding escalated went_on settled middleware_ran given_up returned
    step_failed step_tools x =
        let site = ContinueSite.record_failure x.state.continue_site tool_failure in
        let x₁ = record x {
          state = record x.state {
            consecutive_failures = x.state.consecutive_failures + 1;
            continue_site = site;
          };
        } in
        escalated (ContinueSite.decide_escalated_recovery o.debug site 3) step_tools x₁

    unfoldable pub handle_outcome : StepOutcome → Run W → OutcomeAction × Run W
    unfolding answered judged verifying completed objection is_injecting cut_off step_succeeded
        step_failed escalated went_on settled middleware_ran given_up returned
    handle_outcome (final_answer answer) x = answered answer x
    handle_outcome (aborted reason) x = cut_off reason x
    handle_outcome (continue step_tools true) x = step_succeeded step_tools x
    handle_outcome (continue step_tools false) x = step_failed step_tools x
