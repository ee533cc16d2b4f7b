-- ===== src/AgentLoop/Outcome/Spending.antt =====
-- src/agent/agent_loop/outcome.rs: what `handle_outcome` spends on the calls of the advisor and of the
-- critic, by a measure of the world.
use native.Mathlib.Nat.{mul-suc}
use bonsai_agent.Prelude.{
  ℕ, suc, ◌<>◌, ◌+◌, ◌-◌, ◌*◌, ◌≤◌, ◌<◌, Bool, true, false, ◌≡◌, String, Option, none, some, List,
  [], ◌∷◌, arith, is_some, Option-cases, inl, inr, if◌then◌else◌,
}
use bonsai_agent.Conversation.{Message, system_message, user_message}
use bonsai_agent.AgentLoop.Advisor.{
  AdvisorRole, system_prompt, user_prompt, request, AdvisorConfig, AdvisorRequest,
  resolve_advisor_prompt, try_claude_code_advice, try_remote_advice, can_advise, record_call,
}
use bonsai_agent.AgentLoop.Critic as Critic
use bonsai_agent.Recovery.Failure.{
  RecoveryAction, explain_and_stop, replan, retry_with_fix, retry_with_temperature_delta,
  suggest_alternative, abort,
}
use bonsai_agent.AgentLoop.Inject.{
  StallAction, exhausted_and_aborted, no_stall, replan_injected, inject_replan_on_stall,
  inject_verification_step,
}
use bonsai_agent.AgentLoop.State.{
  CriticConfig, StepOutcome, final_answer, continue, aborted, Run, Outside,
}
use bonsai_agent.AgentLoop.Outcome.{
  handle_outcome, middleware_ran, went_on, given_up, returned, completed, answered, settled,
  escalated, verifying, judged, step_succeeded, step_failed, cut_off, compute_output_hash,
}
use bonsai_agent.AgentLoop.Outcome.Advised.{resolve_advisor_prompt-calls}

-- A count of what happens in a world, and what a command of the advisor, a request to it and an
-- answered review add to it.
pub record Meter (W : Type 0) : Type 0 where
  pub count : W → ℕ
  pub per_command : ℕ
  pub per_post : ℕ
  pub per_review : ℕ

-- The calls add no more than that, and a review that fails adds nothing.
pub record Measures {W : Type 0} (m : Meter W) (o : Outside W) : Type 0 where
  pub command :
      (prompt : String) (w : W)
      → m.count (o.advising.claude_cli prompt w).1 ≤ m.count w + m.per_command
  pub post : (r : AdvisorRequest) (w : W) → m.count (o.advising.post r w).1 ≤ m.count w + m.per_post
  pub review :
      (ms : List Message) (temperature : ℕ) (w : W)
      → m.count (o.generate ms temperature w).1
        ≤ m.count w + (if is_some (o.generate ms temperature w).0 then m.per_review else 0)

-- What is left to be spent, beside what the world has counted.
abbrev pub left_over : {W : Type 0} → Meter W → AdvisorConfig → CriticConfig → ℕ
left_over m a c =
    (m.per_command + m.per_post) * (a.max_uses - a.calls_used)
    + m.per_review * (c.max_critic_uses - c.critic_calls_used)

abbrev pub Affords : {W : Type 0} → Meter W → ℕ → Run W → Type 0
Affords m budget x = m.count x.current.world + left_over m x.state.advisor x.state.critic ≤ budget

use_one : (k used limit : ℕ) → used < limit → k * (limit - used) ≡ k + k * (limit - (used + 1))
use_one k used limit h =
    let e : limit - used ≡ suc (limit - (used + 1)) = omega arith in rw (e, mul-suc) (omega arith)

module _ {W : Type 0} (m : Meter W) (o : Outside W) (measures : Measures m o) where
  try_claude_code_advice-cost :
      (role : AdvisorRole) (task : String) (a : AdvisorConfig) (w : W)
      → m.count (try_claude_code_advice o.advising role task a w).2 ≤ m.count w + m.per_command
  unfolding try_claude_code_advice
  try_claude_code_advice-cost role task a w =
      let prompt =
        system_prompt role <> ("\n\n" <> (user_prompt role task <> "\n\n制約: 100語以内、箇条書きで簡潔に回答。")) in
      ground (arith, measures.command prompt w)

  try_remote_advice-cost :
      (role : AdvisorRole) (task : String) (a : AdvisorConfig) (w : W)
      → m.count (try_remote_advice o.advising role task a w).2 ≤ m.count w + m.per_post
  unfolding try_remote_advice request
  try_remote_advice-cost role task a w = elim (Option-cases a.api_endpoint) [
    | inl e ↦ rw e (omega arith)
    | inr (endpoint, e) ↦
        rw e (ground (arith, measures.post (request o.advising role task a endpoint) w))
  ]

  resolve_advisor_prompt-cost :
      (role : AdvisorRole) (task : String) (a : AdvisorConfig) (w : W)
      → m.count (resolve_advisor_prompt o.advising role task a w).2
        ≤ m.count w + (m.per_command + m.per_post)
  unfolding resolve_advisor_prompt
  resolve_advisor_prompt-cost role task a w =
      let (cc, a₁, w₁) = try_claude_code_advice o.advising role task a w in
      ground
        (arith, try_claude_code_advice-cost role task a w, try_remote_advice-cost role task a₁ w₁)

  -- Advice that is counted costs no more than one use.
  advice-cost :
      (role : AdvisorRole) (task : String) (a : AdvisorConfig) (c : CriticConfig) (w : W)
      → can_advise a ≡ true
      → let (r, a', w') = resolve_advisor_prompt o.advising role task a w in
        m.count w' + left_over m (record_call a') c ≤ m.count w + left_over m a c
  unfolding can_advise record_call
  advice-cost role task a c w free =
      let calls = resolve_advisor_prompt-calls o.advising role task a w in
      let below : a.calls_used < a.max_uses = ground (arith, free) in
      rw (calls.0, calls.1)
        (omega (
          arith,
          resolve_advisor_prompt-cost role task a w,
          use_one (m.per_command + m.per_post) a.calls_used a.max_uses below,
        ))

  module _ (budget : ℕ) where
    inject_replan_on_stall-Affords :
        (task : String) (succeeded : Bool) (hash : ℕ) (x : Run W)
        → Affords m budget x
        → Affords m budget (inject_replan_on_stall o task succeeded hash x).1
    unfolding inject_replan_on_stall
    inject_replan_on_stall-Affords task succeeded hash x h =
        let a = x.state.advisor in
        ground (arith, h, advice-cost AdvisorRole.replan task a x.state.critic x.current.world)

    inject_verification_step-Affords :
        (task answer : String) (iteration max_iterations : ℕ) (x : Run W)
        → Affords m budget x
        → Affords m budget (inject_verification_step o task answer iteration max_iterations x).1
    unfolding inject_verification_step
    inject_verification_step-Affords task answer iteration max_iterations x h =
        let a = x.state.advisor in
        ground
          (arith, h, advice-cost AdvisorRole.verification task a x.state.critic x.current.world)

    inject_critic_review-Affords :
        (task answer : String) (x : Run W)
        → Affords m budget x
        → Affords m budget (Critic.inject_critic_review o task answer x).1
    unfolding Critic.inject_critic_review Critic.can_critique Critic.record_call
        Critic.parse_critic_response Critic.review_prompt
    inject_critic_review-Affords task answer x h =
        let c = x.state.critic in
        let messages =
          system_message c.critic_system_prompt
          ∷ user_message (Critic.review_prompt task answer)
          ∷ [] in
        ground (
          arith,
          h,
          measures.review messages c.critic_temperature x.current.world,
          use_one m.per_review c.critic_calls_used c.max_critic_uses,
        )

    module _ (task_context : String)
        (max_iterations final_iteration iteration duration_ms : ℕ) where
      settled-Affords :
          (s : StallAction × Run W)
          → Affords m budget s.1
          → Affords m budget
              (settled o task_context max_iterations final_iteration iteration duration_ms s).1
      unfolding settled given_up returned
      settled-Affords (exhausted_and_aborted reason, x) h = h
      settled-Affords (no_stall, x) h = h
      settled-Affords (replan_injected, x) h = h

      went_on-Affords :
          (tools : List String) (succeeded : Bool) (x : Run W)
          → Affords m budget x
          → Affords m budget
              (went_on o task_context max_iterations final_iteration iteration duration_ms tools
                succeeded x).1
      unfolding went_on middleware_ran
      went_on-Affords tools succeeded x h = settled-Affords _ (
          inject_replan_on_stall-Affords task_context succeeded
            (compute_output_hash o x.current.trace.session) _ h)

      escalated-Affords :
          (action : RecoveryAction) (tools : List String) (x : Run W)
          → Affords m budget x
          → Affords m budget
              (escalated o task_context max_iterations final_iteration iteration duration_ms action
                tools x).1
      unfolding escalated given_up returned
      escalated-Affords (explain_and_stop reason) tools x h = h
      escalated-Affords (replan prompt) tools x h = went_on-Affords tools false _ h
      escalated-Affords (retry_with_fix t) tools x h = went_on-Affords tools false x h
      escalated-Affords retry_with_temperature_delta tools x h = went_on-Affords tools false x h
      escalated-Affords (suggest_alternative t) tools x h = went_on-Affords tools false x h
      escalated-Affords (abort t) tools x h = went_on-Affords tools false x h

      verifying-Affords :
          (answer : String) (v : Bool × Run W)
          → Affords m budget v.1
          → Affords m budget
              (verifying o task_context max_iterations final_iteration iteration duration_ms answer
                v).1
      unfolding verifying completed middleware_ran returned
      verifying-Affords answer (true, x) h = h
      verifying-Affords answer (false, x) h = h

      judged-Affords :
          (answer : String) (said : Option String) (x : Run W)
          → Affords m budget x
          → Affords m budget
              (judged o task_context max_iterations final_iteration iteration duration_ms answer
                said x).1
      unfolding judged
      judged-Affords answer (some raw) x h = h
      judged-Affords answer none x h =
          verifying-Affords answer _
            (inject_verification_step-Affords task_context answer iteration max_iterations x h)

      pub handle_outcome-Affords :
          (outcome : StepOutcome) (x : Run W)
          → Affords m budget x
          → Affords m budget
              (handle_outcome o task_context max_iterations final_iteration iteration duration_ms
                outcome x).1
      unfolding handle_outcome answered cut_off step_succeeded step_failed middleware_ran given_up
          returned
      handle_outcome-Affords (final_answer answer) x h =
          judged-Affords answer _ _ (inject_critic_review-Affords task_context answer _ h)
      handle_outcome-Affords (aborted reason) x h = h
      handle_outcome-Affords (continue tools true) x h = went_on-Affords tools true _ h
      handle_outcome-Affords (continue tools false) x h = escalated-Affords _ tools _ h
