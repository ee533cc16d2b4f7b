-- ===== src/AgentLoop/Advisor/Source.antt =====
-- src/runtime/model_router.rs, src/agent/agent_loop/advisor_inject.rs: where advice comes from.
use bonsai_agent.Prelude.{false, ◌≡◌, String, none, some, arith, ==_refl}
use bonsai_agent.AgentLoop.Advisor.{
  AdvisorRole, AdvisorConfig, Advising, is_claude_code, try_remote_advice, try_claude_code_advice,
  resolve_advisor_prompt, local_prompt_for,
}

module _ {W : Type 0} (o : Advising W) where
  -- Advice that a remote advisor gave is given again for the same role and task, whenever it is
  -- asked for, without another request: the configuration and the world stay as they are.
  pub try_remote_advice-again :
      (role : AdvisorRole) (task : String) (a a₁ : AdvisorConfig) (w w₁ later : W) (advice : String)
      → try_remote_advice o role task a w ≡ (some (some advice), a₁, w₁)
      → try_remote_advice o role task a₁ later ≡ (some (some advice), a₁, later)
  unfolding try_remote_advice
  try_remote_advice-again role task a a₁ w w₁ later advice given =
      ground (arith, given, ==_refl (o.cache_key role task))

  -- With no endpoint and another backend than Claude Code, the advice is the local prompt of the
  -- role, no time is counted, and nothing is asked of the world.
  pub resolve_advisor_prompt-local :
      (role : AdvisorRole) (task : String) (a : AdvisorConfig) (w : W)
      → a.api_endpoint ≡ none
      → is_claude_code a.backend ≡ false
      → resolve_advisor_prompt o role task a w ≡ (
        record { prompt = local_prompt_for a role task; source = "local"; duration_ms = 0 },
        a,
        w,
      )
  unfolding resolve_advisor_prompt try_claude_code_advice try_remote_advice
  resolve_advisor_prompt-local role task a w absent other = ground (arith, absent, other)
