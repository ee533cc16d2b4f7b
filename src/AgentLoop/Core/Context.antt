-- ===== src/AgentLoop/Core/Context.antt =====
-- src/agent/agent_loop/core.rs: what the loop hands to a step.
use bonsai_agent.Prelude.{
  ℕ, zero, suc, ◌-◌, ◌≤◌, ◌≡◌, refl, ap, ◌∙◌, String, Option, none, some, List, if◌then◌else◌,
}
use bonsai_agent.Conversation.{Session}
use bonsai_agent.Compaction.Config.{estimate_tokens}
use bonsai_agent.WorkingMemory.{cap_session_messages}
use bonsai_agent.ToolExec.Apply.{StoreWrite}
use bonsai_agent.AgentLoop.Middleware.Guard.{chain_of-guards}
use bonsai_agent.AgentLoop.State.{AgentLoopResult, StepOutcome, StepState, Run, Outside}
use bonsai_agent.AgentLoop.Outcome.Advised.{Bounded}
use bonsai_agent.AgentLoop.Core.{
  LoopConfig, Round, finished, next, timed_out, concluded, follow, acted, resumed, stepped, let_in,
  guarded, stopped_early, timeout_text, round, rounds, run_agent_loop_with_session,
}
use bonsai_agent.AgentLoop.Core.Uses.{limits, start-Bounded, RoundBounded, round-Bounded}

module _ {W : Type 0} (o : Outside W) (f g : ℕ → StepState W → Option StepOutcome × StepState W)
    (c : LoopConfig) (task_context : String) (start : ℕ)
    (agree : (iteration : ℕ) (s : StepState W)
      → estimate_tokens s.trace.session.messages ≤ c.compaction.max_context_tokens
      → f iteration s ≡ g iteration s) where
  stepped-same :
      (iteration : ℕ) (x : Run W)
      → estimate_tokens x.current.trace.session.messages ≤ c.compaction.max_context_tokens
      → stepped o f c task_context start iteration x ≡ stepped o g c task_context start iteration x
  unfolding stepped resumed acted
  stepped-same iteration x within = rw (agree iteration x.current within) refl

  -- A session that the chain lets in is within the budget.
  guarded-within :
      (iteration : ℕ) (x : Run W)
      → Bounded (limits c) x
      → (guarded o f c task_context start iteration x).0 ≡ none
      → estimate_tokens
          (guarded o f c task_context start iteration x).1.current.trace.session.messages
        ≤ c.compaction.max_context_tokens
  unfolding guarded
  guarded-within iteration x h free =
      let (tools, t, e) = h.guarding in
      let capped = (cap_session_messages c.capping c.cap x.current.trace.session).0 in
      rw e (chain_of-guards o.iteration_order c.compaction tools t iteration capped (rw e at free))

  let_in-same :
      (iteration : ℕ) (reason : Option String) (x : Run W)
      → (reason ≡ none
          → estimate_tokens x.current.trace.session.messages ≤ c.compaction.max_context_tokens)
      → let_in o f c task_context start iteration reason x
        ≡ let_in o g c task_context start iteration reason x
  unfolding let_in stopped_early
  let_in-same iteration none x within = stepped-same iteration x (within refl)
  let_in-same iteration (some reason) x within = refl

  round-same :
      (iteration : ℕ) (x : Run W)
      → Bounded (limits c) x
      → round o f c task_context start iteration x ≡ round o g c task_context start iteration x
  unfolding round guarded stopped_early
  round-same iteration x h =
      let late = timed_out c.task_timeout (o.advising.now x.current.world - start) in
      let end =
        concluded "timeout" (stopped_early o f (timeout_text c.task_timeout) iteration x) x in
      let (reason, y) = guarded o f c task_context start iteration x in
      ap (λ r. if late then end else r)
        (let_in-same iteration reason y (guarded-within iteration x h))

  follow-same :
      (later later' : Run W → Option AgentLoopResult × Run W) (r : Round W)
      → RoundBounded (limits c) r
      → ((y : Run W) → Bounded (limits c) y → later y ≡ later' y)
      → follow later r ≡ follow later' r
  follow-same later later' (finished r y) h same = refl
  follow-same later later' (next y) h same = same y h

  rounds-same :
      (left iteration : ℕ) (x : Run W)
      → Bounded (limits c) x
      → rounds o f c task_context start left iteration x
        ≡ rounds o g c task_context start left iteration x
  unfolding rounds stopped_early
  rounds-same zero iteration x h = refl
  rounds-same (suc left) iteration x h =
      follow-same _ (λ y. rounds o g c task_context start left (suc iteration) y) _
        (round-Bounded o f c task_context start iteration x h)
        (λ y bounded. rounds-same left (suc iteration) y bounded)
      ∙ ap (follow (λ y. rounds o g c task_context start left (suc iteration) y))
          (round-same iteration x h)

module _ {W : Type 0} (o : Outside W) (inject : Session → String → W → (Session × List ℕ) × W) where
  -- The loop hands to a step only sessions whose messages are within the budget of the context: two
  -- steps that agree on those lead to the same result and the same state, where the configuration
  -- respects the bounds of the advisor and the critic.
  pub run_agent_loop_with_session-within_context :
      (f g : ℕ → StepState W → Option StepOutcome × StepState W) (c : LoopConfig)
      (session : Session) (store : Option (List StoreWrite)) (world : W)
      → c.advisor.calls_used ≤ c.advisor.max_uses
      → c.critic.critic_calls_used ≤ c.critic.max_critic_uses
      → ((iteration : ℕ) (s : StepState W)
          → estimate_tokens s.trace.session.messages ≤ c.compaction.max_context_tokens
          → f iteration s ≡ g iteration s)
      → run_agent_loop_with_session o f inject c session store world
        ≡ run_agent_loop_with_session o g inject c session store world
  unfolding run_agent_loop_with_session
  run_agent_loop_with_session-within_context f g c session store world advised reviewed agree =
      rounds-same o f g c _ _ agree c.max_iterations 0 _ (start-Bounded c advised reviewed)
