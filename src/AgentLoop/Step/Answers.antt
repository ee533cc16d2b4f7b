-- ===== src/AgentLoop/Step/Answers.antt =====
-- src/agent/agent_loop/step.rs, core.rs: the loop over `execute_step`.
use bonsai_agent.Prelude.{ℕ, true, ◌≡◌, String, Option, none, some, List, arith, is_some}
use bonsai_agent.Conversation.{Session}
use bonsai_agent.ToolExec.Apply.{StoreWrite}
use bonsai_agent.Parsing.Fuel.{parse_assistant_output-ends}
use bonsai_agent.AgentLoop.State.{StepState, Outside}
use bonsai_agent.AgentLoop.Core.{LoopConfig, run_agent_loop_with_session}
use bonsai_agent.AgentLoop.Core.Total.{run_agent_loop_with_session-some}
use bonsai_agent.AgentLoop.Step.{StepContext, heard, execute_step}

module _ {W V : Type 0} (c : StepContext W V) where
  heard-some :
      (attempt : ℕ) (text : Option String) (s : StepState W)
      → is_some text ≡ true
      → is_some (heard c attempt text s).0 ≡ true
  unfolding heard
  heard-some attempt none s h = h
  heard-some attempt (some text) s h =
      ground (arith, parse_assistant_output-ends c.read_call c.normalize c.xml text)

  execute_step-some :
      (attempt : ℕ) (s : StepState W)
      → is_some (c.ask s.trace.session s.world).0 ≡ true
      → is_some (execute_step c attempt s).0 ≡ true
  unfolding execute_step
  execute_step-some attempt s h =
      let (text, world) = c.ask s.trace.session s.world in
      ground (arith, heard-some attempt text (record s { world = world }) h)

  -- The loop over the steps of the agent returns a result, whatever the model writes, the tools do
  -- and the judges say, where the model never fails to answer.
  pub agent_loop-some :
      (o : Outside W) (inject : Session → String → W → (Session × List ℕ) × W) (config : LoopConfig)
      (session : Session) (store : Option (List StoreWrite)) (world : W)
      → ((s : Session) (w : W) → is_some (c.ask s w).0 ≡ true)
      → is_some (run_agent_loop_with_session o (execute_step c) inject config session store world).0
        ≡ true
  agent_loop-some o inject config session store world answers =
      run_agent_loop_with_session-some o (execute_step c)
        (λ attempt s. execute_step-some attempt s (answers s.trace.session s.world)) inject config
        session store world
