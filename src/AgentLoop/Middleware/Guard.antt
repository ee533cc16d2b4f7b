-- ===== src/AgentLoop/Middleware/Guard.antt =====
-- src/agent/middleware.rs: what holds of the session when the chain lets a step begin.
use bonsai_agent.Prelude.{ℕ, ◌≤◌, ◌≡◌, none, List, String, HashMap, arith}
use bonsai_agent.Conversation.{Session}
use bonsai_agent.Compaction.Config.{CompactionConfig, estimate_tokens}
use bonsai_agent.LoopState.TokenBudget.{TokenBudgetTracker}
use bonsai_agent.AgentLoop.Middleware.{before_step, run_before_step}
use bonsai_agent.AgentLoop.Middleware.Budget.{chain_of}

module _ (iteration_order : HashMap ℕ → List (String × ℕ)) where
  pub chain_of-guards :
      (config : CompactionConfig) (tools : List String) (t : TokenBudgetTracker) (iteration : ℕ)
      (s : Session)
      → (run_before_step iteration_order (chain_of config tools t) iteration s).1 ≡ none
      → estimate_tokens
          (run_before_step iteration_order (chain_of config tools t) iteration s).0.messages
        ≤ config.max_context_tokens
  unfolding run_before_step before_step
  chain_of-guards config tools t iteration s free = ground (arith, free)
