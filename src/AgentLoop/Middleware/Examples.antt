-- ===== src/AgentLoop/Middleware/Examples.antt =====
-- Two steps, one of which continues, in a session whose messages exceed a budget of 5 tokens.
use bonsai_agent.Prelude.{
  ℕ, Bool, true, false, ◌≡◌, ◌≢◌, refl, none, some, List, [], ◌∷◌, String, HashMap,
}
use bonsai_agent.Conversation.{Session, new_session, user_message}
use bonsai_agent.Compaction.Config.{CompactionConfig, default}
use bonsai_agent.LoopState.TokenBudget as TokenBudget
use bonsai_agent.LoopState.TokenBudget.Advice.{record_all}
use bonsai_agent.AgentLoop.Middleware.{StepResult, Scene, build_default_chain, names}
use bonsai_agent.AgentLoop.Middleware.Budget.{
  chain_of, run_steps, default_chain_history, all_tools, spent, advice_of,
  default_chain-never_fading,
}

abbrev as_stored : HashMap ℕ → List (String × ℕ)
as_stored counts = counts

abbrev keep : ℕ → ℕ
keep n = n

abbrev scaled : ℕ → ℕ → ℕ
scaled total ratio = 0

abbrev hashed : String → String
hashed s = "0"

abbrev never_written : String → String → Bool
never_written path text = false

abbrev small : CompactionConfig
small = record default { max_context_tokens = 5; emergency_keep = 1 }

abbrev went_on : StepResult
went_on = record {
  outcome_type = "continue";
  iteration = 0;
  duration_ms = 7;
  tools_used = "shell" ∷ "git" ∷ [];
  tools_succeeded = true;
  output_hash = 3;
  consecutive_failures = 0;
}

abbrev answered : StepResult
answered = record went_on { outcome_type = "final_answer"; tools_used = [] }

abbrev steps : List StepResult
steps = went_on ∷ answered ∷ []

abbrev long : Session
long = record (new_session "s") {
  messages =
      user_message "one two three four five six" ∷ user_message "go on" ∷ user_message "now" ∷ [];
}

abbrev scene : Scene
scene = record { session = new_session "s"; store = none }

names-default :
    names (build_default_chain default)
    ≡ "audit" ∷ "tool_tracking" ∷ "compaction" ∷ "token_budget" ∷ []
names-default = refl

default_chain_history_example :
    (run_steps as_stored scaled keep hashed never_written (build_default_chain small) steps scene).0
    ≡ chain_of small (all_tools steps) (record_all (TokenBudget.new 8000) (spent steps))
default_chain_history_example =
    default_chain_history as_stored scaled keep hashed never_written small steps scene

default_chain-never_fading_case :
    advice_of
      (run_steps as_stored scaled keep hashed never_written
        (build_default_chain small)
        steps
        scene).0
    ≢ some TokenBudget.almost_done
default_chain-never_fading_case =
    default_chain-never_fading as_stored scaled keep hashed never_written small steps scene
