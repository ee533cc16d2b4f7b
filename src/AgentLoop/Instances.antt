-- ===== src/AgentLoop/Instances.antt =====
-- Concrete parameters of the loop for tests: a clock that no one moves, no advisor and no memories.
use bonsai_agent.Prelude.{ℕ, true, false, String, none, some, List, [], ◌∷◌}
use bonsai_agent.Conversation.{Session, new_session, user_message}
use bonsai_agent.Compaction.Config as Config
use bonsai_agent.AgentLoop.Advisor as Advisor
use bonsai_agent.AgentLoop.State.{
  Outside, CriticConfig, same_prompt_different_temperature, inject_as_system_message,
}
use bonsai_agent.AgentLoop.Core.{LoopConfig}

unfoldable pub still : Outside ℕ
still = record {
  advising = record {
    now = λ w. w;
    cache_key = λ role task. 0;
    claude_cli = λ prompt w. (none, w);
    post = λ request w. (none, w);
  };
  generate = λ messages temperature w. (some "AGREE", w);
  agrees = λ s. true;
  disagrees = λ s. false;
  uncertain = λ s. false;
  is_positive = λ t. false;
  is_below = λ r t. false;
  success_rate = λ writes task samples. none;
  format_rate = λ r. "0.00";
  hash = λ s. 7;
  iteration_order = λ counts. counts;
  scale = λ total ratio. 0;
  shorten = λ n. n;
  hash_hex = λ s. "0";
  write_file = λ path text. false;
  debug = λ mode. "ToolExecError";
}

abbrev pub critic : CriticConfig
critic = record {
  enabled = false;
  mode = same_prompt_different_temperature;
  max_critic_uses = 3;
  critic_calls_used = 0;
  critic_system_prompt = "review";
  critic_temperature = 0;
  on_disagreement = inject_as_system_message;
}

abbrev pub config : LoopConfig
config = record {
  max_iterations = 10;
  task_timeout = some 60000;
  capping = false;
  cap = 9;
  compaction = Config.default;
  advisor = Advisor.default;
  critic = critic;
}

abbrev pub nothing : Session → String → ℕ → (Session × List ℕ) × ℕ
nothing s task w = ((s, []), w)

abbrev pub session : Session
session = record (new_session "s") { messages = user_message "fix the test" ∷ [] }
