-- ===== src/AgentLoop/State.antt =====
-- src/agent/agent_loop/state.rs: the state of the loop. `Run` holds it together with what a step may
-- change: the session, the store, the detectors that a step is handed, and the world.
use bonsai_agent.Prelude.{ℕ, Bool, String, Option, List, [], HashMap}
use bonsai_agent.Conversation.{Message}
use bonsai_agent.Recovery.Failure.{FailureMode}
use bonsai_agent.Recovery.ContinueSite as ContinueSite
use bonsai_agent.Recovery.LoopDetector as LoopDetector
use bonsai_agent.Recovery.EditCycle as EditCycle
use bonsai_agent.LoopState.Stall as Stall
use bonsai_agent.LoopState.TokenBudget as TokenBudget
use bonsai_agent.ToolExec.Cache as Cache
use bonsai_agent.ToolExec.Apply.{Trace, StoreWrite}
use bonsai_agent.AgentLoop.Middleware.{Middleware}
use bonsai_agent.AgentLoop.Advisor.{AdvisorConfig, Advising}

pub record AgentLoopResult : Type 0 where
  pub answer : String
  pub iterations_used : ℕ
  pub tools_called : List String

-- `continue` is `Continue { tools, tools_succeeded }`.
pub data StepOutcome : Type 0 where
  final_answer : String → StepOutcome
  continue : List String → Bool → StepOutcome
  aborted : String → StepOutcome

pub data OutcomeAction : Type 0 where
  return : AgentLoopResult → OutcomeAction
  go_on : OutcomeAction

-- src/runtime/model_router.rs. The hook, which nothing reads, and the limit of tokens are left out.
pub data CriticMode : Type 0 where
  same_prompt_different_temperature different_system_prompt separate_backend : CriticMode

abbrev pub mode_text : CriticMode → String
mode_text same_prompt_different_temperature = "same_temp"
mode_text different_system_prompt = "different_prompt"
mode_text separate_backend = "separate_backend"

pub data CriticDisagreementAction : Type 0 where
  inject_as_system_message log_only force_replan : CriticDisagreementAction

pub record CriticConfig : Type 0 where
  pub enabled : Bool
  pub mode : CriticMode
  pub max_critic_uses : ℕ
  pub critic_calls_used : ℕ
  pub critic_system_prompt : String
  pub critic_temperature : ℕ
  pub on_disagreement : CriticDisagreementAction

-- The fields of `LoopState` that a step is not handed.
pub record LoopState : Type 0 where
  pub stall_detector : Stall.StallDetector
  pub advisor : AdvisorConfig
  pub critic : CriticConfig
  pub all_tools : List String
  pub consecutive_failures : ℕ
  pub iteration : ℕ
  pub token_budget : TokenBudget.TokenBudgetTracker
  pub middleware_chain : List Middleware
  pub continue_site : ContinueSite.ContinueSite
  pub injected_heuristic_ids : List ℕ

-- `LoopState::new` with the critic, the heuristics and the chain that the loop sets next.
abbrev pub new : AdvisorConfig → CriticConfig → List ℕ → List Middleware → LoopState
new advisor critic heuristic_ids chain = record {
  stall_detector = Stall.default;
  advisor = advisor;
  critic = critic;
  all_tools = [];
  consecutive_failures = 0;
  iteration = 0;
  token_budget = TokenBudget.default;
  middleware_chain = chain;
  continue_site = ContinueSite.new;
  injected_heuristic_ids = heuristic_ids;
}

-- What a step changes; `trace` has the session, the store, the breaker, the trials and the guard of
-- stuck files.
pub record StepState (W : Type 0) : Type 0 where
  pub trace : Trace
  pub loop_detector : LoopDetector.LoopDetector
  pub tool_cache : Cache.ToolResultCache
  pub cycle_detector : EditCycle.MultiFileEditCycleDetector
  pub world : W

pub record Run (W : Type 0) : Type 0 where
  pub current : StepState W
  pub state : LoopState

-- What lies outside of the loop: the advisors and the language model (`generate` answers a text or
-- an error), the regular expressions of the critic, the rate of successful verifications that the
-- store counts and its comparison with a threshold, the hasher, the order of a hash map, the
-- products of floats, the files of the compaction and the `{:?}` text of a failure mode.
pub record Outside (W : Type 0) : Type 0 where
  pub advising : Advising W
  pub generate : List Message → ℕ → W → Option String × W
  pub agrees : String → Bool
  pub disagrees : String → Bool
  pub uncertain : String → Bool
  pub is_positive : ℕ → Bool
  pub is_below : ℕ → ℕ → Bool
  pub success_rate : List StoreWrite → String → ℕ → Option ℕ
  pub format_rate : ℕ → String
  pub hash : Option String → ℕ
  pub iteration_order : HashMap ℕ → List (String × ℕ)
  pub scale : ℕ → ℕ → ℕ
  pub shorten : ℕ → ℕ
  pub hash_hex : String → String
  pub write_file : String → String → Bool
  pub debug : FailureMode → String
