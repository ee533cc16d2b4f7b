-- ===== src/AgentLoop/Examples.antt =====
-- A model that wants a tool that reads and one that writes, which a judge blocks.
use bonsai_agent.Prelude.{
  ℕ, suc, Bool, true, false, String, Option, none, some, List, [], ◌∷◌, inl, inr, ◌≡◌, refl,
  is_some, str_eq, push_capped, lookup, if◌then◌else◌,
}
use bonsai_agent.Recovery.Breaker as Breaker
use bonsai_agent.Recovery.Trials as Trials
use bonsai_agent.Recovery.StuckGuard as StuckGuard
use bonsai_agent.Recovery.LoopDetector as LoopDetector
use bonsai_agent.Recovery.EditCycle as EditCycle
use bonsai_agent.ToolExec.Permission.{auto, auto_only, full}
use bonsai_agent.ToolExec.Cache as Cache
use bonsai_agent.ToolExec.Gate.{Tool, ValidatedCall}
use bonsai_agent.ToolExec.Batch.{execute_validated_calls, run_from, run_reads}
use bonsai_agent.Panel.{Judge, clear, block, decide_with_verdicts, evaluate_tool_safety}
use bonsai_agent.Parsing.{ToolCall}
use bonsai_agent.AgentLoop.State.{continue, StepState}
use bonsai_agent.AgentLoop.Core.{run_agent_loop_with_session}
use bonsai_agent.AgentLoop.Instances.{still, config, nothing, session}
use bonsai_agent.AgentLoop.Dispatch.{StepContext, gather, check_call, is_tool_allowed, act}
use bonsai_agent.AgentLoop.Step.{execute_step}
use bonsai_agent.AgentLoop.Dispatch.Checked.{AllChecked, gather-AllChecked}
use bonsai_agent.AgentLoop.Step.Answers.{agent_loop-some}

abbrev counter : Tool ℕ String
counter = record {
  permission = auto;
  call = λ args n. (inr (record { output = "ok"; success = true; cancelled = false }), suc n);
}

no_writes : Judge
no_writes ctx = if str_eq ctx.proposed_response "file_write: {}" then block "write" else clear

find : String → Option (Tool ℕ String × Bool)
find name = some (counter, str_eq name "file_read")

unfoldable context : StepContext ℕ String
unfolding no_writes find
context = record {
  cancelled = λ w. false;
  ask = λ s w. (some "<tool_call>{}</tool_call>", w);
  normalize = λ s. s;
  xml = λ s. none;
  read_call = λ s. inl (record { name = "file_write"; arguments = "{}" });
  max_retries = 3;
  allowed_tools = some ("file_read" ∷ "file_write" ∷ []);
  judges = no_writes ∷ [];
  validate = λ call. (true, []);
  find_tool = find;
  json = record { parse = λ s. some s; get = λ k v. none; as_str = λ v. some v; to_text = λ v. v };
  coerce = λ v. v;
  mask = λ s. s;
  truncate = λ s n. s;
  now = λ w. w;
  file_name = λ p. p;
  keys_of = λ m. [];
  policy = record {
    is_daemon = false;
    daemon_policy = auto_only;
    autonomy = full;
    confirm_callback = none;
  };
  json_keys = λ s. none;
  hash = λ s. 0;
  debug = λ m. "ParseError";
}

abbrev wanted : List (ToolCall String)
wanted =
    record { name = "file_read"; arguments = "{}" }
    ∷ record { name = "file_write"; arguments = "{}" }
    ∷ []

abbrev start : StepState ℕ
start = record {
  trace = record {
    session = session;
    circuit_breaker = Breaker.default;
    trial_summary = Trials.default;
    file_stuck_guard = StuckGuard.default;
    store = none;
  };
  loop_detector = LoopDetector.default;
  tool_cache = Cache.new;
  cycle_detector = EditCycle.default;
  world = 0;
}

abbrev names : List (ValidatedCall ℕ String) → List String
names [] = []
names (v ∷ vs) = v.name ∷ names vs

gather-AllChecked_example :
    AllChecked context start.trace.circuit_breaker 0 (gather context 0 wanted [] start).validated
gather-AllChecked_example = gather-AllChecked context 0 wanted start

agent_loop-some_example :
    is_some
      (run_agent_loop_with_session still (execute_step context) nothing config session none 5).0
    ≡ true
unfolding context
agent_loop-some_example = agent_loop-some context still nothing config session none 5 (λ s w. refl)

gather-names : names (gather context 0 wanted [] start).validated ≡ "file_read" ∷ []
unfolding context gather check_call is_tool_allowed evaluate_tool_safety decide_with_verdicts
    LoopDetector.record_and_check LoopDetector.detect_cycle push_capped Breaker.is_available lookup
    LoopDetector.salient_hash
gather-names = refl

-- A step whose only call is refused counts as one in which all tools succeeded.
act-refused :
    (act context 0 "" (record { name = "file_write"; arguments = "{}" } ∷ []) start).0
    ≡ continue [] true
unfolding context act gather check_call is_tool_allowed evaluate_tool_safety decide_with_verdicts
    execute_validated_calls run_from run_reads LoopDetector.record_and_check
    LoopDetector.detect_cycle push_capped Breaker.is_available lookup
act-refused = refl
