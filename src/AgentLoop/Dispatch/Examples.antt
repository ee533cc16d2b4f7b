-- ===== src/AgentLoop/Dispatch/Examples.antt =====
-- A step with the path guard, whose model wants a denied file and another.
use bonsai_agent.Prelude.{
  ℕ, suc, Bool, true, false, String, none, some, List, [], ◌∷◌, inr, ◌≡◌, refl, push_capped, lookup,
  contains,
}
use bonsai_agent.Recovery.Breaker as Breaker
use bonsai_agent.Recovery.Trials as Trials
use bonsai_agent.Recovery.StuckGuard as StuckGuard
use bonsai_agent.Recovery.LoopDetector as LoopDetector
use bonsai_agent.Recovery.EditCycle as EditCycle
use bonsai_agent.ToolExec.Permission.{auto, auto_only, full}
use bonsai_agent.ToolExec.Cache as Cache
use bonsai_agent.ToolExec.Gate.{Tool, ValidatedCall}
use bonsai_agent.Panel.{decide_with_verdicts, evaluate_tool_safety}
use bonsai_agent.Parsing.{ToolCall}
use bonsai_agent.PathGuard.{
  Files, default_deny_list, components, split_chars, pop, normalize_onto, normalize_path,
  has_prefix, matches_candidate, matches_denied_resolved, absolute_of, is_denied_name, is_denied,
  expand_tilde,
}
use bonsai_agent.Validate.{
  Value, string, object, field, end, validate_tool_call, check_name, check_command,
  check_paths_in_value, check_dangerous_patterns, check_patterns, walk,
}
use bonsai_agent.AgentLoop.Instances.{session}
use bonsai_agent.AgentLoop.State.{StepState}
use bonsai_agent.AgentLoop.Dispatch.{StepContext, gather, check_call, is_tool_allowed}
use bonsai_agent.AgentLoop.Dispatch.Guarded.{validate, guarded, AllGuarded, gather-AllGuarded}

abbrev reader : Tool ℕ Value
reader = record {
  permission = auto;
  call = λ args n. (inr (record { output = "ok"; success = true; cancelled = false }), suc n);
}

abbrev text_of : Value → String
text_of (object (field k (string s) fs)) = s
text_of _ = "{}"

abbrev context : StepContext ℕ Value
context = record {
  cancelled = λ w. false;
  ask = λ s w. (some "", w);
  normalize = λ s. s;
  xml = λ s. none;
  read_call = λ s. inr "no call";
  max_retries = 3;
  allowed_tools = none;
  judges = [];
  validate = λ call. (true, []);
  find_tool = λ name. some (reader, true);
  json = record { parse = λ s. none; get = λ k v. none; as_str = λ v. none; to_text = text_of };
  coerce = λ v. v;
  mask = λ s. s;
  truncate = λ s n. s;
  now = λ w. w;
  file_name = λ p. p;
  keys_of = λ m. [];
  policy = record {
    is_daemon = false;
    daemon_policy = auto_only;
    autonomy = full;
    confirm_callback = none;
  };
  json_keys = λ s. none;
  hash = λ s. 0;
  debug = λ m. "LoopDetected";
}

abbrev read_of : String → ToolCall Value
read_of path = record { name = "file_read"; arguments = object (field "path" (string path) end) }

abbrev wanted : List (ToolCall Value)
wanted = read_of "/etc/../etc/passwd" ∷ read_of "/tmp/notes" ∷ []

abbrev files : Files
files = record { canonicalize = λ path. none; current_dir = none; home = none }

abbrev patterns : List (String → Bool)
patterns = (λ s. contains s "sudo") ∷ []

abbrev known : List String
known = "file_read" ∷ []

abbrev start : StepState ℕ
start = record {
  trace = record {
    session = session;
    circuit_breaker = Breaker.default;
    trial_summary = Trials.default;
    file_stuck_guard = StuckGuard.default;
    store = none;
  };
  loop_detector = LoopDetector.default;
  tool_cache = Cache.new;
  cycle_detector = EditCycle.default;
  world = 0;
}

gather-AllGuarded_example :
    AllGuarded files known default_deny_list patterns context
      (gather (guarded files known default_deny_list patterns context) 0 wanted [] start).validated
gather-AllGuarded_example =
    gather-AllGuarded files known default_deny_list patterns context 0 wanted start

abbrev texts : List (ValidatedCall ℕ Value) → List String
texts [] = []
texts (v ∷ vs) = v.args_json ∷ texts vs

only_notes :
    texts
      (gather (guarded files known default_deny_list patterns context) 0 wanted [] start).validated
    ≡ "/tmp/notes" ∷ []
unfolding validate gather check_call is_tool_allowed evaluate_tool_safety decide_with_verdicts
    LoopDetector.record_and_check LoopDetector.detect_cycle push_capped Breaker.is_available lookup
    LoopDetector.salient_hash default_deny_list components split_chars pop normalize_onto
    normalize_path has_prefix matches_candidate matches_denied_resolved absolute_of is_denied_name
    is_denied expand_tilde validate_tool_call check_name check_command check_paths_in_value
    check_dangerous_patterns check_patterns walk
only_notes = refl
