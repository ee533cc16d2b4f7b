-- ===== src/ToolExec/Batch/Examples.antt =====
-- Two readings and a write, in a world that counts the calls.
use bonsai_agent.Prelude.{
  ℕ, suc, Bool, true, false, String, ◌≡◌, refl, none, some, List, [], ◌∷◌, inr, split_at, trim_text,
  trim_start, trim_end,
}
use bonsai_agent.Conversation.{new_session}
use bonsai_agent.Recovery.Breaker as Breaker
use bonsai_agent.Recovery.Trials as Trials
use bonsai_agent.Recovery.StuckGuard as StuckGuard
use bonsai_agent.Recovery.EditCycle as EditCycle
use bonsai_agent.ToolExec.Permission.{auto, auto_only, read_only, can_write}
use bonsai_agent.ToolExec.Gate.{Tool, ValidatedCall, Policy}
use bonsai_agent.ToolExec.Cache as Cache
use bonsai_agent.ToolExec.Cache.Contents.{answer}
use bonsai_agent.ToolExec.Apply.{Json}
use bonsai_agent.ToolExec.Batch.{Execution, run_write, execute_validated_calls, parse_nudge_files}
use bonsai_agent.ToolExec.Batch.Answers.{names, execute_validated_calls-tools}
use bonsai_agent.ToolExec.Batch.Harmless.{execute_validated_calls-world, run_write-forgets}

abbrev json : Json String
json = record { parse = λ s. some s; get = λ k v. some v; as_str = λ v. some v; to_text = λ v. v }

abbrev counter : Tool ℕ String
counter = record {
  permission = auto;
  call = λ args n. (inr (record { output = "ok"; success = true; cancelled = false }), suc n);
}

abbrev call : String → Bool → ValidatedCall ℕ String
call name is_read_only = record {
  name = name;
  args_json = "{}";
  coerced_args = "{}";
  tool = counter;
  is_read_only = is_read_only;
}

abbrev policy : Policy
policy = record {
  is_daemon = false;
  daemon_policy = auto_only;
  autonomy = read_only;
  confirm_callback = none;
}

abbrev start : Execution ℕ
start = record {
  trace = record {
    session = new_session "s";
    circuit_breaker = Breaker.default;
    trial_summary = Trials.default;
    file_stuck_guard = StuckGuard.default;
    store = none;
  };
  cache = Cache.new;
  cycle_detector = EditCycle.default;
  world = 0;
  step_tools = [];
  all_succeeded = true;
}

abbrev calls : List (ValidatedCall ℕ String)
calls = call "file_read" true ∷ call "repo_map" true ∷ call "file_write" false ∷ []

execute_validated_calls-tools_example :
    (execute_validated_calls json
      (λ s. s)
      (λ s n. s)
      (λ w. w)
      (λ p. p)
      (λ m. [])
      policy
      1
      calls
      start).step_tools
    ≡ names calls
execute_validated_calls-tools_example =
    execute_validated_calls-tools json (λ s. s) (λ s n. s) (λ w. w) (λ p. p) (λ m. []) policy 1
      calls start

execute_validated_calls-world_example :
    (execute_validated_calls json
      (λ s. s)
      (λ s n. s)
      (λ w. w)
      (λ p. p)
      (λ m. [])
      policy
      1
      (call "file_write" false ∷ [])
      start).world
    ≡ 0
unfolding can_write
execute_validated_calls-world_example =
    execute_validated_calls-world json (λ s. s) (λ s n. s) (λ w. w) (λ p. p) (λ m. []) policy 1
      (call "file_write" false ∷ []) start refl

run_write-forgets_case :
    let x' =
      run_write json
        (λ s. s)
        (λ s n. s)
        (λ w. w)
        (λ p. p)
        (λ m. [])
        policy
        1
        (call "file_write" false)
        start in
    (answer json.to_text x'.cache "file_read" "{}" ≡ none)
    × (answer json.to_text x'.cache "repo_map" "{}" ≡ none)
run_write-forgets_case =
    run_write-forgets json (λ s. s) (λ s n. s) (λ w. w) (λ p. p) (λ m. []) policy 1
      (call "file_write" false) start "{}"

nudge_files_test : parse_nudge_files "ファイル a.rs, b.rs を交互に編集" ≡ "a.rs" ∷ "b.rs" ∷ []
unfolding parse_nudge_files split_at trim_text trim_start trim_end
nudge_files_test = refl
