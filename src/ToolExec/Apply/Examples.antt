-- ===== src/ToolExec/Apply/Examples.antt =====
-- A failed edit of a file, with JSON values that are their own paths, and a mask that hides all.
use bonsai_agent.Prelude.{
  ℕ, ◌-◌, ◌||◌, ◌==◌, ltb, leb, take_last, List, true, false, String, ◌≡◌, refl, none, some, [],
  ◌∷◌, ◌++◌, str_eq, if◌then◌else◌, show,
}
use bonsai_agent.Conversation.{new_session, tool_message}
use bonsai_agent.Recovery.Breaker as Breaker
use bonsai_agent.Recovery.Trials as Trials
use bonsai_agent.Recovery.StuckGuard as StuckGuard
use bonsai_agent.ToolExec.Gate.{ToolExecResult}
use bonsai_agent.ToolExec.Apply.{
  Json, Trace, apply_tool_result, is_failed, and_then, path_member, redact, starting_before,
  truncate_tool_output_with,
}
use bonsai_agent.ToolExec.Apply.Learning.{
  Applied, trace_after, failures, last_failed, lessons, trace_after-learned,
}
use bonsai_agent.ToolExec.Apply.Traces.{only_redacted, apply_tool_result-answers, advised, shown}

abbrev json : Json String
json = record {
  parse = λ s. some s;
  get = λ k v. if str_eq k "path" then some v else none;
  as_str = λ v. some v;
  to_text = λ v. v;
}

abbrev mask : String → String
mask = redact (λ (p : String) s. p) ("hidden" ∷ [])

abbrev truncate : String → ℕ → String
truncate = truncate_tool_output_with (λ n s. n) (λ n s. none)

abbrev failed : String → ToolExecResult
failed output = record {
  name = "multi_edit";
  args_json = "{}";
  output = output;
  success = false;
  is_error = true;
  cancelled = true;
}

abbrev trace : Trace
trace = record {
  session = new_session "s";
  circuit_breaker = Breaker.default;
  trial_summary = Trials.default;
  file_stuck_guard = StuckGuard.new 1 6;
  store = some [];
}

only_redacted_example :
    apply_tool_result json mask truncate (failed "key=1") 3 0 4000 trace
    ≡ apply_tool_result json mask truncate (failed "key=2") 3 0 4000 trace
only_redacted_example =
    only_redacted json mask truncate (failed "key=1") (failed "key=2") 3 0 4000 trace refl
      (unfold redact in refl) refl

apply_tool_result-answers_example :
    let t' = apply_tool_result json mask truncate (failed "no") 3 0 4000 trace in
    let file_path = and_then (json.parse (mask "{}")) (path_member json) in
    t'.session.messages
    ≡ []
      ++ ((if is_failed (failed "no") then advised (StuckGuard.new 1 6) file_path else [])
          ++ tool_message (shown json mask truncate (failed "no") 4000) "multi_edit" ∷ [])
apply_tool_result-answers_example =
    apply_tool_result-answers json mask truncate (failed "no") 3 0 4000 trace

truncate_test : truncate "abcd" 2 ≡ "ab...\n[全文省略 (4文字、表示2文字)]"
unfolding truncate_tool_output_with starting_before show
truncate_test = refl

-- A failure that the user caused after one that the tool caused.
abbrev history : List Applied
history =
    record { result = failed "stopped"; iteration = 2; now = 20 }
    ∷ record {
      result = record (failed "no such file") { cancelled = false };
      iteration = 1;
      now = 10;
    }
    ∷ []

trace_after-learned_example :
    (Breaker.is_available
        (trace_after json mask truncate 4000 trace history).circuit_breaker
        30
        "multi_edit"
      ≡ (failures "multi_edit" history == 0
          || ltb (failures "multi_edit" history) 5
          || leb 300000000000 (30 - last_failed "multi_edit" history)))
    × ((trace_after json mask truncate 4000 trace history).trial_summary.entries
        ≡ take_last 10 (lessons json mask truncate 4000 history))
trace_after-learned_example =
    trace_after-learned json mask truncate 4000 trace 5 300000000000 10 refl refl history
      "multi_edit" 30

one_lesson : failures "multi_edit" history ≡ 1
one_lesson = refl
