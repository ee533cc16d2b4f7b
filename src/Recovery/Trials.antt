-- ===== src/Recovery/Trials.antt =====
-- src/agent/error_recovery.rs: `TrialSummary` and `StructuredFeedback`. A confidence is held in
-- hundredths: 1.0 - 0.15 * n, not below 0.0, is 100 - 15 * n with truncated subtraction.
pub mod Window
mod Examples
use bonsai_agent.Prelude.{
  ℕ, suc, ◌+◌, ◌-◌, ◌*◌, Bool, true, false, ◌&&◌, String, ◌<>◌, show, Option, none, some, List, [],
  ◌∷◌, ◌++◌, map, HashMap, insert, lookup, leb, length, is_empty, take_chars, join, trim,
  if◌then◌else◌,
}
use bonsai_agent.Recovery.StuckGuard.{or_zero}

pub record TrialEntry : Type 0 where
  pub tool_name : String
  pub args_summary : String
  pub error_summary : String
  pub timestamp : ℕ

pub record TrialSummary : Type 0 where
  pub entries : List TrialEntry
  pub max_entries : ℕ

abbrev pub new : ℕ → TrialSummary
new max_entries = record { entries = []; max_entries = max_entries }

abbrev pub default : TrialSummary
default = new 10

abbrev pub trial : String → String → String → ℕ → TrialEntry
trial tool_name args_json error_output iteration = record {
  tool_name = tool_name;
  args_summary = take_chars 80 args_json;
  error_summary = take_chars 100 error_output;
  timestamp = iteration;
}

unfoldable pub record_failure : TrialSummary → String → String → String → ℕ → TrialSummary
record_failure t tool_name args_json error_output iteration = record t {
  entries = trim t.max_entries (t.entries ++ trial tool_name args_json error_output iteration ∷ []);
}

-- The numbered lines of `format_for_replan`, from the number `i` on.
replan_lines : ℕ → List TrialEntry → List String
replan_lines i [] = []
replan_lines i (e ∷ es) =
    (show i
      <> (". [iter "
          <> (show e.timestamp
              <> ("] "
                  <> (e.tool_name
                      <> ("(" <> (e.args_summary <> (") → エラー: " <> e.error_summary))))))))
    ∷ replan_lines (i + 1) es

unfoldable pub format_for_replan : TrialSummary → String
unfolding replan_lines
format_for_replan t =
    if is_empty t.entries
    then ""
    else join "\n" ("すでに試した方法です。同じやり方を避けて、別の方法を考えてください:" ∷ replan_lines 1 t.entries)

unfoldable pub clear : TrialSummary → TrialSummary
clear t = record t { entries = [] }

pub record StructuredFeedback : Type 0 where
  pub evaluation : String
  pub missing_steps : List String
  pub suggestions : List String
  pub confidence : ℕ

-- `*tool_counts.entry(&entry.tool_name).or_insert(0) += 1` over the entries.
count_tools : HashMap ℕ → List TrialEntry → HashMap ℕ
count_tools counts [] = counts
count_tools counts (e ∷ es) =
    count_tools (insert e.tool_name (or_zero (lookup e.tool_name counts) + 1) counts) es

-- `trials.entries.last().unwrap()`, as the line on it.
last_line : TrialEntry → List TrialEntry → String
last_line e [] =
    "直近の失敗: " <> (e.tool_name <> ("(" <> (e.args_summary <> (") → " <> e.error_summary))))
last_line e (f ∷ es) = last_line f es

-- The suggestions on the tools that failed twice or more.
repeated_tools : List (String × ℕ) → List String
repeated_tools [] = []
repeated_tools ((tool, n) ∷ r) =
    let rest = repeated_tools r in
    if leb 2 n then (tool <> ("が" <> (show n <> "回連続失敗 — 別のツールか別の引数を検討してください"))) ∷ rest else rest

or_default_suggestion : List String → List String
or_default_suggestion [] = "これまでの方法を避けて、別のアプローチを試してください" ∷ []
or_default_suggestion (s ∷ ss) = s ∷ ss

-- `iteration_order` is the order in which the hash map of counts is walked.
module _ (iteration_order : HashMap ℕ → List (String × ℕ)) where
  feedback_on : List TrialEntry → String → StructuredFeedback
  feedback_on [] task_context = record {
    evaluation = "";
    missing_steps = [];
    suggestions = [];
    confidence = 100;
  }
  feedback_on (e ∷ es) task_context =
      let failures = length (e ∷ es) in
      let tool_counts = iteration_order (count_tools [] (e ∷ es)) in
      record {
        evaluation =
            "タスク「"
            <> (task_context
                <> ("」で"
                    <> (show failures
                        <> ("回の試行が失敗。使用ツール: "
                            <> join ", " (
                                map (λ (c : String × ℕ). c.0 <> ("(" <> (show c.1 <> "回失敗)")))
                                  tool_counts)))));
        missing_steps = last_line e es ∷ [];
        suggestions = or_default_suggestion (repeated_tools tool_counts);
        confidence = 100 - 15 * failures;
      }

  unfoldable pub from_trial_summary : TrialSummary → String → StructuredFeedback
  unfolding feedback_on count_tools last_line repeated_tools or_default_suggestion
  from_trial_summary trials task_context = feedback_on trials.entries task_context

numbered : ℕ → List String → List String
numbered i [] = []
numbered i (s ∷ ss) = (show i <> (". " <> s)) ∷ numbered (i + 1) ss

unfoldable pub format_for_injection : StructuredFeedback → String
unfolding numbered
format_for_injection f =
    if leb 100 f.confidence && is_empty f.missing_steps
    then ""
    else let missing =
        if is_empty f.missing_steps
        then []
        else ("[MISSING STEPS]\n" <> join "\n" (numbered 1 f.missing_steps)) ∷ [] in
      let sugs =
        if is_empty f.suggestions
        then []
        else ("[SUGGESTIONS]\n" <> join "\n" (map (λ s. "- " <> s) f.suggestions)) ∷ [] in
      "<structured-feedback>\n"
      <> (join "\n\n" (("[EVALUATION]\n" <> f.evaluation) ∷ (missing ++ sugs))
          <> "\n</structured-feedback>")
