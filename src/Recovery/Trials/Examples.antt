-- ===== src/Recovery/Trials/Examples.antt =====
-- The summary on a few failures.
use bonsai_agent.Prelude.{◌≡◌, ◌≤◌, refl, List, [], ◌∷◌, length, take_last, trim, show}
use bonsai_agent.Recovery.Trials.{
  new, record_failure, clear, format_for_replan, from_trial_summary, format_for_injection,
}
use bonsai_agent.Recovery.Trials.Window.{Failure, record_all, trials_of, record_all-window}

abbrev failures : List Failure
failures =
    record { tool_name = "shell"; args_json = "{}"; error_output = "e1"; iteration = 1 }
    ∷ record { tool_name = "shell"; args_json = "{}"; error_output = "e2"; iteration = 2 }
    ∷ []

record_all-window_case :
    ((record_all (new 1) failures).entries ≡ take_last 1 (trials_of failures))
    × (length (record_all (new 1) failures).entries ≤ 1)
record_all-window_case = record_all-window 1 failures

replan_test :
    format_for_replan (record_all (new 1) failures)
    ≡ "すでに試した方法です。同じやり方を避けて、別の方法を考えてください:\n1. [iter 2] shell({}) → エラー: e2"
unfolding format_for_replan record_failure trim show
replan_test = refl

clear_test : format_for_replan (clear (record_all (new 1) failures)) ≡ ""
unfolding format_for_replan clear record_failure trim
clear_test = refl

confidence_test : (from_trial_summary (λ m. m) (record_all (new 5) failures) "t").confidence ≡ 70
unfolding from_trial_summary record_failure trim
confidence_test = refl

no_feedback_test : format_for_injection (from_trial_summary (λ m. m) (new 5) "t") ≡ ""
unfolding from_trial_summary format_for_injection
no_feedback_test = refl
