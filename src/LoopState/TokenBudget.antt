-- ===== src/LoopState/TokenBudget.antt =====
-- src/agent/agent_loop/state.rs: `TokenBudgetTracker`. The ratio of two `f64`s is compared by cross
-- multiplication, which agrees with the floats for a budget below 2 ^ 49; 0 / 0 is not a number.
pub mod Advice
mod Examples
use bonsai_agent.Prelude.{
  ℕ, ◌+◌, ◌*◌, Bool, true, false, ◌&&◌, not, Option, none, some, List, [], String, ltb, leb, ◌==◌,
  length, all, take_last, push_capped, if◌then◌else◌,
}

pub record TokenBudgetTracker : Type 0 where
  pub total_tokens : ℕ
  pub budget : ℕ
  pub recent_outputs : List ℕ
  pub low_output_threshold : ℕ
  pub diminishing_window : ℕ

abbrev pub new : ℕ → TokenBudgetTracker
new budget = record {
  total_tokens = 0;
  budget = budget;
  recent_outputs = [];
  low_output_threshold = 100;
  diminishing_window = 5;
}

abbrev pub default : TokenBudgetTracker
default = new 8000

-- The method `record`.
unfoldable pub record_tokens : TokenBudgetTracker → ℕ → TokenBudgetTracker
record_tokens t tokens = record t {
  total_tokens = t.total_tokens + tokens;
  recent_outputs = push_capped (t.diminishing_window * 2) t.recent_outputs tokens;
}

unfoldable pub is_diminishing : TokenBudgetTracker → Bool
is_diminishing t =
    if ltb (length t.recent_outputs) t.diminishing_window
    then false
    else all (λ n. ltb n t.low_output_threshold) (take_last t.diminishing_window t.recent_outputs)

-- `usage_ratio() >= p / 10`.
unfoldable pub usage_reaches : ℕ → TokenBudgetTracker → Bool
usage_reaches p t =
    not (t.budget == 0 && t.total_tokens == 0) && leb (t.budget * p) (t.total_tokens * 10)

abbrev pub at_limit : String
at_limit = "トークン予算の上限に達しました。タスクを完了してください。"

abbrev pub almost_done : String
almost_done = "出力が少なくなっています。早めにタスクを完了してください。"

abbrev pub at_90 : String
at_90 = "トークン予算の90%を使いました。すぐにタスクを完了してください。"

unfoldable pub check : TokenBudgetTracker → Option String
check t =
    if usage_reaches 10 t
    then some at_limit
    else if is_diminishing t
    then some almost_done
    else if usage_reaches 9 t
    then some at_90
    else none
