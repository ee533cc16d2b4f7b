-- ===== src/Panel.antt =====
-- src/agent/magi/panel.rs: the panel of judges. A judge is a function from what it judges to a verdict.
mod Examples
use bonsai_agent.Prelude.{
  ℕ, suc, Bool, true, false, String, ◌<>◌, List, [], ◌∷◌, map, length, leb, is_empty, if◌then◌else◌,
}

-- Without the store, which a judge may ask as well.
pub record ResponseContext : Type 0 where
  pub task_description : String
  pub user_input : String
  pub proposed_response : String
  pub trajectory : List String

pub data JudgeVerdict : Type 0 where
  clear : JudgeVerdict
  concern block : String → JudgeVerdict

pub data DecisionOutcome : Type 0 where
  proceed : DecisionOutcome
  warn halt : List JudgeVerdict → DecisionOutcome

abbrev pub Judge : Type 0
Judge = ResponseContext → JudgeVerdict

abbrev pub block_reasons : List JudgeVerdict → List String
block_reasons [] = []
block_reasons (block reason ∷ vs) = reason ∷ block_reasons vs
block_reasons (v ∷ vs) = block_reasons vs

abbrev pub concern_reasons : List JudgeVerdict → List String
concern_reasons [] = []
concern_reasons (concern reason ∷ vs) = reason ∷ concern_reasons vs
concern_reasons (v ∷ vs) = concern_reasons vs

abbrev pub is_clear : JudgeVerdict → Bool
is_clear clear = true
is_clear _ = false

-- How many verdicts are not `clear`.
abbrev pub concerns_or_blocks : List JudgeVerdict → ℕ
concerns_or_blocks [] = 0
concerns_or_blocks (v ∷ vs) =
    let rest = concerns_or_blocks vs in if is_clear v then rest else suc rest

unfoldable pub decide_with_verdicts :
    List Judge → ResponseContext → DecisionOutcome × List JudgeVerdict
decide_with_verdicts judges ctx =
    let verdicts = map (λ (judge : Judge). judge ctx) judges in
    let outcome =
      if leb 1 (length (block_reasons verdicts))
      then halt verdicts
      else if leb 1 (concerns_or_blocks verdicts)
      then warn verdicts
      else proceed in
    if is_empty judges then (proceed, []) else (outcome, verdicts)

unfoldable pub evaluate_tool_safety : List Judge → String → String → DecisionOutcome
evaluate_tool_safety judges tool_name args_json =
    (decide_with_verdicts judges (record {
      task_description = "tool invocation safety check";
      user_input = "";
      proposed_response = tool_name <> (": " <> args_json);
      trajectory = [];
    })).0

unfoldable pub evaluate_final_answer_full :
    List Judge → String → String → List String → DecisionOutcome × List JudgeVerdict
evaluate_final_answer_full judges proposed_answer task_description trajectory =
    decide_with_verdicts judges (record {
      task_description = task_description;
      user_input = task_description;
      proposed_response = proposed_answer;
      trajectory = trajectory;
    })
