-- ===== src/Recovery/ContinueSite.antt =====
-- src/agent/error_recovery.rs: `ContinueSite`, the escalation from a fix to a new plan to a stop.
pub mod Escalation
mod Examples
use bonsai_agent.Prelude.{
  ℕ, zero, suc, ◌+◌, ◌-◌, String, ◌<>◌, show, Option, none, some, List, [], ◌∷◌, ltb, leb,
  if◌then◌else◌,
}
use bonsai_agent.Recovery.Failure.{
  FailureMode, reasoning_error, RecoveryAction, explain_and_stop, replan, decide_recovery,
}

abbrev pub max_consecutive_failures : ℕ
max_consecutive_failures = 3

pub record ContinueSite : Type 0 where
  pub consecutive_failures : ℕ
  pub last_failure_mode : Option FailureMode

abbrev pub new : ContinueSite
new = record { consecutive_failures = 0; last_failure_mode = none }

unfoldable pub record_success : ContinueSite → ContinueSite
record_success s = record s { consecutive_failures = 0; last_failure_mode = none }

unfoldable pub record_failure : ContinueSite → FailureMode → ContinueSite
record_failure s mode = record s {
  consecutive_failures = s.consecutive_failures + 1;
  last_failure_mode = some mode;
}

-- `.unwrap_or(FailureMode::ReasoningError)`.
abbrev pub or_reasoning_error : Option FailureMode → FailureMode
or_reasoning_error none = reasoning_error
or_reasoning_error (some mode) = mode

unfoldable pub decide_escalated_recovery :
    (FailureMode → String) → ContinueSite → ℕ → RecoveryAction
decide_escalated_recovery debug s max_retries =
    let mode = or_reasoning_error s.last_failure_mode in
    if ltb max_consecutive_failures s.consecutive_failures
    then explain_and_stop
        (show s.consecutive_failures <> "回続けて失敗しました。安全のため中断します。原因: " <> debug mode)
    else if leb max_consecutive_failures s.consecutive_failures
    then replan "前の方法がうまくいきませんでした。目標を確認して、別の方法で計画し直してください。"
    else decide_recovery debug mode (s.consecutive_failures - 1) max_retries
