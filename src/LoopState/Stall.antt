-- ===== src/LoopState/Stall.antt =====
-- src/agent/agent_loop/state.rs: `StallDetector`.
pub mod Progress
mod Examples
use bonsai_agent.Prelude.{ℕ, ◌+◌, Bool, not, ◌||◌, leb, ◌==◌, if◌then◌else◌}

pub record StallDetector : Type 0 where
  pub no_progress_count : ℕ
  pub stall_threshold : ℕ
  pub last_output_hash : ℕ

abbrev pub new : ℕ → StallDetector
new threshold = record { no_progress_count = 0; stall_threshold = threshold; last_output_hash = 0 }

abbrev pub default : StallDetector
default = new 3

unfoldable pub record_step : StallDetector → Bool → ℕ → StallDetector × Bool
record_step d tools_succeeded output_hash =
    let count =
      if not tools_succeeded || output_hash == d.last_output_hash
      then d.no_progress_count + 1
      else 0 in
    (
      record d { no_progress_count = count; last_output_hash = output_hash },
      leb d.stall_threshold count,
    )

unfoldable pub reset : StallDetector → StallDetector
reset d = record d { no_progress_count = 0 }
