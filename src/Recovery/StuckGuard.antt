-- ===== src/Recovery/StuckGuard.antt =====
-- src/agent/error_recovery.rs: `FileStuckGuard` and `FileStuckAction`.
pub mod Stages
mod Examples
use bonsai_agent.Prelude.{
  ℕ, ◌+◌, String, ◌<>◌, show, Option, none, some, [], HashMap, lookup, insert, remove, leb, length,
  if◌then◌else◌,
}

pub data FileStuckAction : Type 0 where
  nudge : String → FileStuckAction
  give_up : String → FileStuckAction

pub record FileStuckGuard : Type 0 where
  pub failure_counts : HashMap ℕ
  pub nudge_threshold : ℕ
  pub give_up_threshold : ℕ

abbrev pub new : ℕ → ℕ → FileStuckGuard
new nudge_at give_up_at = record {
  failure_counts = [];
  nudge_threshold = nudge_at;
  give_up_threshold = give_up_at;
}

abbrev pub default : FileStuckGuard
default = new 3 6

-- `.copied().unwrap_or(0)`.
abbrev pub or_zero : Option ℕ → ℕ
or_zero none = 0
or_zero (some n) = n

unfoldable pub record_file_failure : FileStuckGuard → String → FileStuckGuard
record_file_failure g file_path = record g {
  failure_counts =
      insert file_path (or_zero (lookup file_path g.failure_counts) + 1) g.failure_counts;
}

unfoldable pub record_file_success : FileStuckGuard → String → FileStuckGuard
record_file_success g file_path = record g { failure_counts = remove file_path g.failure_counts }

unfoldable pub check_stuck : FileStuckGuard → String → Option FileStuckAction
check_stuck g file_path =
    let failures = or_zero (lookup file_path g.failure_counts) in
    if leb g.give_up_threshold failures
    then some (
        give_up (
          "ファイル '"
          <> file_path
          <> "' の編集が"
          <> show failures
          <> "回続けて失敗しました。このファイルの編集はやめて、別の方法でタスクを進めてください。"))
    else if leb g.nudge_threshold failures
    then some (
        nudge (
          "ファイル '"
          <> file_path
          <> "' の編集が"
          <> show failures
          <> "回失敗しています。file_readでファイル全体を読み直して、write_fileで全体を書き直してください。部分編集は使わないでください。"))
    else none
