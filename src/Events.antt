-- ===== src/Events.antt =====
-- src/domain/event.rs: the classification of a task.
use bonsai_agent.Prelude.{String, contains, ◌||◌, if◌then◌else◌}

unfoldable pub classify_task_type : String → String
classify_task_type task =
    if contains task "実行" || contains task "コマンド"
    then "shell_exec"
    else if contains task "編集"
        || contains task "修正"
        || contains task "変更"
        || contains task "リファクタ"
        || contains task "実装"
    then "code_edit"
    else if contains task "読" || contains task "確認" || contains task "見て"
    then "code_read"
    else "other"
