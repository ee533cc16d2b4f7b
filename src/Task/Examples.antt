-- ===== src/Task/Examples.antt =====
-- Tasks of the sample engine.
use bonsai_agent.Prelude.{◌≡◌, refl, some, none, [], ◌∷◌, map, List}
use bonsai_agent.Task.{
  completed, Connection, Row, create, update_state, add_step, get, as_str, execute, log_next,
  log_steps, read_row,
}
use bonsai_agent.Task.Requests.{
  Request, create_task, record_step, fail, handle_all, handle_all-IsTable,
}
use bonsai_agent.Task.Rows.{IsTable}
use bonsai_agent.Task.Samples.{sample, sample-ReadsLogs}

abbrev empty : Connection
empty = record { rows = []; statements = 0 }

-- A task, a child, a step of the first, a child of no task, which is refused, and an error.
abbrev requests : List Request
requests =
    create_task "read" none
    ∷ create_task "write" (some "")
    ∷ record_step "" "look" "found"
    ∷ create_task "lost" (some "x")
    ∷ fail "t" "no"
    ∷ []

handle_all-IsTable_example : IsTable sample (handle_all sample requests empty).rows
handle_all-IsTable_example = handle_all-IsTable sample sample-ReadsLogs requests 0

two_tasks : Connection
unfolding create update_state add_step execute log_next log_steps get read_row as_str sample
two_tasks =
    (add_step sample "" "look" "found"
      (update_state sample "t" completed
        (create sample "write" (some "") (create sample "read" none empty).1).1).1).1

-- The step is kept, and only the first of the tasks is left.
steps_kept : map (λ (r : Row). r.step_current) two_tasks.rows ≡ 1 ∷ 0 ∷ []
unfolding two_tasks
steps_kept = refl

-- A child of no task is refused.
orphan_refused : (create sample "lost" (some "x") empty).0 ≡ none
unfolding create sample
orphan_refused = refl
