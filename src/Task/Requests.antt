-- ===== src/Task/Requests.antt =====
-- src/agent/task.rs: the table after any requests.
use bonsai_agent.Prelude.{
  ℕ, ◌||◌, not, ◌≡◌, refl, ap, String, Option, none, some, List, [], ◌∷◌, ◌++◌, length, arith,
  Bool-cases, inl, inr,
}
use bonsai_agent.Task.{
  TaskState, pending, failed, as_str, StepRecord, Row, Task, Connection, Engine, has_id,
  update_rows, is_parent, new_row, execute, create, get, update_state, log_steps, log_next,
  add_step, save_context, set_error,
}
use bonsai_agent.Task.Rows.{
  from_str-as_str, ReadsLogs, IsRow, IsTable, IsHarmless, update-IsTable, append-IsTable,
}

pub data Request : Type 0 where
  create_task : String → Option String → Request
  set_state : String → TaskState → Request
  record_step : String → String → String → Request
  keep_context : String → String → Request
  fail : String → String → Request

unfoldable pub handle : Engine → Request → Connection → Connection
handle e (create_task goal parent_id) c = (create e goal parent_id c).1
handle e (set_state id state) c = (update_state e id state c).1
handle e (record_step id description outcome) c = (add_step e id description outcome c).1
handle e (keep_context id context) c = (save_context e id context c).1
handle e (fail id error) c = (set_error e id error c).1

unfoldable pub handle_all : Engine → List Request → Connection → Connection
handle_all e [] c = c
handle_all e (q ∷ qs) c = handle_all e qs (handle e q c)

module _ (e : Engine) (reading : ReadsLogs e) where
  execute-IsTable :
      (f : Row → Row) (id : String) (c : Connection)
      → IsHarmless e f
      → IsTable e c.rows
      → IsTable e (execute e (update_rows f id) c).1.rows
  unfolding execute
  execute-IsTable f id c h t = elim (Bool-cases (e.is_broken c.statements)) [
    | inl broken ↦ rw broken t
    | inr fine ↦ rw fine (update-IsTable e f h id c.rows t)
  ]

  state-IsHarmless :
      (state : TaskState) (now : String)
      → IsHarmless e (λ r. record r { state = as_str state; updated_at = now })
  state-IsHarmless state now = record {
    same_id = λ r. refl;
    same_parent = λ r. refl;
    keeps = λ r h. record {
      state_text = ap as_str (from_str-as_str state);
      logged = h.logged;
      counted = h.counted;
    };
  }

  error-IsHarmless :
      (error now : String)
      → IsHarmless e (λ r. record r { error_info = some error; state = "failed"; updated_at = now })
  unfolding as_str
  error-IsHarmless error now = record {
    same_id = λ r. refl;
    same_parent = λ r. refl;
    keeps = λ r h. record {
      state_text = ap as_str (from_str-as_str failed);
      logged = h.logged;
      counted = h.counted;
    };
  }

  context-IsHarmless :
      (context now : String)
      → IsHarmless e (λ r. record r { context = some context; updated_at = now })
  context-IsHarmless context now = record {
    same_id = λ r. refl;
    same_parent = λ r. refl;
    keeps = λ r h. record { state_text = h.state_text; logged = h.logged; counted = h.counted };
  }

  log-IsHarmless :
      (steps : List StepRecord) (now : String)
      → IsHarmless e (λ r. record r {
        step_log = e.to_json steps;
        step_current = length steps;
        updated_at = now;
      })
  log-IsHarmless steps now = record {
    same_id = λ r. refl;
    same_parent = λ r. refl;
    keeps = λ r h. record {
      state_text = h.state_text;
      logged = ground (arith, reading.reads steps);
      counted = ground (arith, reading.reads steps);
    };
  }

  new_row-IsRow :
      (id goal : String) (parent_id : Option String) (now : String)
      → IsRow e (new_row id goal parent_id now)
  unfolding as_str
  new_row-IsRow id goal parent_id now = record {
    state_text = ap as_str (from_str-as_str pending);
    logged = ground (arith, reading.reads_none);
    counted = ground (arith, reading.reads_none);
  }

  create-IsTable :
      (goal : String) (parent_id : Option String) (c : Connection)
      → IsTable e c.rows
      → IsTable e (create e goal parent_id c).1.rows
  unfolding create
  create-IsTable goal parent_id c t =
      let id = e.new_v4 c.statements in
      let refused =
        e.is_broken c.statements || has_id id c.rows || not (is_parent parent_id c.rows) in
      elim (Bool-cases refused) [
        | inl fails ↦ rw fails t
        | inr fine ↦ rw fine (
            append-IsTable e c.rows _ t
              (new_row-IsRow id goal parent_id (e.to_rfc3339 c.statements)) (ground (arith, fine))
              (ground (arith, fine)))
      ]

  log_next-IsTable :
      (now id : String) (step : StepRecord) (found : Option (Option Task)) (c : Connection)
      → IsTable e c.rows
      → IsTable e (log_next e now id step found c).1.rows
  unfolding log_next log_steps
  log_next-IsTable now id step none c t = t
  log_next-IsTable now id step (some none) c t = t
  log_next-IsTable now id step (some (some task)) c t =
      execute-IsTable _ id c (log-IsHarmless (task.step_log ++ step ∷ []) now) t

  get-rows : (id : String) (c : Connection) → (get e id c).1.rows ≡ c.rows
  unfolding get
  get-rows id c = ground arith

  add_step-IsTable :
      (id description outcome : String) (c : Connection)
      → IsTable e c.rows
      → IsTable e (add_step e id description outcome c).1.rows
  unfolding add_step
  add_step-IsTable id description outcome c t = log_next-IsTable _ id _ _ _ (rw (get-rows id c) t)

  handle-IsTable : (q : Request) (c : Connection) → IsTable e c.rows → IsTable e (handle e q c).rows
  unfolding handle update_state save_context set_error
  handle-IsTable (create_task goal parent_id) c t = create-IsTable goal parent_id c t
  handle-IsTable (set_state id state) c t = execute-IsTable _ id c (state-IsHarmless state _) t
  handle-IsTable (record_step id description outcome) c t =
      add_step-IsTable id description outcome c t
  handle-IsTable (keep_context id context) c t =
      execute-IsTable _ id c (context-IsHarmless context _) t
  handle-IsTable (fail id error) c t = execute-IsTable _ id c (error-IsHarmless error _) t

  handle_all-kept :
      (qs : List Request) (c : Connection) → IsTable e c.rows → IsTable e (handle_all e qs c).rows
  unfolding handle_all
  handle_all-kept [] c t = t
  handle_all-kept (q ∷ qs) c t = handle_all-kept qs (handle e q c) (handle-IsTable q c t)

  -- After any requests, of which the engine refuses any, every row of a table that was empty has the
  -- text of a state and a log that is read, with as many steps as it counts; no id stands for two
  -- rows, and every parent is a row.
  pub handle_all-IsTable :
      (qs : List Request) (statements : ℕ)
      → IsTable e (handle_all e qs (record { rows = []; statements = statements })).rows
  handle_all-IsTable qs statements =
      handle_all-kept qs (record { rows = []; statements = statements })
        (record { rows_read = tt; distinct = tt; parents = tt })
