-- ===== src/Subagent/Records.antt =====
-- src/agent/subagent.rs with src/agent/task.rs: what a delegation leaves in the table of the tasks.
use bonsai_agent.Prelude.{
  ℕ, ◌+◌, ◌≤◌, ◌<◌, true, false, not, ◌≡◌, refl, ap, ◌∙◌, ◌⊎◌, inl, inr, String, Option, some, List,
  [], ◌∷◌, ◌++◌, str_eq, arith, is_some, if◌then◌else◌,
}
use bonsai_agent.Task.{
  in_progress, completed, failed, as_str, from_str, StepRecord, Row, Connection, Engine, has_id,
  new_row, log_of, add_step,
}
use bonsai_agent.Task.Rows.{from_str-as_str, has_id-append, ReadsLogs}
use bonsai_agent.Task.Last.{
  table, create-last, update_state-last, set_error-last, add_step-last, logged,
}
use bonsai_agent.Subagent.{
  SubTaskResult, AgentConfig, Store, LoopAnswer, Outside, begun, register, audited, record_success,
  record_error, conclude, execute_single_subtask,
}

-- No statement fails, the logs are read, and no name is made twice.
pub record IsWorking (e : Engine) : Type 0 where
  pub works : (n : ℕ) → e.is_broken n ≡ false
  pub reading : ReadsLogs e
  pub unique : (m n : ℕ) → m < n → str_eq (e.new_v4 m) (e.new_v4 n) ≡ false

-- The parent is a task, and the names that are to come are not.
pub record IsReady (e : Engine) (parent : String) (c : Connection) : Type 0 where
  pub known : has_id parent c.rows ≡ true
  pub new_names : (n : ℕ) → c.statements ≤ n → has_id (e.new_v4 n) c.rows ≡ false

abbrev pub outcomes : List StepRecord → List String
outcomes [] = []
outcomes (s ∷ ss) = s.outcome ∷ outcomes ss

-- The row tells what became of the task: it is finished, with its answer as its only step, or failed,
-- with its error.
pub record IsRecorded (e : Engine) (parent : String) (r : SubTaskResult) (row : Row) : Type 0 where
  pub same_id : row.id ≡ r.task_id
  pub same_goal : row.goal ≡ r.goal
  pub child : row.parent_id ≡ some parent
  pub state : from_str row.state ≡ (if r.success then completed else failed)
  pub steps : outcomes (log_of e row.step_log) ≡ (if r.success then r.answer ∷ [] else [])
  pub errors : is_some row.error_info ≡ not r.success

-- One more row, which tells what became of the task.
pub record Recorded (e : Engine) (parent : String) (before : List Row) (r : SubTaskResult)
    (after : Option Store) : Type 0 where
  pub store : Store
  pub row : Row
  pub stored : after ≡ some store
  pub rows : store.tasks.rows ≡ before ++ row ∷ []
  pub recorded : IsRecorded e parent r row
  pub ready : IsReady e parent store.tasks

module _ {W : Type 0} (o : Outside W) (working : IsWorking o.engine) (parent : String) where
  abbrev pub e : Engine
  e = o.engine

  abbrev started : String → ℕ → Row
  started goal n = record (new_row (e.new_v4 n) goal (some parent) (e.to_rfc3339 n)) {
    state = as_str in_progress;
    updated_at = e.to_rfc3339 (n + 1);
  }

  register-started :
      (goal : String) (s : Store)
      → IsReady e parent s.tasks
      → register o parent goal (some s) ≡ (
        some (e.new_v4 s.tasks.statements),
        some (record s {
          tasks =
              table
                (s.tasks.rows ++ started goal s.tasks.statements ∷ [])
                (s.tasks.statements + 1 + 1);
        }),
      )
  unfolding register
  register-started goal s ready =
      let n = s.tasks.statements in
      let new = ready.new_names n (omega arith) in
      ap (begun o s) (create-last e working.works goal parent s.tasks.rows n new ready.known)
      ∙ ap (λ r. (some (e.new_v4 n), some (record s { tasks = r.1 })))
          (update_state-last e working.works in_progress s.tasks.rows
            (new_row (e.new_v4 n) goal (some parent) (e.to_rfc3339 n)) (n + 1) new)

  IsReady-append :
      (c : Connection) (row : Row) (k : ℕ)
      → IsReady e parent c
      → row.id ≡ e.new_v4 c.statements
      → c.statements < k
      → IsReady e parent (table (c.rows ++ row ∷ []) k)
  IsReady-append c row k ready named later = record {
    known = ground (arith, ready.known, has_id-append parent c.rows row);
    new_names = λ n h. ground (
      arith,
      named,
      has_id-append (e.new_v4 n) c.rows row,
      ready.new_names n,
      working.unique c.statements n,
    );
  }

  abbrev done : String → LoopAnswer → ℕ → Row
  done goal r n =
      logged e
        (record {
          description = "完了";
          outcome = r.answer;
          timestamp = e.to_rfc3339 (n + 1 + 1 + 1);
        })
        (e.to_rfc3339 (n + 1 + 1 + 1))
        (record (started goal n) {
          state = as_str completed;
          updated_at = e.to_rfc3339 (n + 1 + 1);
        })

  abbrev broken : String → String → ℕ → Row
  broken goal error n = record (started goal n) {
    error_info = some error;
    state = "failed";
    updated_at = e.to_rfc3339 (n + 1 + 1);
  }

  abbrev with_tasks : Store → List Row → ℕ → Store
  with_tasks s rows n = record s { tasks = table rows n }

  record_success-done :
      (goal : String) (r : LoopAnswer) (s : Store) (rs : List Row) (n : ℕ)
      → has_id (e.new_v4 n) rs ≡ false
      → record_success o
          (some (e.new_v4 n))
          goal
          r
          (some (with_tasks s (rs ++ started goal n ∷ []) (n + 1 + 1)))
        ≡ some (audited o goal r (with_tasks s (rs ++ done goal r n ∷ []) (n + 1 + 1 + 1 + 1 + 1)))
  unfolding record_success
  record_success-done goal r s rs n new =
      ap
        (λ c.
          some
            (audited o goal r (record s { tasks = (add_step e (e.new_v4 n) "完了" r.answer c.1).1 })))
        (update_state-last e working.works completed rs (started goal n) (n + 1 + 1) new)
      ∙ ap (λ c. some (audited o goal r (record s { tasks = c.1 })))
          (add_step-last e working.works "完了" r.answer rs
            (record (started goal n) {
              state = as_str completed;
              updated_at = e.to_rfc3339 (n + 1 + 1);
            })
            (n + 1 + 1 + 1) new)

  record_error-broken :
      (goal error : String) (s : Store) (rs : List Row) (n : ℕ)
      → has_id (e.new_v4 n) rs ≡ false
      → record_error o
          (some (e.new_v4 n))
          error
          (some (with_tasks s (rs ++ started goal n ∷ []) (n + 1 + 1)))
        ≡ some (with_tasks s (rs ++ broken goal error n ∷ []) (n + 1 + 1 + 1))
  unfolding record_error
  record_error-broken goal error s rs n new =
      ap (λ c. some (record s { tasks = c.1 }))
        (set_error-last e working.works error rs (started goal n) (n + 1 + 1) new)

  log_of-to_json : (steps : List StepRecord) → log_of e (e.to_json steps) ≡ steps
  log_of-to_json steps = ground (arith, working.reading.reads steps)

  log_of-none : log_of e "[]" ≡ []
  log_of-none = ground (arith, working.reading.reads_none)

  conclude-Recorded :
      (goal : String) (i : ℕ) (s : Store) (outcome : LoopAnswer ⊎ String)
      → IsReady e parent s.tasks
      → let n = s.tasks.statements in
        let (result, after) =
          conclude o
            (some (e.new_v4 n))
            i
            goal
            outcome
            (some (with_tasks s (s.tasks.rows ++ started goal n ∷ []) (n + 1 + 1))) in
        Recorded e parent s.tasks.rows result after
  unfolding conclude as_str
  conclude-Recorded goal i s (inl r) ready =
      let n = s.tasks.statements in
      let step : StepRecord = record {
        description = "完了";
        outcome = r.answer;
        timestamp = e.to_rfc3339 (n + 1 + 1 + 1);
      } in
      record {
        store =
            audited o goal r
              (with_tasks s (s.tasks.rows ++ done goal r n ∷ []) (n + 1 + 1 + 1 + 1 + 1));
        row = done goal r n;
        stored = record_success-done goal r s s.tasks.rows n (ready.new_names n (omega arith));
        rows = refl;
        recorded = record {
          same_id = refl;
          same_goal = refl;
          child = refl;
          state = from_str-as_str completed;
          steps =
              ap (λ steps. outcomes (log_of e (e.to_json (steps ++ step ∷ [])))) log_of-none
              ∙ ap outcomes (log_of-to_json (step ∷ []));
          errors = refl;
        };
        ready =
            IsReady-append s.tasks (done goal r n) (n + 1 + 1 + 1 + 1 + 1) ready refl (omega arith);
      }
  conclude-Recorded goal i s (inr error) ready =
      let n = s.tasks.statements in
      record {
        store = with_tasks s (s.tasks.rows ++ broken goal error n ∷ []) (n + 1 + 1 + 1);
        row = broken goal error n;
        stored = record_error-broken goal error s s.tasks.rows n (ready.new_names n (omega arith));
        rows = refl;
        recorded = record {
          same_id = refl;
          same_goal = refl;
          child = refl;
          state = from_str-as_str failed;
          steps = ap outcomes log_of-none;
          errors = refl;
        };
        ready =
            IsReady-append s.tasks (broken goal error n) (n + 1 + 1 + 1) ready refl (omega arith);
      }

  conclude-goal :
      (task_id : Option String) (i : ℕ) (goal : String) (outcome : LoopAnswer ⊎ String)
      (store : Option Store)
      → (conclude o task_id i goal outcome store).0.goal ≡ goal
  unfolding conclude
  conclude-goal task_id i goal (inl r) store = refl
  conclude-goal task_id i goal (inr error) store = refl

  pub execute_single_subtask-Recorded :
      (goal : String) (i : ℕ) (config : AgentConfig) (s : Store) (w : W)
      → IsReady e parent s.tasks
      → let (result, after, w') = execute_single_subtask o parent i goal config (some s) w in
        Recorded e parent s.tasks.rows result after × (result.goal ≡ goal)
  unfolding execute_single_subtask
  execute_single_subtask-Recorded goal i config s w ready =
      let n = s.tasks.statements in
      let outcome = (o.run_agent_loop goal config w).0 in
      let store = with_tasks s (s.tasks.rows ++ started goal n ∷ []) (n + 1 + 1) in
      rw (register-started goal s ready) (
        conclude-Recorded goal i s outcome ready,
        conclude-goal (some (e.new_v4 n)) i goal outcome (some store),
      )
