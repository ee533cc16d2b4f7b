-- ===== src/Task.antt =====
-- src/agent/task.rs: the tasks of the agent. A statement of SQL is what it says on the list of the rows
-- of the table `tasks`, or fails. The engine decides when it fails for other reasons than the two
-- keys of the table (src/db/schema.rs); it, the clock, the new names and serde_json are parameters.
pub mod Rows
pub mod Last
pub mod Requests
pub mod Samples
mod Examples
use bonsai_agent.Prelude.{
  ℕ, ◌+◌, Bool, true, false, ◌&&◌, ◌||◌, not, String, Option, none, some, List, [], ◌∷◌, ◌++◌,
  str_eq, any, length, if◌then◌else◌,
}

pub data TaskState : Type 0 where
  pending in_progress waiting_for_human completed failed : TaskState

unfoldable pub as_str : TaskState → String
as_str pending = "pending"
as_str in_progress = "in_progress"
as_str waiting_for_human = "waiting"
as_str completed = "completed"
as_str failed = "failed"

unfoldable pub from_str : String → TaskState
from_str s =
    if str_eq s "in_progress"
    then in_progress
    else if str_eq s "waiting"
    then waiting_for_human
    else if str_eq s "completed"
    then completed
    else if str_eq s "failed"
    then failed
    else pending

pub record StepRecord : Type 0 where
  pub description : String
  pub outcome : String
  pub timestamp : String

-- A row of the table, where the state and the log are texts.
pub record Row : Type 0 where
  pub id : String
  pub goal : String
  pub state : String
  pub parent_id : Option String
  pub step_current : ℕ
  pub step_log : String
  pub context : Option String
  pub error_info : Option String
  pub created_at : String
  pub updated_at : String

pub record Task : Type 0 where
  pub id : String
  pub goal : String
  pub state : TaskState
  pub parent_id : Option String
  pub step_current : ℕ
  pub step_log : List StepRecord
  pub context : Option String
  pub error_info : Option String
  pub created_at : String
  pub updated_at : String

-- The table, and the number of the statements so far.
pub record Connection : Type 0 where
  pub rows : List Row
  pub statements : ℕ

-- Of the statement with a number: the time, the new name, and whether it fails.
pub record Engine : Type 0 where
  pub to_rfc3339 : ℕ → String
  pub new_v4 : ℕ → String
  pub is_broken : ℕ → Bool
  pub order : (Row → String) → List Row → List Row
  pub to_json : List StepRecord → String
  pub from_json : String → Option (List StepRecord)

abbrev pub has_id : String → List Row → Bool
has_id id [] = false
has_id id (r ∷ rs) = str_eq r.id id || has_id id rs

abbrev pub find_row : String → List Row → Option Row
find_row id [] = none
find_row id (r ∷ rs) = let rest = find_row id rs in if str_eq r.id id then some r else rest

-- `UPDATE tasks SET … WHERE id = …`.
abbrev pub update_rows : (Row → Row) → String → List Row → List Row
update_rows f id [] = []
update_rows f id (r ∷ rs) =
    let rest = update_rows f id rs in if str_eq r.id id then f r ∷ rest else r ∷ rest

-- `REFERENCES tasks(id)`.
abbrev pub is_parent : Option String → List Row → Bool
is_parent none rs = true
is_parent (some id) rs = has_id id rs

abbrev pub new_row : String → String → Option String → String → Row
new_row id goal parent_id now = record {
  id = id;
  goal = goal;
  state = "pending";
  parent_id = parent_id;
  step_current = 0;
  step_log = "[]";
  context = none;
  error_info = none;
  created_at = now;
  updated_at = now;
}

abbrev pub filter_rows : (Row → Bool) → List Row → List Row
filter_rows p [] = []
filter_rows p (r ∷ rs) = let rest = filter_rows p rs in if p r then r ∷ rest else rest

abbrev pub is_incomplete : Row → Bool
is_incomplete r =
    str_eq r.state "pending" || str_eq r.state "in_progress" || str_eq r.state "waiting"

-- A result is none where the statement, or the one before it, fails.
module _ (e : Engine) where
  abbrev pub next : Connection → Connection
  next c = record c { statements = c.statements + 1 }

  unfoldable pub execute : (List Row → List Row) → Connection → Bool × Connection
  execute f c =
      if e.is_broken c.statements
      then (false, next c)
      else (true, record { rows = f c.rows; statements = c.statements + 1 })

  unfoldable pub create : String → Option String → Connection → Option String × Connection
  create goal parent_id c =
      let id = e.new_v4 c.statements in
      let now = e.to_rfc3339 c.statements in
      if e.is_broken c.statements || has_id id c.rows || not (is_parent parent_id c.rows)
      then (none, next c)
      else (
        some id,
        record {
          rows = c.rows ++ new_row id goal parent_id now ∷ [];
          statements = c.statements + 1;
        },
      )

  abbrev pub log_of : String → List StepRecord
  log_of text = elim (e.from_json text) [ none ↦ [] | some steps ↦ steps ]

  unfoldable pub read_row : Row → Task
  read_row r = record {
    id = r.id;
    goal = r.goal;
    state = from_str r.state;
    parent_id = r.parent_id;
    step_current = r.step_current;
    step_log = log_of r.step_log;
    context = r.context;
    error_info = r.error_info;
    created_at = r.created_at;
    updated_at = r.updated_at;
  }

  abbrev pub read_rows : List Row → List Task
  read_rows [] = []
  read_rows (r ∷ rs) = read_row r ∷ read_rows rs

  abbrev read_option : Option Row → Option Task
  read_option none = none
  read_option (some r) = some (read_row r)

  unfoldable pub get : String → Connection → Option (Option Task) × Connection
  unfolding read_row
  get task_id c =
      if e.is_broken c.statements
      then (none, next c)
      else (some (read_option (find_row task_id c.rows)), next c)

  unfoldable pub update_state : String → TaskState → Connection → Bool × Connection
  update_state task_id state c =
      let now = e.to_rfc3339 c.statements in
      execute (update_rows (λ r. record r { state = as_str state; updated_at = now }) task_id) c

  unfoldable pub log_steps : String → String → List StepRecord → Connection → Bool × Connection
  log_steps now task_id steps c =
      execute
        (update_rows
          (λ r. record r {
            step_log = e.to_json steps;
            step_current = length steps;
            updated_at = now;
          })
          task_id)
        c

  -- The rest of `add_step`, on the answer of `get`.
  unfoldable pub log_next :
      String → String → StepRecord → Option (Option Task) → Connection → Bool × Connection
  log_next now task_id step none c = (false, c)
  log_next now task_id step (some none) c = (false, c)
  log_next now task_id step (some (some task)) c =
      log_steps now task_id (task.step_log ++ step ∷ []) c

  unfoldable pub add_step : String → String → String → Connection → Bool × Connection
  add_step task_id description outcome c =
      let now = e.to_rfc3339 c.statements in
      let step : StepRecord = record {
        description = description;
        outcome = outcome;
        timestamp = now;
      } in
      let (found, c') = get task_id c in log_next now task_id step found c'

  unfoldable pub save_context : String → String → Connection → Bool × Connection
  save_context task_id context c =
      let now = e.to_rfc3339 c.statements in
      execute (update_rows (λ r. record r { context = some context; updated_at = now }) task_id) c

  unfoldable pub set_error : String → String → Connection → Bool × Connection
  set_error task_id error c =
      let now = e.to_rfc3339 c.statements in
      execute
        (update_rows (λ r. record r { error_info = some error; state = "failed"; updated_at = now })
          task_id)
        c

  unfoldable pub list_incomplete : Connection → Option (List Task) × Connection
  list_incomplete c = if e.is_broken c.statements then (none, next c) else (
    some (read_rows (e.order (λ r. r.updated_at) (filter_rows is_incomplete c.rows))),
    next c,
  )

  unfoldable pub subtasks : String → Connection → Option (List Task) × Connection
  subtasks parent_id c =
      let is_child : Row → Bool =
        λ r. elim r.parent_id [ none ↦ false | some id ↦ str_eq id parent_id ] in
      if e.is_broken c.statements
      then (none, next c)
      else (some (read_rows (e.order (λ r. r.created_at) (filter_rows is_child c.rows))), next c)
