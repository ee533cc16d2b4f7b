-- ===== src/Task/Last.antt =====
-- src/agent/task.rs: the methods on the task that was created last, while no statement fails.
use bonsai_agent.Prelude.{
  ℕ, ◌+◌, true, false, ◌≡◌, refl, String, some, List, [], ◌∷◌, ◌++◌, eq_refl, length, arith,
}
use bonsai_agent.Task.{
  TaskState, as_str, StepRecord, Row, Connection, Engine, has_id, find_row, update_rows, new_row,
  execute, create, log_of, read_row, get, update_state, log_steps, log_next, add_step, set_error,
}

module _ (rs : List Row) (row : Row) (new : has_id row.id rs ≡ false) where
  update-last : (f : Row → Row) → update_rows f row.id (rs ++ row ∷ []) ≡ rs ++ f row ∷ []
  update-last f = go rs new
    where
      go :
          (xs : List Row)
          → has_id row.id xs ≡ false
          → update_rows f row.id (xs ++ row ∷ []) ≡ xs ++ f row ∷ []
      go [] h = rw (eq_refl row.id) refl
      go (x ∷ xs) h = ground (arith, go xs)

  find-last : find_row row.id (rs ++ row ∷ []) ≡ some row
  find-last = go rs new
    where
      go : (xs : List Row) → has_id row.id xs ≡ false → find_row row.id (xs ++ row ∷ []) ≡ some row
      go [] h = rw (eq_refl row.id) refl
      go (x ∷ xs) h = ground (arith, go xs)

abbrev pub table : List Row → ℕ → Connection
table rows statements = record { rows = rows; statements = statements }

-- The row with one more step.
abbrev pub logged : Engine → StepRecord → String → Row → Row
logged e step now row =
    let steps = log_of e row.step_log ++ step ∷ [] in
    record row { step_log = e.to_json steps; step_current = length steps; updated_at = now }

module _ (e : Engine) (works : (n : ℕ) → e.is_broken n ≡ false) where
  pub create-last :
      (goal : String) (parent : String) (rs : List Row) (n : ℕ)
      → has_id (e.new_v4 n) rs ≡ false
      → has_id parent rs ≡ true
      → create e goal (some parent) (table rs n) ≡ (
        some (e.new_v4 n),
        table (rs ++ new_row (e.new_v4 n) goal (some parent) (e.to_rfc3339 n) ∷ []) (n + 1),
      )
  unfolding create
  create-last goal parent rs n new known = rw (works n, new, known) refl

  execute-last :
      (f : Row → Row) (rs : List Row) (row : Row) (n : ℕ)
      → has_id row.id rs ≡ false
      → execute e (update_rows f row.id) (table (rs ++ row ∷ []) n)
        ≡ (true, table (rs ++ f row ∷ []) (n + 1))
  unfolding execute
  execute-last f rs row n new = rw (works n, update-last rs row new f) refl

  pub update_state-last :
      (state : TaskState) (rs : List Row) (row : Row) (n : ℕ)
      → has_id row.id rs ≡ false
      → update_state e row.id state (table (rs ++ row ∷ []) n) ≡ (
        true,
        table (rs ++ record row { state = as_str state; updated_at = e.to_rfc3339 n } ∷ []) (n + 1),
      )
  unfolding update_state
  update_state-last state rs row n new = execute-last _ rs row n new

  pub set_error-last :
      (error : String) (rs : List Row) (row : Row) (n : ℕ)
      → has_id row.id rs ≡ false
      → set_error e row.id error (table (rs ++ row ∷ []) n) ≡ (
        true,
        table
            (rs
              ++ record row {
                error_info = some error;
                state = "failed";
                updated_at = e.to_rfc3339 n;
              }
                ∷ [])
            (n + 1),
      )
  unfolding set_error
  set_error-last error rs row n new = execute-last _ rs row n new

  get-last :
      (rs : List Row) (row : Row) (n : ℕ)
      → has_id row.id rs ≡ false
      → get e row.id (table (rs ++ row ∷ []) n)
        ≡ (some (some (read_row e row)), table (rs ++ row ∷ []) (n + 1))
  unfolding get
  get-last rs row n new = rw (works n, find-last rs row new) refl

  pub add_step-last :
      (description outcome : String) (rs : List Row) (row : Row) (n : ℕ)
      → has_id row.id rs ≡ false
      → add_step e row.id description outcome (table (rs ++ row ∷ []) n) ≡ (
        true,
        table
            (rs
              ++ logged e
                  (record {
                    description = description;
                    outcome = outcome;
                    timestamp = e.to_rfc3339 n;
                  })
                  (e.to_rfc3339 n)
                  row
                ∷ [])
            (n + 1 + 1),
      )
  unfolding add_step log_next log_steps read_row
  add_step-last description outcome rs row n new =
      rw (get-last rs row n new) (execute-last _ rs row (n + 1) new)
