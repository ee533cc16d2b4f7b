-- ===== src/Subagent/Delegated.antt =====
-- src/agent/subagent.rs with src/agent/task.rs: the table of the tasks after a delegation.
use bonsai_agent.Prelude.{
  ℕ, ◌+◌, ◌≡◌, refl, sym, ap, ap₂, ◌∙◌, inl, inr, String, Option, some, List, [], ◌∷◌, ◌++◌,
  append_assoc, append-nil, length, take, Bool-cases,
}
use bonsai_agent.Task.{Row, Engine}
use bonsai_agent.Subagent.{
  SubTaskResult, SubAgentConfig, Store, Outside, execute_single_subtask, execute_from,
  execute_sequential, build_sub_config,
}
use bonsai_agent.Subagent.Records.{
  IsWorking, IsReady, IsRecorded, Recorded, execute_single_subtask-Recorded,
}

abbrev pub AllRecorded : Engine → String → List SubTaskResult → List Row → Type 0
AllRecorded e parent [] [] = Unit
AllRecorded e parent [] (x ∷ xs) = ⊥
AllRecorded e parent (r ∷ rs) [] = ⊥
AllRecorded e parent (r ∷ rs) (x ∷ xs) = IsRecorded e parent r x × AllRecorded e parent rs xs

abbrev pub goals_of : List SubTaskResult → List String
goals_of [] = []
goals_of (r ∷ rs) = r.goal ∷ goals_of rs

-- One more row for each result, in their order, and the results of the first goals, in theirs.
pub record Delegated (e : Engine) (parent : String) (goals : List String) (before : List Row)
    (results : List SubTaskResult) (after : Option Store) : Type 0 where
  pub store : Store
  pub news : List Row
  pub stored : after ≡ some store
  pub rows : store.tasks.rows ≡ before ++ news
  pub recorded : AllRecorded e parent results news
  pub in_order : goals_of results ≡ take (length results) goals

module _ {W : Type 0} (o : Outside W) (working : IsWorking o.engine) (parent : String) where
  abbrev e : Engine
  e = o.engine

  none-Delegated :
      (goals : List String) (s : Store) → Delegated e parent goals s.tasks.rows [] (some s)
  none-Delegated goals s = record {
    store = s;
    news = [];
    stored = refl;
    rows = sym (append-nil s.tasks.rows);
    recorded = tt;
    in_order = refl;
  }

  next-Delegated :
      (goal : String) (goals : List String) (before : List Row) (result : SubTaskResult)
      (results : List SubTaskResult) (between after : Option Store)
      (first : Recorded e parent before result between)
      → result.goal ≡ goal
      → Delegated e parent goals first.store.tasks.rows results after
      → Delegated e parent (goal ∷ goals) before (result ∷ results) after
  next-Delegated goal goals before result results between after first same rest = record {
    store = rest.store;
    news = first.row ∷ rest.news;
    stored = rest.stored;
    rows =
        rest.rows
        ∙ ap (λ rows. rows ++ rest.news) first.rows
        ∙ append_assoc before (first.row ∷ []) rest.news;
    recorded = (first.recorded, rest.recorded);
    in_order = ap₂ (λ g gs. g ∷ gs) same rest.in_order;
  }

  execute_from-Delegated :
      (c : SubAgentConfig) (goals : List String) (i : ℕ) (s : Store) (w : W)
      → IsReady e parent s.tasks
      → let (results, after, w') = execute_from o c parent i goals (some s) w in
        Delegated e parent goals s.tasks.rows results after
  unfolding execute_from
  execute_from-Delegated c [] i s w ready = none-Delegated [] s
  execute_from-Delegated c (goal ∷ goals) i s w ready = elim (Bool-cases (o.is_cancelled w)) [
    | inl stop ↦ rw stop (none-Delegated (goal ∷ goals) s)
    | inr on ↦
        let config = build_sub_config c goal in
        let (first, same) =
          execute_single_subtask-Recorded o working parent goal i config s w ready in
        let w' = (execute_single_subtask o parent i goal config (some s) w).2 in
        let rest = execute_from-Delegated c goals (i + 1) first.store w' first.ready in
        rw on (next-Delegated goal goals s.tasks.rows _ _ _ _ first same (rw first.stored rest))
  ]

  -- While no statement fails and no name is made twice, each result of a delegation is recorded: the
  -- table has one more row for each, in their order, a child of the parent with the id and the goal
  -- of the result, which is finished with the answer as its only step or failed with an error. The
  -- results are of the first goals, in their order. Nothing is left in progress.
  pub execute_sequential-Delegated :
      (c : SubAgentConfig) (goals : List String) (s : Store) (w : W)
      → IsReady e parent s.tasks
      → let (results, after, w') = execute_sequential o c parent goals (some s) w in
        Delegated e parent goals s.tasks.rows results after
  unfolding execute_sequential
  execute_sequential-Delegated c goals s w ready = execute_from-Delegated c goals 0 s w ready
