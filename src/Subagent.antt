-- ===== src/Subagent.antt =====
-- src/agent/subagent.rs: tasks that are delegated to agents with narrower rights. An `AgentConfig` has
-- the fields that a delegation sets; the others are the default ones. The loop of an agent is a
-- parameter that works on a world, and does not touch the table of the tasks. Log lines are left out.
pub mod Rights
pub mod Records
pub mod Delegated
mod Examples
use bonsai_agent.Prelude.{
  ℕ, zero, suc, ◌+◌, ◌/◌, max, Bool, true, false, ◌&&◌, not, String, ◌<>◌, show, Option, none, some,
  List, [], ◌∷◌, ◌++◌, ◌⊎◌, inl, inr, str_eq, contains, take_chars, ltb, leb, any, all, length,
  is_some, is_empty, if◌then◌else◌,
}
use bonsai_agent.ToolExec.Permission.{DaemonPolicy, AutonomyLevel}
use bonsai_agent.ToolExec.Gate.{ConfirmCheck, Policy}
use bonsai_agent.Task.{
  TaskState, in_progress, completed, Connection, Engine, create, update_state, add_step, set_error,
}

-- Two levels of agents below the first.
abbrev pub max_depth : ℕ
max_depth = 2

pub record SubTaskResult : Type 0 where
  pub task_id : String
  pub goal : String
  pub answer : String
  pub iterations_used : ℕ
  pub success : Bool

pub record DelegationResult : Type 0 where
  pub results : List SubTaskResult
  pub summary : String

unfoldable pub all_succeeded : DelegationResult → Bool
all_succeeded d = all (λ r. r.success) d.results

pub data SubAgentRole : Type 0 where
  general explorer builder verifier : SubAgentRole

unfoldable pub default_tools : SubAgentRole → Option (List String)
default_tools general = none
default_tools explorer = some ("file_read" ∷ "repo_map" ∷ "recall" ∷ [])
default_tools builder = some ("file_read" ∷ "file_write" ∷ "multi_edit" ∷ [])
default_tools verifier = some ("file_read" ∷ "shell" ∷ [])

pub prompt_instruction : SubAgentRole → String
prompt_instruction general = "あなたはサブエージェントです。以下のタスクを完了してください。\n簡潔に作業し、完了したら結果を報告してください。"
prompt_instruction explorer =
    "あなたは探索特化サブエージェントです。ファイルやコードの調査に専念してください。\nコードの修正は行わず、発見した情報と結論を3行以内で簡潔に報告してください。"
prompt_instruction builder = "あなたは実装特化サブエージェントです。最小限の差分で的確に変更を行ってください。\n変更したファイルと理由を明確に報告してください。"
prompt_instruction verifier =
    "あなたは検証特化サブエージェントです。テストや構文・リントの確認を行ってください。\n合否判定とエラー原因をピンポイントで報告してください。"

pub record AgentConfig : Type 0 where
  pub max_iterations : ℕ
  pub auto_checkpoint : Bool
  pub system_prompt : String
  pub n_ctx_budget : Option ℕ
  pub allowed_tools : Option (List String)
  pub policy : Policy
  pub task_timeout : Option ℕ

pub record SubAgentConfig : Type 0 where
  pub depth : ℕ
  pub max_iterations : ℕ
  pub allowed_tools : Option (List String)
  pub n_ctx_budget : Option ℕ
  pub role : SubAgentRole
  pub policy : Policy
  pub task_timeout : Option ℕ
  pub tools_explicit : Bool

unfoldable pub from_parent : AgentConfig → ℕ → SubAgentConfig
from_parent parent_config depth = record {
  depth = depth;
  max_iterations = max (parent_config.max_iterations / 2) 3;
  allowed_tools = parent_config.allowed_tools;
  n_ctx_budget = parent_config.n_ctx_budget;
  role = general;
  policy = parent_config.policy;
  task_timeout = parent_config.task_timeout;
  tools_explicit = false;
}

unfoldable pub with_tools : List String → SubAgentConfig → SubAgentConfig
with_tools tools s = record s { allowed_tools = some tools; tools_explicit = true }

-- `parent.into_iter().filter(|t| role_default.contains(t))`.
abbrev pub intersection : List String → List String → List String
intersection [] role_default = []
intersection (t ∷ ts) role_default =
    let rest = intersection ts role_default in
    if any (λ d. str_eq d t) role_default then t ∷ rest else rest

unfoldable pub narrowed : Option (List String) → Option (List String) → Option (List String)
narrowed (some parent) (some role_default) = some (intersection parent role_default)
narrowed none (some role_default) = some role_default
narrowed parent none = parent

unfoldable pub with_role : SubAgentRole → SubAgentConfig → SubAgentConfig
with_role role s =
    if s.tools_explicit
    then record s { role = role }
    else record s { role = role; allowed_tools = narrowed s.allowed_tools (default_tools role) }

unfoldable pub can_delegate : SubAgentConfig → Bool
can_delegate s = ltb s.depth max_depth

unfoldable pub build_sub_config : SubAgentConfig → String → AgentConfig
build_sub_config s goal = record {
  max_iterations = s.max_iterations;
  auto_checkpoint = false;
  system_prompt = prompt_instruction s.role <> ("\n\nタスク: " <> goal);
  n_ctx_budget = s.n_ctx_budget;
  allowed_tools = s.allowed_tools;
  policy = s.policy;
  task_timeout = s.task_timeout;
}

unfoldable pub should_parallelize : Bool → Bool → ℕ → Bool → Bool
should_parallelize independent store_clonable goal_count has_confirm_callback =
    independent && store_clonable && leb 2 goal_count && not has_confirm_callback

abbrev pub dep_markers : List String
dep_markers =
    "前の" ∷ "先の" ∷ "上記" ∷ "下記" ∷ "さっき" ∷ "その後" ∷ "次に" ∷ "続いて" ∷ "それから" ∷ "最初に" ∷ "最後に" ∷ "ステップ"
    ∷ "previous" ∷ "above" ∷ "below" ∷ "then " ∷ "after " ∷ "subsequently" ∷ "finally" ∷ "first,"
    ∷ "last," ∷ []

unfoldable pub check_independence : List String → Bool
check_independence goals =
    if ltb (length goals) 2
    then false
    else not (any (λ g. any (λ m. contains g m) dep_markers) goals)

pub record TaskComplete : Type 0 where
  pub task_summary : String
  pub total_steps : ℕ

pub record Store : Type 0 where
  pub path : Option String
  pub tasks : Connection
  pub audits : List TaskComplete

pub record LoopAnswer : Type 0 where
  pub answer : String
  pub iterations_used : ℕ

-- The loop of an agent answers or fails with an error.
pub record Outside (W : Type 0) : Type 0 where
  pub engine : Engine
  pub is_cancelled : W → Bool
  pub run_agent_loop : String → AgentConfig → W → (LoopAnswer ⊎ String) × W

module _ {W : Type 0} (o : Outside W) where
  begun : Store → Option String × Connection → Option String × Option Store
  begun s (none, tasks) = (none, some (record s { tasks = tasks }))
  begun s (some id, tasks) =
      (some id, some (record s { tasks = (update_state o.engine id in_progress tasks).1 }))

  -- The task of a goal, if it could be registered.
  unfoldable pub register : String → String → Option Store → Option String × Option Store
  unfolding begun
  register parent_task_id goal none = (none, none)
  register parent_task_id goal (some s) =
      begun s (create o.engine goal (some parent_task_id) s.tasks)

  abbrev audited : String → LoopAnswer → Store → Store
  audited goal r s = record s {
    audits =
        s.audits
        ++ record { task_summary = take_chars 100 goal; total_steps = r.iterations_used } ∷ [];
  }

  unfoldable pub record_success : Option String → String → LoopAnswer → Option Store → Option Store
  record_success task_id goal r none = none
  record_success none goal r (some s) = some (audited goal r s)
  record_success (some id) goal r (some s) =
      let finished = (update_state o.engine id completed s.tasks).1 in
      some (audited goal r (record s { tasks = (add_step o.engine id "完了" r.answer finished).1 }))

  unfoldable pub record_error : Option String → String → Option Store → Option Store
  record_error (some id) error (some s) =
      some (record s { tasks = (set_error o.engine id error s.tasks).1 })
  record_error _ error s = s

  abbrev pub task_name : Option String → ℕ → String
  task_name none index = "sub-" <> show index
  task_name (some id) index = id

  conclude :
      Option String → ℕ → String → LoopAnswer ⊎ String → Option Store → SubTaskResult × Option Store
  conclude task_id index goal (inl r) s = (
    record {
      task_id = task_name task_id index;
      goal = goal;
      answer = r.answer;
      iterations_used = r.iterations_used;
      success = true;
    },
    record_success task_id goal r s,
  )
  conclude task_id index goal (inr error) s = (
    record {
      task_id = task_name task_id index;
      goal = goal;
      answer = "エラー: " <> error;
      iterations_used = 0;
      success = false;
    },
    record_error task_id error s,
  )

  unfoldable pub execute_single_subtask :
      String → ℕ → String → AgentConfig → Option Store → W → SubTaskResult × Option Store × W
  unfolding conclude
  execute_single_subtask parent_task_id index goal config store w =
      let (task_id, store') = register parent_task_id goal store in
      let (outcome, w') = o.run_agent_loop goal config w in
      let (result, store'') = conclude task_id index goal outcome store' in (result, store'', w')

  execute_from :
      SubAgentConfig
      → String
      → ℕ
      → List String
      → Option Store
      → W
      → List SubTaskResult × Option Store × W
  execute_from s parent_task_id i [] store w = ([], store, w)
  execute_from s parent_task_id i (goal ∷ goals) store w =
      let (result, store', w') =
        execute_single_subtask parent_task_id i goal (build_sub_config s goal) store w in
      let (results, store'', w'') = execute_from s parent_task_id (i + 1) goals store' w' in
      if o.is_cancelled w then ([], store, w) else (result ∷ results, store'', w'')

  unfoldable pub execute_sequential :
      SubAgentConfig
      → String
      → List String
      → Option Store
      → W
      → List SubTaskResult × Option Store × W
  unfolding execute_from
  execute_sequential s parent_task_id goals store w = execute_from s parent_task_id 0 goals store w

-- What came of the threads: none stands for one that panicked.
unfoldable pub joined : List (Option SubTaskResult) → List SubTaskResult
joined [] = []
joined (some r ∷ rs) = r ∷ joined rs
joined (none ∷ rs) =
    record {
      task_id = "panic";
      goal = "panic";
      answer = "スレッドがパニック";
      iterations_used = 0;
      success = false;
    }
    ∷ joined rs

abbrev pub count_successes : List SubTaskResult → ℕ
count_successes [] = 0
count_successes (r ∷ rs) = let rest = count_successes rs in if r.success then rest + 1 else rest

summary_lines : ℕ → List SubTaskResult → String
summary_lines i [] = ""
summary_lines i (r ∷ rs) =
    show (i + 1)
    <> (". ["
        <> ((if r.success then "OK" else "NG")
            <> ("] "
                <> (r.goal
                    <> (" ("
                        <> (show r.iterations_used
                            <> ("ステップ)\n   -> "
                                <> (take_chars 100 r.answer
                                    <> ("\n\n" <> summary_lines (i + 1) rs)))))))))

unfoldable pub build_summary : List SubTaskResult → String
unfolding summary_lines
build_summary results =
    "## サブタスク実行結果 ("
    <> (show (count_successes results)
        <> ("/" <> (show (length results) <> ("成功)\n\n" <> summary_lines 0 results))))

-- `s.path().is_some()`, and true where there is no store.
abbrev pub is_clonable : Option Store → Bool
is_clonable none = true
is_clonable (some s) = is_some s.path

abbrev pub delegated :
    {W : Type 0} → List SubTaskResult × Option Store × W → DelegationResult × Option Store × W
delegated (results, store, w) =
    (record { results = results; summary = build_summary results }, store, w)

-- `threads` is what the threads leave where the goals run in parallel: their results, in the order of
-- the goals, the store and the world.
unfoldable pub execute :
    {W : Type 0}
    → Outside W
    → SubAgentConfig
    → String
    → List String
    → List (Option SubTaskResult) × Option Store × W
    → Option Store
    → W
    → DelegationResult × Option Store × W
execute o s parent_task_id goals threads store w =
    let has_confirm = is_some s.policy.confirm_callback in
    let parallel =
      should_parallelize (check_independence goals) (is_clonable store) (length goals)
        has_confirm in
    if not (can_delegate s)
    then (
      record {
        results = [];
        summary = "委任深度上限(" <> (show max_depth <> ")に達したため、サブタスクは実行されませんでした");
      },
      store,
      w,
    )
    else if is_empty goals
    then (record { results = []; summary = "サブタスクがありません" }, store, w)
    else delegated (
        if parallel
        then (joined threads.0, threads.1, threads.2)
        else execute_sequential o s parent_task_id goals store w)

unfoldable pub format_delegation_for_context : DelegationResult → String
format_delegation_for_context result =
    "<context type=\"subtask-results\">\n" <> (result.summary <> "\n</context>")
