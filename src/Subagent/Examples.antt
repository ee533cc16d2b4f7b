-- ===== src/Subagent/Examples.antt =====
-- Delegations under the sample engine: a loop that fails on one goal, and counts its calls.
use bonsai_agent.Prelude.{
  ℕ, ◌+◌, true, false, ◌≡◌, refl, ◌⊎◌, inl, inr, String, some, none, List, [], ◌∷◌, str_eq, arith,
  if◌then◌else◌,
}
use bonsai_agent.ToolExec.Permission.{auto_only, supervised}
use bonsai_agent.Task.{Row, new_row}
use bonsai_agent.Task.Samples.{sample, sample-ReadsLogs, unique, name_of-ne, size}
use bonsai_agent.Subagent.{
  AgentConfig, Store, LoopAnswer, Outside, explorer, verifier, from_parent, with_tools, with_role,
  narrowed, default_tools, execute_sequential, execute, all_succeeded, can_delegate,
}
use bonsai_agent.Subagent.Rights.{Delegation, Narrows, descendant_of, descendant_of-Narrows}
use bonsai_agent.Subagent.Records.{IsWorking, IsReady}
use bonsai_agent.Subagent.Delegated.{Delegated, execute_sequential-Delegated}

abbrev root : AgentConfig
root = record {
  max_iterations = 10;
  auto_checkpoint = true;
  system_prompt = "";
  n_ctx_budget = none;
  allowed_tools = some ("file_read" ∷ "file_write" ∷ []);
  policy = record {
    is_daemon = false;
    daemon_policy = auto_only;
    autonomy = supervised;
    confirm_callback = none;
  };
  task_timeout = some 60;
}

abbrev chain : List Delegation
chain =
    record { depth = 0; roles = explorer ∷ []; goal = "look" }
    ∷ record { depth = 1; roles = verifier ∷ []; goal = "test" }
    ∷ []

descendant_of-Narrows_example : Narrows root (descendant_of root chain)
descendant_of-Narrows_example = descendant_of-Narrows root chain

-- An agent that checks has no shell below one that has none.
no_shell : (with_role verifier (from_parent root 0)).allowed_tools ≡ some ("file_read" ∷ [])
unfolding with_role from_parent narrowed default_tools
no_shell = refl

-- A list of tools that is given by hand is not compared with that of the parent.
shell_by_hand :
    (with_role verifier (with_tools ("shell" ∷ []) (from_parent root 0))).allowed_tools
    ≡ some ("shell" ∷ [])
unfolding with_role with_tools from_parent
shell_by_hand = refl

loop : String → AgentConfig → ℕ → (LoopAnswer ⊎ String) × ℕ
loop goal config calls =
    if str_eq goal "bad"
    then (inr "no", calls + 1)
    else (inl (record { answer = goal; iterations_used = 2 }), calls + 1)

outside : Outside ℕ
unfolding loop
outside = record { engine = sample; is_cancelled = λ calls. false; run_agent_loop = loop }

abbrev parent : Row
parent = new_row "root" "all" none "now"

abbrev at_start : Store
at_start = record {
  path = none;
  tasks = record { rows = parent ∷ []; statements = 100 };
  audits = [];
}

sample-IsWorking : IsWorking outside.engine
unfolding outside sample
sample-IsWorking = record { works = λ n. refl; reading = sample-ReadsLogs; unique = unique }

at_start-IsReady : IsReady outside.engine "root" at_start.tasks
unfolding outside sample size
at_start-IsReady = record {
  known = refl;
  new_names = λ n h. ground (arith, name_of-ne n "root" (λ e. omega (arith, e)));
}

execute_sequential-Delegated_example :
    let (results, after, calls) =
      execute_sequential outside
        (from_parent root 0)
        "root"
        ("good" ∷ "bad" ∷ [])
        (some at_start)
        0 in
    Delegated outside.engine "root" ("good" ∷ "bad" ∷ []) at_start.tasks.rows results after
execute_sequential-Delegated_example =
    execute_sequential-Delegated outside sample-IsWorking "root" (from_parent root 0)
      ("good" ∷ "bad" ∷ []) at_start 0 at_start-IsReady

-- Too deep a delegation runs nothing, and counts as a success.
too_deep :
    all_succeeded (execute outside (from_parent root 2) "root" ("good" ∷ []) ([], none, 0) none 0).0
    ≡ true
unfolding all_succeeded execute can_delegate from_parent
too_deep = refl
