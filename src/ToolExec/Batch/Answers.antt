-- ===== src/ToolExec/Batch/Answers.antt =====
-- Which tools a step reports.
use bonsai_agent.Prelude.{
  ℕ, true, false, String, ap₂, ◌≡◌, refl, ap, ◌∙◌, Option, none, some, List, [], ◌∷◌, ◌++◌, map,
  append_assoc, append-nil, arith, HashMap, Bool-cases, inl, inr, ◌⊎◌,
}
use mathlib.Core.List.{map-append}
use bonsai_agent.ToolExec.Gate.{
  ValidatedCall, ToolExecResult, ToolResult, Policy, execute_single_call_with_policy,
  execute_read_batch_parallel, of_outcome,
}
use bonsai_agent.ToolExec.Gate.Granted.{granted, granted_runs}
use bonsai_agent.ToolExec.Apply.{Json, is_failed}
use bonsai_agent.ToolExec.Batch.{
  Execution, record_edit_and_nudge, edited, nudged, read_done, reads_done, run_cached, answered,
  run_single, run_reads, run_write, run_from, execute_validated_calls,
}

result_names : List ToolExecResult → List String
result_names [] = []
result_names (r ∷ rs) = r.name ∷ result_names rs

module _ {W V : Type 0} where
  abbrev pub names : List (ValidatedCall W V) → List String
  names = map (λ (c : ValidatedCall W V). c.name)

  of_outcome-name :
      (call : ValidatedCall W V) (o : String ⊎ ToolResult) → (of_outcome call o).name ≡ call.name
  of_outcome-name call (inl e) = refl
  of_outcome-name call (inr r) = refl

  result-name :
      (p : Policy) (call : ValidatedCall W V) (w : W)
      → (execute_single_call_with_policy p call w).0.name ≡ call.name
  result-name p call w = elim (Bool-cases (granted p call)) [
    | inl runs ↦
        ap (λ (x : ToolExecResult × W). x.0.name) ((granted_runs p call w).0 runs)
        ∙ of_outcome-name call _
    | inr refused ↦
        let (world, error, failed, cancelled, name, args) = (granted_runs p call w).1 refused in
        name
  ]

  batch-names :
      (p : Policy) (batch : List (ValidatedCall W V)) (w : W)
      → result_names (execute_read_batch_parallel p batch w).0 ≡ names batch
  unfolding result_names execute_read_batch_parallel
  batch-names p [] w = refl
  batch-names p (call ∷ batch) w =
      ap₂ (λ (n : String) ns. n ∷ ns) (result-name p call w) (batch-names p batch _)

  module _ (json : Json V) (mask : String → String) (truncate : String → ℕ → String) (now : W → ℕ)
      (file_name : String → String) (keys_of : HashMap ℕ → List String) (policy : Policy)
      (iteration : ℕ) where
    reads_done-tools :
        (rs : List ToolExecResult) (x : Execution W)
        → (reads_done json mask truncate now file_name keys_of policy iteration rs x).step_tools
          ≡ x.step_tools ++ result_names rs
    unfolding reads_done read_done result_names
    reads_done-tools [] x = rw append-nil refl
    reads_done-tools (r ∷ rs) x =
        reads_done-tools rs _ ∙ append_assoc x.step_tools (r.name ∷ []) (result_names rs)

    answered-tools :
        (call : ValidatedCall W V) (hit : Option ToolResult) (x : Execution W)
        → (answered json mask truncate now file_name keys_of policy iteration call hit x).step_tools
          ≡ x.step_tools ++ call.name ∷ []
    unfolding answered run_single read_done
    answered-tools call none x = rw result-name refl
    answered-tools call (some cached) x = refl

    run_cached-tools :
        (call : ValidatedCall W V) (x : Execution W)
        → (run_cached json mask truncate now file_name keys_of policy iteration call x).step_tools
          ≡ x.step_tools ++ call.name ∷ []
    unfolding run_cached
    run_cached-tools call x = answered-tools call _ _

    run_reads-tools :
        (batch : List (ValidatedCall W V)) (x : Execution W)
        → (run_reads json mask truncate now file_name keys_of policy iteration batch x).step_tools
          ≡ x.step_tools ++ names batch
    unfolding run_reads
    run_reads-tools [] x = rw append-nil refl
    run_reads-tools (call ∷ []) x = run_cached-tools call x
    run_reads-tools (a ∷ b ∷ batch) x =
        reads_done-tools _ _
        ∙ ap (λ ns. x.step_tools ++ ns) (batch-names policy (a ∷ b ∷ batch) x.world)

    edited-tools :
        (path : Option String) (x : Execution W)
        → (edited json mask truncate now file_name keys_of policy iteration path x).step_tools
          ≡ x.step_tools
    unfolding edited nudged
    edited-tools path x = ground arith

    edit-tools :
        (name : String) (args : V) (x : Execution W)
        → (record_edit_and_nudge json mask truncate now file_name keys_of policy iteration name args
            x).step_tools
          ≡ x.step_tools
    unfolding record_edit_and_nudge
    edit-tools name args x = edited-tools _ x

    run_write-tools :
        (call : ValidatedCall W V) (x : Execution W)
        → (run_write json mask truncate now file_name keys_of policy iteration call x).step_tools
          ≡ x.step_tools ++ call.name ∷ []
    unfolding run_write
    run_write-tools call x =
        let r = (execute_single_call_with_policy policy call x.world).0 in
        elim (Bool-cases (is_failed r)) [
          | inl failed ↦ rw (failed, result-name) refl
          | inr succeeded ↦ rw (succeeded, edit-tools, result-name) refl
        ]

    pub read_step :
        (batch calls : List (ValidatedCall W V)) (call : ValidatedCall W V) (x : Execution W)
        → call.is_read_only ≡ true
        → run_from json mask truncate now file_name keys_of policy iteration batch (call ∷ calls) x
          ≡ run_from json mask truncate now file_name keys_of policy iteration
              (batch ++ call ∷ [])
              calls
              x
    unfolding run_from
    read_step batch calls call x reads = simp reads

    pub write_step :
        (batch calls : List (ValidatedCall W V)) (call : ValidatedCall W V) (x : Execution W)
        → call.is_read_only ≡ false
        → run_from json mask truncate now file_name keys_of policy iteration batch (call ∷ calls) x
          ≡ run_from json mask truncate now file_name keys_of policy iteration [] calls (
              run_write json mask truncate now file_name keys_of policy iteration call
                (run_reads json mask truncate now file_name keys_of policy iteration batch x))
    unfolding run_from
    write_step batch calls call x writes = simp writes

    run_from-tools :
        (batch calls : List (ValidatedCall W V)) (x : Execution W)
        → (run_from json mask truncate now file_name keys_of policy iteration batch calls
            x).step_tools
          ≡ x.step_tools ++ (names batch ++ names calls)
    unfolding run_from
    run_from-tools batch [] x = rw append-nil (run_reads-tools batch x)
    run_from-tools batch (call ∷ calls) x = elim (Bool-cases call.is_read_only) [
      | inl reads ↦
          ap (λ (y : Execution W). y.step_tools) (read_step batch calls call x reads)
          ∙ (run_from-tools (batch ++ call ∷ []) calls x
              ∙ ap (λ ns. x.step_tools ++ ns)
                  (ap (λ ns. ns ++ names calls) (map-append _ batch (call ∷ []))
                    ∙ append_assoc (names batch) (call.name ∷ []) (names calls)))
      | inr writes ↦
          ap (λ (y : Execution W). y.step_tools) (write_step batch calls call x writes)
          ∙ (run_from-tools [] calls _
              ∙ ap (λ ns. ns ++ names calls)
                  (run_write-tools call _
                    ∙ ap (λ ns. ns ++ call.name ∷ []) (run_reads-tools batch x))
              ∙ append_assoc (x.step_tools ++ names batch) (call.name ∷ []) (names calls)
              ∙ append_assoc x.step_tools (names batch) (call.name ∷ names calls))
    ]

    -- A step reports every call once, in their order, whether it was read from the cache, ran in
    -- parallel, ran alone, or was refused.
    pub execute_validated_calls-tools :
        (calls : List (ValidatedCall W V)) (x : Execution W)
        → (execute_validated_calls json mask truncate now file_name keys_of policy iteration calls
            x).step_tools
          ≡ names calls
    unfolding execute_validated_calls
    execute_validated_calls-tools calls x = run_from-tools [] calls _
