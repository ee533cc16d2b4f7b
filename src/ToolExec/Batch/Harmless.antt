-- ===== src/ToolExec/Batch/Harmless.antt =====
-- What a step leaves alone, and what it forgets.
use bonsai_agent.Prelude.{
  ℕ, Bool, true, false, not, String, ◌<>◌, ◌≡◌, refl, sym, ap, ◌∙◌, Option, none, some, List, [],
  ◌∷◌, ◌++◌, all, arith, HashMap, Bool-cases, inl, inr, starts_with,
}
use text.Mathlib.TextPositions.{starts_with-append}
use text.Mathlib.TextLemmas
use bonsai_agent.ToolExec.Gate.{
  ValidatedCall, ToolExecResult, ToolResult, Policy, execute_single_call_with_policy,
  execute_read_batch_parallel,
}
use bonsai_agent.ToolExec.Gate.Granted.{granted, granted_runs}
use bonsai_agent.ToolExec.Apply.{Json, is_failed}
use bonsai_agent.ToolExec.Cache.{ToolResultCache, invalidate, make_key}
use bonsai_agent.ToolExec.Cache.Contents.{answer, answer_after}
use bonsai_agent.ToolExec.Batch.Answers.{read_step, write_step}
use bonsai_agent.ToolExec.Batch.{
  Execution, record_edit_and_nudge, edited, nudged, read_done, reads_done, run_cached, answered,
  run_single, run_reads, run_write, run_from, execute_validated_calls,
}

pub invalidated :
    {V : Type 0} (to_text : V → String) (tool : String) (args : V) (c : ToolResultCache)
    → answer to_text (invalidate tool c) tool args ≡ none
invalidated to_text tool args c =
    let starts : starts_with (make_key to_text tool args) (tool <> ":") ≡ true =
      ap (λ s. starts_with s (tool <> ":")) (sym (TextLemmas.append_assoc tool ":" (to_text args)))
      ∙ starts_with-append (tool <> ":") (to_text args) in
    (answer_after to_text c tool tool args args
      (record { output = ""; success = true; cancelled = false })).1
    ∙ rw starts refl

invalidated_stays :
    {V : Type 0} (to_text : V → String) (tool other : String) (args : V) (c : ToolResultCache)
    → answer to_text c other args ≡ none
    → answer to_text (invalidate tool c) other args ≡ none
invalidated_stays to_text tool other args c gone =
    (answer_after to_text c tool other args args
      (record { output = ""; success = true; cancelled = false })).1
    ∙ rw gone (ground arith)

module _ {W V : Type 0} (json : Json V) (mask : String → String) (truncate : String → ℕ → String)
    (now : W → ℕ) (file_name : String → String) (keys_of : HashMap ℕ → List String)
    (policy : Policy) (iteration : ℕ) where
  -- After a call that writes, refused or not, the cache answers no reading of a file and no map of
  -- the repository, whatever their arguments.
  pub run_write-forgets :
      (call : ValidatedCall W V) (x : Execution W) (args : V)
      → let x' = run_write json mask truncate now file_name keys_of policy iteration call x in
        (answer json.to_text x'.cache "file_read" args ≡ none)
        × (answer json.to_text x'.cache "repo_map" args ≡ none)
  unfolding run_write
  run_write-forgets call x args = (
    invalidated_stays json.to_text "repo_map" "file_read" args _
        (invalidated json.to_text "file_read" args _),
    invalidated json.to_text "repo_map" args _,
  )

  abbrev pub refused_all : List (ValidatedCall W V) → Bool
  refused_all = all (λ c. not (granted policy c))

  refused_cons :
      (call : ValidatedCall W V) (calls : List (ValidatedCall W V))
      → refused_all (call ∷ calls) ≡ true
      → (granted policy call ≡ false) × (refused_all calls ≡ true)
  refused_cons call calls h = ground arith

  refused_snoc :
      (batch : List (ValidatedCall W V)) (call : ValidatedCall W V)
      → refused_all batch ≡ true
      → granted policy call ≡ false
      → refused_all (batch ++ call ∷ []) ≡ true
  refused_snoc [] call before here = ground arith
  refused_snoc (b ∷ batch) call before here =
      let (first, others) = refused_cons b batch before in
      ground (arith, refused_snoc batch call others here)

  single-world :
      (call : ValidatedCall W V) (w : W)
      → granted policy call ≡ false
      → (execute_single_call_with_policy policy call w).1 ≡ w
  single-world call w refused =
      let (world, error, failed, cancelled, name, args) = (granted_runs policy call w).1 refused in
      world

  batch-world :
      (batch : List (ValidatedCall W V)) (w : W)
      → refused_all batch ≡ true
      → (execute_read_batch_parallel policy batch w).1 ≡ w
  unfolding execute_read_batch_parallel
  batch-world [] w refused = refl
  batch-world (call ∷ batch) w refused =
      let (here, there) = refused_cons call batch refused in
      batch-world batch _ there ∙ single-world call w here

  reads_done-world :
      (rs : List ToolExecResult) (x : Execution W)
      → (reads_done json mask truncate now file_name keys_of policy iteration rs x).world ≡ x.world
  unfolding reads_done read_done
  reads_done-world [] x = refl
  reads_done-world (r ∷ rs) x = reads_done-world rs _

  answered-world :
      (call : ValidatedCall W V) (hit : Option ToolResult) (x : Execution W)
      → granted policy call ≡ false
      → (answered json mask truncate now file_name keys_of policy iteration call hit x).world
        ≡ x.world
  unfolding answered run_single read_done
  answered-world call none x refused = single-world call x.world refused
  answered-world call (some cached) x refused = refl

  run_reads-world :
      (batch : List (ValidatedCall W V)) (x : Execution W)
      → refused_all batch ≡ true
      → (run_reads json mask truncate now file_name keys_of policy iteration batch x).world
        ≡ x.world
  unfolding run_reads run_cached
  run_reads-world [] x refused = refl
  run_reads-world (call ∷ []) x refused = answered-world call _ _ (refused_cons call [] refused).0
  run_reads-world (a ∷ b ∷ batch) x refused =
      reads_done-world _ _ ∙ batch-world (a ∷ b ∷ batch) x.world refused

  edited-world :
      (path : Option String) (x : Execution W)
      → (edited json mask truncate now file_name keys_of policy iteration path x).world ≡ x.world
  unfolding edited nudged
  edited-world path x = ground arith

  run_write-world :
      (call : ValidatedCall W V) (x : Execution W)
      → granted policy call ≡ false
      → (run_write json mask truncate now file_name keys_of policy iteration call x).world ≡ x.world
  unfolding run_write record_edit_and_nudge
  run_write-world call x refused =
      let r = (execute_single_call_with_policy policy call x.world).0 in
      elim (Bool-cases (is_failed r)) [
        | inl failed ↦ rw failed (single-world call x.world refused)
        | inr succeeded ↦ rw (succeeded, edited-world) (single-world call x.world refused)
      ]

  run_from-world :
      (batch calls : List (ValidatedCall W V)) (x : Execution W)
      → refused_all batch ≡ true
      → refused_all calls ≡ true
      → (run_from json mask truncate now file_name keys_of policy iteration batch calls x).world
        ≡ x.world
  unfolding run_from
  run_from-world batch [] x before after = run_reads-world batch x before
  run_from-world batch (call ∷ calls) x before after =
      let (here, there) = refused_cons call calls after in
      elim (Bool-cases call.is_read_only) [
        | inl reads ↦
            ap (λ (y : Execution W). y.world)
              (read_step json mask truncate now file_name keys_of policy iteration batch calls call
                x reads)
            ∙ run_from-world (batch ++ call ∷ []) calls x (refused_snoc batch call before here)
                there
        | inr writes ↦
            ap (λ (y : Execution W). y.world)
              (write_step json mask truncate now file_name keys_of policy iteration batch calls call
                x writes)
            ∙ run_from-world [] calls _ refl there
            ∙ run_write-world call _ here
            ∙ run_reads-world batch x before
      ]

  -- A step all of whose calls are refused leaves the world as it was: no tool is called.
  pub execute_validated_calls-world :
      (calls : List (ValidatedCall W V)) (x : Execution W)
      → refused_all calls ≡ true
      → (execute_validated_calls json mask truncate now file_name keys_of policy iteration calls
          x).world
        ≡ x.world
  unfolding execute_validated_calls
  execute_validated_calls-world calls x refused = run_from-world [] calls _ refl refused
