-- ===== src/ToolExec/Batch.antt =====
-- src/agent/tool_exec.rs: `execute_validated_calls`. `now` reads the clock of the world.
pub mod Answers
pub mod Harmless
mod Examples
use Prim.Native.Char.{code}
use bonsai_agent.Prelude.{
  ℕ, zero, suc, ◌+◌, Bool, true, false, not, ◌&&◌, ◌||◌, String, ◌<>◌, len, Option, none, some,
  List, [], ◌∷◌, ◌++◌, HashMap, str_eq, ◌==◌, split_at, trim_text, if◌then◌else◌,
}
use bonsai_agent.Conversation.{system_message, tool_message}
use bonsai_agent.Recovery.EditCycle as EditCycle
use bonsai_agent.ToolExec.Gate.{
  ValidatedCall, ToolExecResult, Policy, execute_single_call_with_policy,
  execute_read_batch_parallel, ToolResult,
}
use bonsai_agent.ToolExec.Cache as Cache
use bonsai_agent.ToolExec.Apply.{
  Json, Trace, StoreWrite, tool_call_start, tool_call_end, audit_multi_file_nudge, write, say,
  is_failed, path_member, apply_tool_result,
}

-- What the execution of the calls of a step changes, and what it returns.
pub record Execution (W : Type 0) : Type 0 where
  pub trace : Trace
  pub cache : Cache.ToolResultCache
  pub cycle_detector : EditCycle.MultiFileEditCycleDetector
  pub world : W
  pub step_tools : List String
  pub all_succeeded : Bool

-- `split(',')`, each piece trimmed, the empty ones left out.
add_piece : String → List String → List String
add_piece piece rest = let p = trim_text piece in if str_eq p "" then rest else p ∷ rest

pieces : String → String → List String
unfolding add_piece
pieces piece String.[] = add_piece piece []
pieces piece (String.◌∷◌ c s) =
    let next = pieces (if code c == b',' then "" else piece <> String.◌∷◌ c String.[]) s in
    if code c == b',' then add_piece piece next else next

unfoldable pub parse_nudge_files : String → List String
unfolding pieces
parse_nudge_files nudge = elim (split_at "ファイル " nudge) [
  | none ↦ []
  | some (before, after) ↦ elim (split_at " を交互に" after) [
    | none ↦ []
    | some (names, rest) ↦ pieces "" names
  ]
]

module _ {W V : Type 0} (json : Json V) (mask : String → String) (truncate : String → ℕ → String)
    (now : W → ℕ) (file_name : String → String) (keys_of : HashMap ℕ → List String)
    (policy : Policy) (iteration : ℕ) where
  unfoldable pub extract_edit_path : String → V → Option String
  extract_edit_path name args =
      if not (str_eq name "file_write") && not (str_eq name "multi_edit")
      then none
      else path_member json args

  nudged : Option String → Execution W → Execution W
  nudged none x = x
  nudged (some nudge) x = record x {
    trace =
        write
          (audit_multi_file_nudge (parse_nudge_files nudge) x.cycle_detector.nudge_fire_count
              (len nudge)
            ∷ [])
          (say (system_message nudge) x.trace);
  }

  edited : Option String → Execution W → Execution W
  unfolding nudged
  edited none x = x
  edited (some path) x =
      let (detector, nudge) = EditCycle.record_and_check file_name keys_of x.cycle_detector path in
      nudged nudge (record x { cycle_detector = detector })

  unfoldable pub record_edit_and_nudge : String → V → Execution W → Execution W
  unfolding edited nudged
  record_edit_and_nudge name args x = edited (extract_edit_path name args) x

  put_parsed : ToolExecResult → Option V → Cache.ToolResultCache → Cache.ToolResultCache
  put_parsed r none cache = cache
  put_parsed r (some args) cache =
      Cache.put json.to_text r.name args
        (record { output = mask r.output; success = r.success; cancelled = false }) cache

  -- The outcome of a result, its trace, and the name of its tool.
  abbrev pub finish : ToolExecResult → Execution W → Execution W
  finish r x = record x {
    trace = apply_tool_result json mask truncate r iteration (now x.world) 4000 x.trace;
    step_tools = x.step_tools ++ r.name ∷ [];
    all_succeeded = x.all_succeeded && not (is_failed r);
  }

  unfoldable pub read_done : ToolExecResult → Execution W → Execution W
  unfolding put_parsed
  read_done r x = finish r (record x {
    cache = if is_failed r then x.cache else put_parsed r (json.parse r.args_json) x.cache;
  })

  unfoldable pub reads_done : List ToolExecResult → Execution W → Execution W
  reads_done [] x = x
  reads_done (r ∷ rs) x = reads_done rs (read_done r x)

  run_single : ValidatedCall W V → Execution W → Execution W
  run_single call x =
      let (r, world) = execute_single_call_with_policy policy call x.world in
      read_done r (record x { world = world })

  -- What the cache answers, as the result of the call.
  answered : ValidatedCall W V → Option ToolResult → Execution W → Execution W
  unfolding run_single
  answered call none x = run_single call x
  answered call (some cached) x = record x {
    trace =
        write (tool_call_start call.name ∷ tool_call_end call.name cached.success ∷ [])
          (say (tool_message (mask cached.output) call.name) x.trace);
    step_tools = x.step_tools ++ call.name ∷ [];
  }

  unfoldable pub run_cached : ValidatedCall W V → Execution W → Execution W
  unfolding answered run_single
  run_cached call x =
      let (hit, cache) = Cache.get json.to_text call.name call.coerced_args x.cache in
      answered call hit (record x { cache = cache })

  -- A run of readings: one alone asks the cache first, two or more run in parallel.
  unfoldable pub run_reads : List (ValidatedCall W V) → Execution W → Execution W
  run_reads [] x = x
  run_reads (call ∷ []) x = run_cached call x
  run_reads (a ∷ b ∷ batch) x =
      let (rs, world) = execute_read_batch_parallel policy (a ∷ b ∷ batch) x.world in
      reads_done rs (record x { world = world })

  unfoldable pub run_write : ValidatedCall W V → Execution W → Execution W
  run_write call x =
      let (r, world) = execute_single_call_with_policy policy call x.world in
      let x₁ = record x { world = world } in
      let x₂ = if is_failed r then x₁ else record_edit_and_nudge r.name call.coerced_args x₁ in
      let x₃ = finish r x₂ in
      record x₃ { cache = Cache.invalidate "repo_map" (Cache.invalidate "file_read" x₃.cache) }

  -- The loop over the calls, with the readings since the last write in `batch`.
  unfoldable pub run_from :
      List (ValidatedCall W V) → List (ValidatedCall W V) → Execution W → Execution W
  run_from batch [] x = run_reads batch x
  run_from batch (call ∷ calls) x = elim call.is_read_only [
    | true ↦ run_from (batch ++ call ∷ []) calls x
    | false ↦ run_from [] calls (run_write call (run_reads batch x))
  ]

  unfoldable pub execute_validated_calls : List (ValidatedCall W V) → Execution W → Execution W
  execute_validated_calls calls x =
      run_from [] calls (record x { step_tools = []; all_succeeded = true })
