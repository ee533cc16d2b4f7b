-- ===== src/ToolExec/Gate.antt =====
-- src/agent/tool_exec.rs: the gate of permission and autonomy before a tool, and the batch of
-- readings. `W` is the world that a tool acts on and `V` a JSON value. The readings of a batch run in
-- parallel in the source; here they act on the world in the order of the batch, in which the source
-- collects their results.
pub mod Granted
mod Examples
use bonsai_agent.Prelude.{
  Bool, true, false, ◌&&◌, not, String, ◌<>◌, Option, none, some, List, [], ◌∷◌, ◌⊎◌, inl, inr,
  if◌then◌else◌,
}
use bonsai_agent.ToolExec.Permission.{
  Permission, DaemonPolicy, PermissionDecision, allow, need_confirmation, queue_for_later, denied,
  check_permission, AutonomyLevel, read_only, supervised, full, can_write, debug_permission,
  debug_autonomy,
}

pub record ToolResult : Type 0 where
  pub output : String
  pub success : Bool
  pub cancelled : Bool

-- What the gate reads and calls of the trait `Tool`.
pub record Tool (W V : Type 0) : Type 0 where
  pub permission : Permission
  pub call : V → W → (String ⊎ ToolResult) × W

pub record ValidatedCall (W V : Type 0) : Type 0 where
  pub name : String
  pub args_json : String
  pub coerced_args : V
  pub tool : Tool W V
  pub is_read_only : Bool

pub record ToolExecResult : Type 0 where
  pub name : String
  pub args_json : String
  pub output : String
  pub success : Bool
  pub is_error : Bool
  pub cancelled : Bool

abbrev pub ConfirmCheck : Type 0
ConfirmCheck = String → String → Bool

-- What the configuration holds for the gate.
pub record Policy : Type 0 where
  pub is_daemon : Bool
  pub daemon_policy : DaemonPolicy
  pub autonomy : AutonomyLevel
  pub confirm_callback : Option ConfirmCheck

module _ {W V : Type 0} where
  abbrev pub refuse : ValidatedCall W V → String → ToolExecResult
  refuse call output = record {
    name = call.name;
    args_json = call.args_json;
    output = output;
    success = false;
    is_error = true;
    cancelled = false;
  }

  abbrev pub of_outcome : ValidatedCall W V → String ⊎ ToolResult → ToolExecResult
  of_outcome call (inl e) = refuse call ("ツール実行エラー: " <> e)
  of_outcome call (inr r) = record {
    name = call.name;
    args_json = call.args_json;
    output = r.output;
    success = r.success;
    is_error = false;
    cancelled = r.cancelled;
  }

  abbrev pub run_tool : ValidatedCall W V → W → ToolExecResult × W
  run_tool call w =
      let (outcome, w') = call.tool.call call.coerced_args w in (of_outcome call outcome, w')

  confirmation_missing : ValidatedCall W V → AutonomyLevel → String
  confirmation_missing call autonomy =
      "確認エラー: ツール '"
      <> (call.name
          <> ("' (権限: "
              <> (debug_permission call.tool.permission
                  <> (if can_write autonomy
                      then ") の実行には確認が必要です。非対話または確認コールバック未設定のため実行は拒否されました (自律レベル: "
                        <> (debug_autonomy autonomy <> ")")
                      else ") の実行には確認が必要です。現在の自律レベル ("
                        <> (debug_autonomy autonomy <> ") では未確認実行は拒否されました")))))

  -- The branch of a decision that asks for a confirmation.
  confirmed : ValidatedCall W V → AutonomyLevel → Option ConfirmCheck → W → ToolExecResult × W
  confirmed call full callback w = run_tool call w
  confirmed call supervised none w = (refuse call (confirmation_missing call supervised), w)
  confirmed call supervised (some check) w =
      if check call.name call.args_json
      then run_tool call w
      else (refuse call ("確認拒否: ツール '" <> (call.name <> "' の実行がユーザーにより拒否されました")), w)
  confirmed call read_only callback w = (refuse call (confirmation_missing call read_only), w)

  decided : ValidatedCall W V → Policy → PermissionDecision → W → ToolExecResult × W
  unfolding confirmed confirmation_missing
  decided call p allow w = run_tool call w
  decided call p denied w = (
    refuse call (
        "権限エラー: ツール '"
        <> (call.name
            <> ("' の実行権限が拒否されています (permission: "
                <> (debug_permission call.tool.permission <> ")")))),
    w,
  )
  decided call p queue_for_later w =
      (refuse call ("保留: ツール '" <> (call.name <> "' の実行には確認が必要です（キューに保留されました）")), w)
  decided call p need_confirmation w = confirmed call p.autonomy p.confirm_callback w

  unfoldable pub execute_single_call_with_policy :
      Policy → ValidatedCall W V → W → ToolExecResult × W
  unfolding decided confirmed confirmation_missing
  execute_single_call_with_policy p call w =
      if not call.is_read_only && not (can_write p.autonomy)
      then (
        refuse call (
            "権限エラー: 現在の自律レベル ("
            <> (debug_autonomy p.autonomy
                <> (") では書き込み系ツール '" <> (call.name <> "' の実行は拒否されています")))),
        w,
      )
      else decided call p (check_permission call.tool.permission p.is_daemon p.daemon_policy) w

  unfoldable pub execute_read_batch_parallel :
      Policy → List (ValidatedCall W V) → W → List ToolExecResult × W
  execute_read_batch_parallel p [] w = ([], w)
  execute_read_batch_parallel p (call ∷ batch) w =
      let (r, w₁) = execute_single_call_with_policy p call w in
      let (rs, w₂) = execute_read_batch_parallel p batch w₁ in (r ∷ rs, w₂)
