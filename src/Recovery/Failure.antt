-- ===== src/Recovery/Failure.antt =====
-- src/agent/error_recovery.rs: failure modes, recovery hints and `decide_recovery`.
pub mod Decisions
mod Examples
use bonsai_agent.Prelude.{
  ℕ, Bool, true, false, String, ◌<>◌, show, leb, contains, ◌||◌, Option, none, some, if◌then◌else◌,
}
use bonsai_agent.Prelude.Int.{ℤ, show_ℤ}

pub data ParseErrorDetail : Type 0 where
  invalid_json : ParseErrorDetail
  missing_field : String → ParseErrorDetail
  unexpected_format : ParseErrorDetail

pub data ToolErrorDetail : Type 0 where
  permission_denied command_not_found timeout : ToolErrorDetail
  invalid_arguments : String → ToolErrorDetail
  exit_code_non_zero : ℤ → ToolErrorDetail
  unknown : String → ToolErrorDetail

pub data FailureMode : Type 0 where
  parse_error : ParseErrorDetail → FailureMode
  tool_exec_error : ToolErrorDetail → FailureMode
  reasoning_error loop_detected context_overflow rate_limited : FailureMode
  network_error server_disconnect : FailureMode

pub record RecoveryHint : Type 0 where
  pub retryable : Bool
  pub should_compress : Bool
  pub backoff_secs : ℕ
  pub wait_and_retry : Bool

hint : Bool → Bool → ℕ → Bool → RecoveryHint
hint r c b w = record { retryable = r; should_compress = c; backoff_secs = b; wait_and_retry = w }

pub for_failure : FailureMode → RecoveryHint
unfolding hint
for_failure (parse_error d) = hint true false 0 false
for_failure (tool_exec_error d) = hint true false 0 false
for_failure reasoning_error = hint true false 0 false
for_failure loop_detected = hint false false 0 false
for_failure context_overflow = hint true true 0 false
for_failure rate_limited = hint true false 15 true
for_failure network_error = hint true false 5 true
for_failure server_disconnect = hint true false 10 true

pub data RecoveryAction : Type 0 where
  retry_with_fix : String → RecoveryAction
  retry_with_temperature_delta : RecoveryAction
  suggest_alternative : String → RecoveryAction
  abort : String → RecoveryAction
  explain_and_stop : String → RecoveryAction
  replan : String → RecoveryAction

-- The `match` on the details of a parse error.
parse_strategy : ParseErrorDetail → RecoveryAction
parse_strategy invalid_json = retry_with_fix "前回の出力のJSONが正しくありません。正しいJSON形式で<tool_call>を書いてください。"
parse_strategy (missing_field field) =
    retry_with_fix ("前回のツール呼び出しに '" <> field <> "' がありません。必須フィールドを含めてもう一度書いてください。")
parse_strategy unexpected_format = retry_with_temperature_delta

-- The `match` on the details of a tool error.
tool_strategy : ToolErrorDetail → RecoveryAction
tool_strategy permission_denied = suggest_alternative "権限がありません。別の方法を試してください。"
tool_strategy command_not_found = suggest_alternative "コマンドが見つかりません。別のコマンドを使ってください。"
tool_strategy timeout = retry_with_fix "前回のコマンドがタイムアウトしました。もっと短い時間で終わる方法を試してください。"
tool_strategy (invalid_arguments msg) = retry_with_fix ("引数エラー: " <> msg <> "。引数を直してもう一度試してください。")
tool_strategy (exit_code_non_zero code) =
    retry_with_fix ("コマンドが終了コード " <> show_ℤ code <> " で失敗しました。エラーを確認して直してください。")
tool_strategy (unknown msg) = retry_with_fix ("エラー: " <> msg <> "。別の方法を試してください。")

-- The `match mode` at the end of `decide_recovery`, with its dead `LoopDetected` arm.
strategy : FailureMode → RecoveryAction
unfolding parse_strategy tool_strategy
strategy (parse_error detail) = parse_strategy detail
strategy (tool_exec_error detail) = tool_strategy detail
strategy reasoning_error = retry_with_temperature_delta
strategy loop_detected = abort "同じ操作を繰り返しています。ループを止めるため中断します。"
strategy context_overflow = replan "コンテキストが長すぎます。要点だけにしてもう一度試してください。"
strategy rate_limited = retry_with_fix "リクエスト制限に達しました。少し待ってからやり直します。"
strategy network_error = retry_with_fix "ネットワークエラーが起きました。接続を待ってからやり直します。"
strategy server_disconnect = retry_with_fix "サーバーとの接続が切れました。再接続を待ってからやり直します。"

is_loop_detected : FailureMode → Bool
is_loop_detected loop_detected = true
is_loop_detected _ = false

-- `debug` is the derived `{:?}` of a failure mode.
unfoldable pub decide_recovery : (FailureMode → String) → FailureMode → ℕ → ℕ → RecoveryAction
unfolding is_loop_detected strategy
decide_recovery debug mode attempt max_retries =
    if is_loop_detected mode
    then abort "同じ操作を繰り返しています。ループを止めるため中断します。"
    else if leb max_retries attempt
    then explain_and_stop (show max_retries <> "回のリトライを行いましたが解決できませんでした。原因: " <> debug mode)
    else strategy mode

-- `to_lowercase` is that of the standard library.
unfoldable pub classify_environment_failure : (String → String) → String → Option FailureMode
classify_environment_failure to_lowercase error_output =
    let lower = to_lowercase error_output in
    if contains lower "connection refused"
      || contains lower "timeout"
      || contains lower "503"
      || contains lower "502"
      || contains lower "server"
    then some server_disconnect
    else if contains lower "network" || contains lower "dns" || contains lower "econnreset"
    then some network_error
    else none
