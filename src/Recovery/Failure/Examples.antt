-- ===== src/Recovery/Failure/Examples.antt =====
-- Decisions on single failures.
use bonsai_agent.Prelude.{◌<◌, String, ◌≡◌, ◌↔◌, true, Bool, some, arith, refl}
use bonsai_agent.Prelude.Int.{negsuc, show_ℤ}
use bonsai_agent.Recovery.Failure.{
  tool_exec_error, exit_code_non_zero, network_error, decide_recovery, for_failure, retry_with_fix,
  classify_environment_failure,
}
use bonsai_agent.Recovery.Failure.Decisions.{
  retries, IsRetryWithFix, decide_recovery-retries, classify_environment_failure_waits,
}

exit_code_test :
    decide_recovery (λ m. "") (tool_exec_error (exit_code_non_zero (negsuc 1))) 0 3
    ≡ retry_with_fix "コマンドが終了コード -2 で失敗しました。エラーを確認して直してください。"
unfolding decide_recovery show_ℤ
exit_code_test = refl

network_error_retried :
    (retries (decide_recovery (λ m. "") network_error 1 3) ≡ true)
    ↔ (((for_failure network_error).retryable ≡ true) × (1 < 3))
network_error_retried = decide_recovery-retries (λ m. "") network_error 1 3

abbrev unresolved : String
unresolved = "dns lookup failed"

unresolved_is_network : classify_environment_failure (λ s. s) unresolved ≡ some network_error
unfolding classify_environment_failure
unresolved_is_network = refl

classify_environment_failure_waits_case :
    ((for_failure network_error).wait_and_retry ≡ true)
    × ((for_failure network_error).should_compress ≡ Bool.false)
    × (0 < (for_failure network_error).backoff_secs)
    × IsRetryWithFix (decide_recovery (λ m. "") network_error 0 3)
classify_environment_failure_waits_case =
    classify_environment_failure_waits (λ m. "") (λ s. s) unresolved network_error 0 3
      unresolved_is_network (omega arith)
