-- ===== src/Recovery/Failure/Decisions.antt =====
-- `decide_recovery` and `RecoveryHint::for_failure`, over every failure mode.
use bonsai_agent.Prelude.{ℕ, ◌<◌, String, ◌≡◌, ◌↔◌, true, false, Bool, some, ◌⊎◌, arith}
use bonsai_agent.Recovery.Failure.{
  FailureMode, RecoveryAction, abort, explain_and_stop, retry_with_fix,
  classify_environment_failure, network_error, server_disconnect, decide_recovery, for_failure,
}

-- An action after which the loop goes on.
abbrev pub retries : RecoveryAction → Bool
retries (abort m) = false
retries (explain_and_stop m) = false
retries _ = true

abbrev pub IsRetryWithFix : RecoveryAction → Type 0
IsRetryWithFix (retry_with_fix m) = Unit {0}
IsRetryWithFix _ = ⊥

-- A mode is retried exactly when its hint says that it is retryable and attempts are left.
pub decide_recovery-retries :
    (debug : FailureMode → String) (mode : FailureMode) (attempt max_retries : ℕ)
    → (retries (decide_recovery debug mode attempt max_retries) ≡ true)
      ↔ (((for_failure mode).retryable ≡ true) × (attempt < max_retries))
unfolding decide_recovery for_failure
decide_recovery-retries debug mode attempt max_retries = ground arith

classified_modes :
    (to_lowercase : String → String) (output : String) (mode : FailureMode)
    → classify_environment_failure to_lowercase output ≡ some mode
    → (mode ≡ server_disconnect) ⊎ (mode ≡ network_error)
unfolding classify_environment_failure
classified_modes to_lowercase output mode e = ground arith

-- What is classified as a failure of the environment is retried after a wait, at the same attempt
-- with the same plan: no such failure asks for a new plan or for compression.
pub classify_environment_failure_waits :
    (debug : FailureMode → String) (to_lowercase : String → String) (output : String)
    (mode : FailureMode) (attempt max_retries : ℕ)
    → classify_environment_failure to_lowercase output ≡ some mode
    → attempt < max_retries
    → ((for_failure mode).wait_and_retry ≡ true)
      × ((for_failure mode).should_compress ≡ false)
      × (0 < (for_failure mode).backoff_secs)
      × IsRetryWithFix (decide_recovery debug mode attempt max_retries)
unfolding for_failure decide_recovery
classify_environment_failure_waits debug to_lowercase output mode attempt max_retries e h =
    ground (arith, classified_modes to_lowercase output mode e)
