-- ===== src/Recovery/ContinueSite/Escalation.antt =====
-- `ContinueSite` against the history of successes and failures that was recorded in it.
use bonsai_agent.Prelude.{
  ℕ, suc, ◌-◌, ◌<◌, String, ◌≡◌, refl, Option, none, some, List, [], ◌∷◌, arith,
}
use bonsai_agent.Recovery.Failure.{
  FailureMode, RecoveryAction, explain_and_stop, replan, decide_recovery,
}
use bonsai_agent.Recovery.ContinueSite.{
  ContinueSite, new, record_success, record_failure, or_reasoning_error, decide_escalated_recovery,
}

pub data Outcome : Type 0 where
  succeeded : Outcome
  failed : FailureMode → Outcome

-- The site after a history, newest outcome first.
abbrev pub after : List Outcome → ContinueSite
after [] = new
after (succeeded ∷ older) = record_success (after older)
after (failed mode ∷ older) = record_failure (after older) mode

-- How many failures the history ends with.
abbrev pub streak : List Outcome → ℕ
streak (failed mode ∷ older) = suc (streak older)
streak _ = 0

abbrev pub last_mode : List Outcome → Option FailureMode
last_mode (failed mode ∷ older) = some mode
last_mode _ = none

abbrev pub IsReplan : RecoveryAction → Type 0
IsReplan (replan m) = Unit {0}
IsReplan _ = ⊥

abbrev pub IsStop : RecoveryAction → Type 0
IsStop (explain_and_stop m) = Unit {0}
IsStop _ = ⊥

after-streak : (h : List Outcome) → (after h).consecutive_failures ≡ streak h
unfolding record_success record_failure
after-streak [] = refl
after-streak (succeeded ∷ older) = refl
after-streak (failed mode ∷ older) = omega (arith, after-streak older)

after-last_mode : (h : List Outcome) → (after h).last_failure_mode ≡ last_mode h
unfolding record_success record_failure
after-last_mode [] = refl
after-last_mode (succeeded ∷ older) = refl
after-last_mode (failed mode ∷ older) = refl

-- After any history: four or more failures in a row stop the task, three ask for a new plan, and
-- fewer are decided by `decide_recovery` on the last failure, the first one as attempt 0.
pub escalation_ladder :
    (debug : FailureMode → String) (h : List Outcome) (max_retries : ℕ)
    → (3 < streak h → IsStop (decide_escalated_recovery debug (after h) max_retries))
      × (streak h ≡ 3 → IsReplan (decide_escalated_recovery debug (after h) max_retries))
      × (streak h < 3
          → decide_escalated_recovery debug (after h) max_retries
            ≡ decide_recovery debug (or_reasoning_error (last_mode h)) (streak h - 1) max_retries)
unfolding decide_escalated_recovery
escalation_ladder debug h max_retries = ground (arith, after-streak h, after-last_mode h)
