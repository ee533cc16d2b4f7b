-- ===== src/LoopState/Stall/Progress.antt =====
-- `StallDetector` against the steps that were recorded in it.
use bonsai_agent.Prelude.{
  ℕ, suc, Bool, not, ◌||◌, ◌≡◌, refl, List, [], ◌∷◌, arith, leb, ◌==◌, if◌then◌else◌,
}
use bonsai_agent.LoopState.Stall.{StallDetector, new, record_step, reset}

-- A recorded step with its outcome and the hash of its output, or a reset.
pub data Step : Type 0 where
  step : Bool → ℕ → Step
  cleared : Step

-- The detector after a history, newest step first.
abbrev pub after : ℕ → List Step → StallDetector
after threshold [] = new threshold
after threshold (step succeeded hash ∷ older) =
    (record_step (after threshold older) succeeded hash).0
after threshold (cleared ∷ older) = reset (after threshold older)

-- The hash of the last step.
abbrev pub last_hash : List Step → ℕ
last_hash [] = 0
last_hash (step succeeded hash ∷ older) = hash
last_hash (cleared ∷ older) = last_hash older

-- How many steps without progress the history ends with since the last reset: steps whose tools
-- failed, or whose output has the hash of the step before.
abbrev pub idle : List Step → ℕ
idle [] = 0
idle (step succeeded hash ∷ older) =
    let n = idle older in if not succeeded || hash == last_hash older then suc n else 0
idle (cleared ∷ older) = 0

after-state :
    (threshold : ℕ) (h : List Step)
    → ((after threshold h).no_progress_count ≡ idle h)
      × ((after threshold h).last_output_hash ≡ last_hash h)
      × ((after threshold h).stall_threshold ≡ threshold)
unfolding record_step reset
after-state threshold [] = (refl, refl, refl)
after-state threshold (step succeeded hash ∷ older) = ground (arith, after-state threshold older)
after-state threshold (cleared ∷ older) = ground (arith, after-state threshold older)

-- After any history a step is reported as a stall exactly when the history ends, with it, with
-- `threshold` steps or more without progress since the last reset.
pub record_step-stalls :
    (threshold : ℕ) (h : List Step) (succeeded : Bool) (hash : ℕ)
    → (record_step (after threshold h) succeeded hash).1
      ≡ leb threshold (idle (step succeeded hash ∷ h))
unfolding record_step
record_step-stalls threshold h succeeded hash = ground (arith, after-state threshold h)
