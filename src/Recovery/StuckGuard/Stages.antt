-- ===== src/Recovery/StuckGuard/Stages.antt =====
-- `FileStuckGuard` against the history of edits that was recorded in it.
use bonsai_agent.Prelude.{
  ℕ, suc, ◌≤◌, ◌<◌, String, ◌≡◌, refl, Option, none, some, List, [], ◌∷◌, arith, lookup,
  lookup-insert, lookup-remove, str_eq, eq_iff, ◌==◌, if◌then◌else◌,
}
use bonsai_agent.Recovery.StuckGuard.{
  FileStuckGuard, FileStuckAction, nudge, give_up, new, record_file_failure, record_file_success,
  check_stuck,
}

-- A recorded edit of a file.
pub data Edit : Type 0 where
  succeeded failed : String → Edit

module _ (nudge_at give_up_at : ℕ) where
  -- The guard after a history, newest edit first.
  abbrev pub after : List Edit → FileStuckGuard
  after [] = new nudge_at give_up_at
  after (succeeded path ∷ older) = record_file_success (after older) path
  after (failed path ∷ older) = record_file_failure (after older) path

-- The failed edits of a file since its last successful one.
abbrev pub streak : String → List Edit → ℕ
streak p [] = 0
streak p (succeeded path ∷ older) = if str_eq path p then 0 else streak p older
streak p (failed path ∷ older) = let n = streak p older in if str_eq path p then suc n else n

-- The stage of an answer: 0 for none, 1 for a nudge, 2 for giving up.
abbrev pub stage : Option FileStuckAction → ℕ
stage none = 0
stage (some (nudge m)) = 1
stage (some (give_up m)) = 2

module _ (nudge_at give_up_at : ℕ) where
  after-limits :
      (h : List Edit)
      → ((after nudge_at give_up_at h).nudge_threshold ≡ nudge_at)
        × ((after nudge_at give_up_at h).give_up_threshold ≡ give_up_at)
  unfolding record_file_success record_file_failure
  after-limits [] = (refl, refl)
  after-limits (succeeded path ∷ older) = after-limits older
  after-limits (failed path ∷ older) = after-limits older

  lookup-after :
      (p : String) (h : List Edit)
      → lookup p (after nudge_at give_up_at h).failure_counts
        ≡ (if streak p h == 0 then none else some (streak p h))
  unfolding record_file_success record_file_failure
  lookup-after p [] = unfold lookup in refl
  lookup-after p (succeeded path ∷ older) = rw lookup-remove (ground (arith, lookup-after p older))
  lookup-after p (failed path ∷ older) =
      rw lookup-insert (ground (arith, lookup-after p older, eq_iff path p))

  -- After any history of edits the guard asks to give a file up exactly from `give_up_at` failures
  -- in a row on, nudges exactly from `nudge_at` failures on and below that, and is silent below
  -- both; edits of other files do not matter.
  pub check_stuck_stages :
      (h : List Edit) (p : String)
      → (give_up_at ≤ streak p h → stage (check_stuck (after nudge_at give_up_at h) p) ≡ 2)
        × (nudge_at ≤ streak p h
            → streak p h < give_up_at
            → stage (check_stuck (after nudge_at give_up_at h) p) ≡ 1)
        × (streak p h < nudge_at
            → streak p h < give_up_at
            → stage (check_stuck (after nudge_at give_up_at h) p) ≡ 0)
  unfolding check_stuck
  check_stuck_stages h p = ground (arith, lookup-after p h, after-limits h)
