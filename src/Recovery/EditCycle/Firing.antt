-- ===== src/Recovery/EditCycle/Firing.antt =====
-- When the detector of alternating edits speaks.
use bonsai_agent.Prelude.{
  ℕ, ◌+◌, ◌≤◌, ◌<◌, true, false, String, ◌≡◌, refl, none, List, [], arith, HashMap, is_some, length,
  length-push_capped-le, ap, push_capped,
}
use bonsai_agent.Recovery.EditCycle.{MultiFileEditCycleDetector, record_and_check, is_cycle}

short_is_quiet :
    (d : MultiFileEditCycleDetector) (paths : List String)
    → length paths < 4
    → is_cycle d paths ≡ false
unfolding is_cycle
short_is_quiet d paths h = ground arith

module _ (file_name : String → String) (keys_of : HashMap ℕ → List String) where
  quiet_step :
      (d : MultiFileEditCycleDetector) (path : String)
      → length d.recent_paths < 3
      → record_and_check file_name keys_of d path
        ≡ (record d { recent_paths = push_capped d.window d.recent_paths path }, none)
  unfolding record_and_check
  quiet_step d path h = rw (
      short_is_quiet d (push_capped d.window d.recent_paths path)
        (omega (arith, length-push_capped-le d.window d.recent_paths path)))

  after_quiet :
      (d : MultiFileEditCycleDetector) (path : String)
      → length d.recent_paths < 3
      → ((record_and_check file_name keys_of d path).1 ≡ none)
        × (length (record_and_check file_name keys_of d path).0.recent_paths
            ≤ length d.recent_paths + 1)
        × ((record_and_check file_name keys_of d path).0.nudge_fire_count ≡ d.nudge_fire_count)
  after_quiet d path h =
      rw (quiet_step d path h) (refl, length-push_capped-le d.window d.recent_paths path, refl)

  after_nudge :
      (d : MultiFileEditCycleDetector) (path : String)
      → is_some (record_and_check file_name keys_of d path).1 ≡ true
      → ((record_and_check file_name keys_of d path).0.recent_paths ≡ [])
        × ((record_and_check file_name keys_of d path).0.nudge_fire_count ≡ d.nudge_fire_count + 1)
  unfolding record_and_check
  after_nudge d path fired = ground arith

  -- After a nudge the next three edits cause none, whatever they are, and the nudge is counted once.
  pub nudge_gap :
      (d : MultiFileEditCycleDetector) (path p q r : String)
      → is_some (record_and_check file_name keys_of d path).1 ≡ true
      → let check = record_and_check file_name keys_of in
        let d₁ = (check d path).0 in
        let d₂ = (check d₁ p).0 in
        let d₃ = (check d₂ q).0 in
        ((check d₁ p).1 ≡ none)
        × ((check d₂ q).1 ≡ none)
        × ((check d₃ r).1 ≡ none)
        × ((check d₃ r).0.nudge_fire_count ≡ d.nudge_fire_count + 1)
  nudge_gap d path p q r fired =
      let check = record_and_check file_name keys_of in
      let d₁ = (check d path).0 in
      let d₂ = (check d₁ p).0 in
      let d₃ = (check d₂ q).0 in
      let (cleared, counted) = after_nudge d path fired in
      let empty : length d₁.recent_paths ≡ 0 = ap (length {A = String}) cleared in
      let (quiet₁, len₁, same₁) = after_quiet d₁ p (omega arith) in
      let (quiet₂, len₂, same₂) = after_quiet d₂ q (omega arith) in
      let (quiet₃, len₃, same₃) = after_quiet d₃ r (omega arith) in
      (quiet₁, quiet₂, quiet₃, omega arith)
