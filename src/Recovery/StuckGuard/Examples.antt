-- ===== src/Recovery/StuckGuard/Examples.antt =====
-- A guard that nudges at two failures and gives up at three.
use bonsai_agent.Prelude.{◌<◌, ◌≤◌, ◌≡◌, List, [], ◌∷◌}
use bonsai_agent.Recovery.StuckGuard.{check_stuck}
use bonsai_agent.Recovery.StuckGuard.Stages.{
  Edit, succeeded, failed, after, streak, stage, check_stuck_stages,
}

abbrev edits : List Edit
edits = failed "a.rs" ∷ succeeded "b.rs" ∷ failed "a.rs" ∷ []

check_stuck_stages_example :
    (3 ≤ streak "a.rs" edits → stage (check_stuck (after 2 3 edits) "a.rs") ≡ 2)
    × (2 ≤ streak "a.rs" edits
        → streak "a.rs" edits < 3
        → stage (check_stuck (after 2 3 edits) "a.rs") ≡ 1)
    × (streak "a.rs" edits < 2
        → streak "a.rs" edits < 3
        → stage (check_stuck (after 2 3 edits) "a.rs") ≡ 0)
check_stuck_stages_example = check_stuck_stages 2 3 edits "a.rs"
