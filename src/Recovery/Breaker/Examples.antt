-- ===== src/Recovery/Breaker/Examples.antt =====
-- A breaker of threshold 2 and cooldown 10.
use bonsai_agent.Prelude.{◌-◌, ◌≡◌, ◌==◌, ◌||◌, ltb, leb, List, [], ◌∷◌}
use bonsai_agent.Recovery.Breaker.{is_available, failure_count}
use bonsai_agent.Recovery.Breaker.History.{
  Call, succeeded, failed, after, streak, last_failure, is_available-after,
}

abbrev calls : List Call
calls = failed "shell" 5 ∷ succeeded "git" ∷ failed "shell" 3 ∷ []

is_available-after_example :
    (is_available (after 2 10 calls) 7 "shell" ≡ (
      streak "shell" calls == 0
      || ltb (streak "shell" calls) 2
      || leb 10 (7 - last_failure "shell" calls)))
    × (failure_count (after 2 10 calls) "shell" ≡ streak "shell" calls)
is_available-after_example = is_available-after 2 10 calls "shell" 7
