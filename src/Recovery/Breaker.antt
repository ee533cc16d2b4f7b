-- ===== src/Recovery/Breaker.antt =====
-- src/agent/error_recovery.rs: `CircuitBreaker`. An `Instant` is a number of nanoseconds.
pub mod History
mod Examples
use bonsai_agent.Prelude.{
  ℕ, ◌+◌, ◌-◌, ◌*◌, ◌^◌, Bool, true, false, String, Option, none, some, [], HashMap, lookup, insert,
  remove, leb, if◌then◌else◌,
}

pub record CircuitBreaker : Type 0 where
  pub failure_counts : HashMap (ℕ × ℕ)
  pub threshold : ℕ
  pub cooldown : ℕ

abbrev pub new : ℕ → ℕ → CircuitBreaker
new threshold cooldown = record { failure_counts = []; threshold = threshold; cooldown = cooldown }

-- `CircuitBreaker::default()`: five failures, and 300 seconds.
abbrev pub default : CircuitBreaker
default = new 5 (300 * 10 ^ 9)

-- The test on the entry that `get` returns; `now - last_failure` is `last_failure.elapsed()`.
available_entry : CircuitBreaker → ℕ → Option (ℕ × ℕ) → Bool
available_entry b now none = true
available_entry b now (some (failures, last_failure)) =
    if leb b.threshold failures
    then (if leb b.cooldown (now - last_failure) then true else false)
    else true

unfoldable pub is_available : CircuitBreaker → ℕ → String → Bool
unfolding available_entry
is_available b now tool_name = available_entry b now (lookup tool_name b.failure_counts)

abbrev pub entry_count : Option (ℕ × ℕ) → ℕ
entry_count none = 0
entry_count (some (failures, last_failure)) = failures

unfoldable pub failure_count : CircuitBreaker → String → ℕ
failure_count b tool_name = entry_count (lookup tool_name b.failure_counts)

unfoldable pub record_failure : CircuitBreaker → ℕ → String → CircuitBreaker
record_failure b now tool_name = record b {
  failure_counts =
      insert tool_name (entry_count (lookup tool_name b.failure_counts) + 1, now) b.failure_counts;
}

unfoldable pub record_success : CircuitBreaker → String → CircuitBreaker
record_success b tool_name = record b { failure_counts = remove tool_name b.failure_counts }
