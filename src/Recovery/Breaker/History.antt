-- ===== src/Recovery/Breaker/History.antt =====
-- `CircuitBreaker` against the history of calls that was recorded in it.
use bonsai_agent.Prelude.{
  ℕ, suc, ◌-◌, String, ◌≡◌, refl, Option, none, some, List, [], ◌∷◌, ◌||◌, arith, lookup,
  lookup-insert, lookup-remove, eq_iff, str_eq, ltb, leb, ◌==◌, if◌then◌else◌,
}
use bonsai_agent.Recovery.Breaker.{
  CircuitBreaker, new, is_available, failure_count, record_failure, record_success,
}

-- A recorded call of a tool: its success, or its failure at a time.
pub data Call : Type 0 where
  succeeded : String → Call
  failed : String → ℕ → Call

module _ (threshold cooldown : ℕ) where
  -- The breaker after a history, newest call first.
  abbrev pub after : List Call → CircuitBreaker
  after [] = new threshold cooldown
  after (succeeded tool ∷ older) = record_success (after older) tool
  after (failed tool now ∷ older) = record_failure (after older) now tool

-- The failures of a tool since its last success, and the time of the last of them.
abbrev pub streak : String → List Call → ℕ
streak t [] = 0
streak t (succeeded tool ∷ older) = if str_eq tool t then 0 else streak t older
streak t (failed tool now ∷ older) = let n = streak t older in if str_eq tool t then suc n else n

abbrev pub last_failure : String → List Call → ℕ
last_failure t [] = 0
last_failure t (succeeded tool ∷ older) = last_failure t older
last_failure t (failed tool now ∷ older) = if str_eq tool t then now else last_failure t older

-- What the map holds for a tool.
abbrev entry : String → List Call → Option (ℕ × ℕ)
entry t h = if streak t h == 0 then none else some (streak t h, last_failure t h)

module _ (threshold cooldown : ℕ) where
  after-limits :
      (h : List Call)
      → ((after threshold cooldown h).threshold ≡ threshold)
        × ((after threshold cooldown h).cooldown ≡ cooldown)
  unfolding record_success record_failure
  after-limits [] = (refl, refl)
  after-limits (succeeded tool ∷ older) = after-limits older
  after-limits (failed tool now ∷ older) = after-limits older

  lookup-after :
      (t : String) (h : List Call)
      → lookup t (after threshold cooldown h).failure_counts ≡ entry t h
  unfolding record_success record_failure
  lookup-after t [] = unfold lookup in refl
  lookup-after t (succeeded tool ∷ older) = rw lookup-remove (ground (arith, lookup-after t older))
  lookup-after t (failed tool now ∷ older) =
      rw lookup-insert (ground (arith, lookup-after t older, eq_iff tool t))

  -- After any history of calls a tool is blocked exactly while it has failed `threshold` times or
  -- more, at least once, since its last success, and its last failure is within the cooldown; the
  -- other tools' calls do not matter.
  pub is_available-after :
      (h : List Call) (t : String) (now : ℕ)
      → (is_available (after threshold cooldown h) now t ≡ (
          streak t h == 0 || ltb (streak t h) threshold || leb cooldown (now - last_failure t h)))
        × (failure_count (after threshold cooldown h) t ≡ streak t h)
  unfolding is_available failure_count
  is_available-after h t now = ground (arith, lookup-after t h, after-limits h)
