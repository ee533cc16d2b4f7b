-- ===== src/LoopState/TokenBudget/Advice.antt =====
-- `TokenBudgetTracker` against all the outputs that were recorded in it.
use bonsai_agent.Prelude.{
  ℕ, ◌+◌, ◌*◌, ◌-◌, ◌<◌, Bool, ◌&&◌, ◌≡◌, refl, sym, ◌∙◌, Option, none, some, List, [], ◌∷◌, ◌++◌,
  String, arith, ltb, leb, length, all, take_last, push_capped-eq-take_last, take_last-push,
  take_last-nil, length-take_last, take_last-take_last, length-drop, if◌then◌else◌, append_assoc,
  append-nil,
}
use bonsai_agent.LoopState.TokenBudget.{
  TokenBudgetTracker, new, record_tokens, is_diminishing, usage_reaches, check, at_limit,
  almost_done, at_90,
}

abbrev pub total : List ℕ → ℕ
total [] = 0
total (x ∷ xs) = x + total xs

abbrev pub record_all : TokenBudgetTracker → List ℕ → TokenBudgetTracker
record_all t [] = t
record_all t (x ∷ xs) = record_all (record_tokens t x) xs

-- The tracker holds the sum, and the last ten, of the outputs.
record Holds (budget : ℕ) (t : TokenBudgetTracker) (h : List ℕ) : Type 0 where
  pub sum : t.total_tokens ≡ total h
  pub recent : t.recent_outputs ≡ take_last 10 h
  pub limits : (t.budget ≡ budget) × (t.low_output_threshold ≡ 100) × (t.diminishing_window ≡ 5)

total-snoc : (h : List ℕ) (x : ℕ) → total (h ++ x ∷ []) ≡ total h + x
total-snoc [] x = omega arith
total-snoc (y ∷ ys) x = omega (arith, total-snoc ys x)

record_tokens-Holds :
    (budget : ℕ) (t : TokenBudgetTracker) (h : List ℕ) (x : ℕ)
    → Holds budget t h
    → Holds budget (record_tokens t x) (h ++ x ∷ [])
unfolding record_tokens
record_tokens-Holds budget t h x holds =
    let (same_budget, low, window) = holds.limits in
    record {
      sum = omega (arith, total-snoc h x, holds.sum);
      recent =
          rw (window, holds.recent)
            (push_capped-eq-take_last 10 (take_last 10 h) x (length-take_last 10 h)
              ∙ take_last-push 10 h x);
      limits = holds.limits;
    }

record_all-Holds :
    (budget : ℕ) (t : TokenBudgetTracker) (past h : List ℕ)
    → Holds budget t past
    → Holds budget (record_all t h) (past ++ h)
record_all-Holds budget t past [] holds = rw append-nil holds
record_all-Holds budget t past (x ∷ xs) holds = rw (append_assoc past (x ∷ []) xs) at (
    record_all-Holds budget (record_tokens t x) (past ++ x ∷ []) xs
      (record_tokens-Holds budget t past x holds))

new-Holds : (budget : ℕ) → Holds budget (new budget) []
new-Holds budget = record {
  sum = refl;
  recent = sym (take_last-nil 10);
  limits = (refl, refl, refl);
}

-- The last five outputs, of five or more, are all below 100.
abbrev pub fades : List ℕ → Bool
fades h = leb 5 (length h) && all (λ n. ltb n 100) (take_last 5 h)

abbrev pub expected : ℕ → List ℕ → Option String
expected budget h =
    if leb budget (total h)
    then some at_limit
    else if fades h
    then some almost_done
    else if leb (budget * 9) (total h * 10)
    then some at_90
    else none

diminishing-fades :
    (budget : ℕ) (t : TokenBudgetTracker) (h : List ℕ)
    → Holds budget t h
    → is_diminishing t ≡ fades h
unfolding is_diminishing
diminishing-fades budget t h holds =
    let (same_budget, low, window) = holds.limits in
    rw (window, low, holds.recent, take_last-take_last 5 10 h (omega arith))
      (ground (arith, length-drop (length h - 10) h))

-- After any outputs a tracker with a positive budget says that the limit is reached from the budget
-- on, else that the outputs fade when the last five are below 100, else that the budget is nearly
-- used from nine tenths on, and else nothing; the outputs that it has forgotten do not matter.
pub check-history :
    (budget : ℕ) (h : List ℕ) → 0 < budget → check (record_all (new budget) h) ≡ expected budget h
unfolding check usage_reaches
check-history budget h positive =
    let t = record_all (new budget) h in
    let holds = record_all-Holds budget (new budget) [] h (new-Holds budget) in
    ground (arith, diminishing-fades budget t h holds, holds.sum, holds.limits)
