-- ===== src/AgentLoop/Middleware/Budget.antt =====
-- src/agent/middleware.rs: the default chain after any steps.
use bonsai_agent.Prelude.{
  ℕ, zero, suc, ◌+◌, ◌-◌, ◌*◌, Bool, true, false, ◌≡◌, ◌≢◌, refl, Option, none, some, List, [], ◌∷◌,
  ◌++◌, String, HashMap, str_eq, append_assoc, append-nil, arith, ltb, leb, length, all, drop,
  take_last, length-drop, Bool-cases, if◌then◌else◌, inl, inr,
}
use bonsai_agent.Compaction.Config.{CompactionConfig}
use bonsai_agent.LoopState.TokenBudget as TokenBudget
use bonsai_agent.LoopState.TokenBudget.Advice.{record_all, fades, expected, check-history}
use bonsai_agent.AgentLoop.Middleware.{
  StepResult, Middleware, audit, tool_tracking, compaction, token_budget, Scene, after_step,
  run_after_step, build_default_chain,
}

-- The tools of all steps, and what each step that continues is taken to spend.
abbrev pub all_tools : List StepResult → List String
all_tools [] = []
all_tools (r ∷ rs) = r.tools_used ++ all_tools rs

abbrev pub spent : List StepResult → List ℕ
spent [] = []
spent (r ∷ rs) =
    let rest = spent rs in
    if str_eq r.outcome_type "continue" then (length r.tools_used * 200 + 100) ∷ rest else rest

abbrev pub chain_of :
    CompactionConfig → List String → TokenBudget.TokenBudgetTracker → List Middleware
chain_of config tools t = audit ∷ tool_tracking tools ∷ compaction config ∷ token_budget t ∷ []

module _ (iteration_order : HashMap ℕ → List (String × ℕ)) (scale : ℕ → ℕ → ℕ) (shorten : ℕ → ℕ)
    (hash_hex : String → String) (write_file : String → String → Bool) where
  abbrev pub run_steps : List Middleware → List StepResult → Scene → List Middleware × Scene
  run_steps chain [] x = (chain, x)
  run_steps chain (r ∷ rs) x =
      let after = run_after_step iteration_order scale shorten hash_hex write_file chain r x in
      run_steps after.0 rs after.1

  pub run_after_step-chain_of :
      (config : CompactionConfig) (tools : List String) (t : TokenBudget.TokenBudgetTracker)
      (r : StepResult) (x : Scene)
      → (run_after_step iteration_order scale shorten hash_hex write_file
          (chain_of config tools t)
          r
          x).0
        ≡ chain_of config (tools ++ r.tools_used) (record_all t (spent (r ∷ [])))
  unfolding run_after_step after_step
  run_after_step-chain_of config tools t r x =
      elim (Bool-cases (str_eq r.outcome_type "continue")) [ inl e ↦ rw e refl | inr e ↦ rw e refl ]

  record_all-append :
      (t : TokenBudget.TokenBudgetTracker) (xs ys : List ℕ)
      → record_all (record_all t xs) ys ≡ record_all t (xs ++ ys)
  record_all-append t [] ys = refl
  record_all-append t (x ∷ xs) ys = record_all-append (TokenBudget.record_tokens t x) xs ys

  spent-cons : (r : StepResult) (rs : List StepResult) → spent (r ∷ rs) ≡ spent (r ∷ []) ++ spent rs
  spent-cons r rs = elim (Bool-cases (str_eq r.outcome_type "continue")) [
    | inl e ↦ rw e refl
    | inr e ↦ rw e refl
  ]

  run_steps-chain_of :
      (config : CompactionConfig) (tools : List String) (t : TokenBudget.TokenBudgetTracker)
      (rs : List StepResult) (x : Scene)
      → (run_steps (chain_of config tools t) rs x).0
        ≡ chain_of config (tools ++ all_tools rs) (record_all t (spent rs))
  run_steps-chain_of config tools t [] x = rw append-nil refl
  run_steps-chain_of config tools t (r ∷ rs) x =
      let x₁ =
        (run_after_step iteration_order scale shorten hash_hex write_file (chain_of config tools t)
          r x).1 in
      rw
        (
          run_steps,
          run_after_step-chain_of config tools t r x,
          run_steps-chain_of config (tools ++ r.tools_used) (record_all t (spent (r ∷ []))) rs x₁,
          append_assoc tools r.tools_used (all_tools rs),
          record_all-append t (spent (r ∷ [])) (spent rs),
          spent-cons r rs,
        )
        refl

  -- After any steps the default chain holds the tools of all steps in order, the configuration of
  -- the compaction as it was, and a token budget of 8000 in which every step that continued is
  -- recorded with 200 tokens for a tool and 100 more; no other step is recorded.
  pub default_chain_history :
      (config : CompactionConfig) (rs : List StepResult) (x : Scene)
      → (run_steps (build_default_chain config) rs x).0
        ≡ chain_of config (all_tools rs) (record_all (TokenBudget.new 8000) (spent rs))
  default_chain_history config rs x = run_steps-chain_of config [] TokenBudget.default rs x

is_large : ℕ → Bool
is_large n = leb 100 n

spent-large : (rs : List StepResult) → all is_large (spent rs) ≡ true
unfolding is_large
spent-large [] = refl
spent-large (r ∷ rs) = ground (arith, spent-large rs)

large-drop : (k : ℕ) (h : List ℕ) → all is_large h ≡ true → all is_large (drop k h) ≡ true
large-drop zero h large = large
large-drop (suc k) [] large = refl
large-drop (suc k) (n ∷ h) large = large-drop k h (ground arith)

large-small : (h : List ℕ) → all is_large h ≡ true → all (λ n. ltb n 100) h ≡ true → length h ≡ 0
unfolding is_large
large-small [] large small = refl
large-small (n ∷ h) large small = ground arith

large-fades : (h : List ℕ) → all is_large h ≡ true → fades h ≡ false
large-fades h large = ground (
  arith,
  large-small (take_last 5 h) (large-drop (length h - 5) h large),
  length-drop (length h - 5) h,
)

-- What the token budget of a chain says.
abbrev pub advice_of : List Middleware → Option String
advice_of [] = none
advice_of (token_budget t ∷ ms) = TokenBudget.check t
advice_of (m ∷ ms) = advice_of ms

is_almost_done : Option String → Bool
is_almost_done none = false
is_almost_done (some s) = str_eq s TokenBudget.almost_done

expected-large : (h : List ℕ) → fades h ≡ false → is_almost_done (expected 8000 h) ≡ false
unfolding is_almost_done
expected-large h e = ground (arith, e)

module _ (iteration_order : HashMap ℕ → List (String × ℕ)) (scale : ℕ → ℕ → ℕ) (shorten : ℕ → ℕ)
    (hash_hex : String → String) (write_file : String → String → Bool) where
  -- Whatever the steps, the token budget of the default chain never says that the outputs fade: each
  -- step is recorded with 100 tokens or more, and only outputs below 100 count as short.
  pub default_chain-never_fading :
      (config : CompactionConfig) (rs : List StepResult) (x : Scene)
      → advice_of
          (run_steps iteration_order scale shorten hash_hex write_file
            (build_default_chain config)
            rs
            x).0
        ≢ some TokenBudget.almost_done
  unfolding is_almost_done
  default_chain-never_fading config rs x said =
      let h = spent rs in
      let chain =
        default_chain_history iteration_order scale shorten hash_hex write_file config rs x in
      let history = check-history 8000 h (omega arith) in
      let quiet = expected-large h (large-fades h (spent-large rs)) in
      ground (arith, chain, history, quiet, said)
