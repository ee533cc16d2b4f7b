-- ===== src/AgentLoop/Core/Ending.antt =====
-- src/agent/agent_loop/core.rs: how the loop ends.
use bonsai_agent.Prelude.{
  ℕ, zero, suc, ◌+◌, ◌-◌, ◌≤◌, ◌≡◌, refl, String, Option, none, some, List, [], ◌∷◌, ◌++◌, arith,
  length, Option-cases, inl, inr,
}
use bonsai_agent.ToolExec.Apply.{StoreWrite, session_end}
use bonsai_agent.AgentLoop.State.{
  AgentLoopResult, StepOutcome, OutcomeAction, return, go_on, StepState, Run, Outside,
}
use bonsai_agent.AgentLoop.Outcome.{handle_outcome, stopped}
use bonsai_agent.Conversation.{Session}
use bonsai_agent.AgentLoop.Outcome.Returns.{ReturnsAt, handle_outcome-ReturnsAt}
use bonsai_agent.AgentLoop.Core.{
  LoopConfig, Round, finished, next, ended, concluded, follow, acted, resumed, stepped, let_in,
  guarded, timeout_text, exhausted_text, run_agent_loop_with_session, stopped_early, round, rounds,
}

-- The writes end with the event of the end, which has the numbers of the result.
abbrev pub ClosedBy : AgentLoopResult → Option (List StoreWrite) → Type 0
ClosedBy r none = Unit
ClosedBy r (some writes) =
    (reason : String) × (before : List StoreWrite) × (writes
      ≡ before ++ session_end reason r.iterations_used (length r.tools_called) ∷ [])

-- A result within `limit` iterations, whose end is recorded. An error of a step records nothing.
abbrev pub ClosedWithin : {W : Type 0} → ℕ → Option AgentLoopResult → Run W → Type 0
ClosedWithin limit none x = Unit
ClosedWithin limit (some r) x = (r.iterations_used ≤ limit) × ClosedBy r x.current.trace.store

abbrev RoundWithin : {W : Type 0} → ℕ → Round W → Type 0
RoundWithin limit (finished result x) = ClosedWithin limit result x
RoundWithin limit (next x) = Unit

ended-ClosedBy :
    {W : Type 0} (reason : String) (r : AgentLoopResult) (x : Run W)
    → ClosedBy r (ended reason r x).1.current.trace.store
unfolding ended
ended-ClosedBy reason r x = elim (Option-cases x.current.trace.store) [
  | inl e ↦ rw e tt
  | inr (writes, e) ↦ rw e (reason, writes, refl)
]

concluded-RoundWithin :
    {W : Type 0} (limit : ℕ) (reason : String) (r : AgentLoopResult) (x : Run W)
    → r.iterations_used ≤ limit
    → RoundWithin limit (concluded reason r x)
unfolding concluded ended
concluded-RoundWithin limit reason r x h = (h, ended-ClosedBy reason r x)

module _ {W : Type 0} (o : Outside W)
    (execute_step : ℕ → StepState W → Option StepOutcome × StepState W) (c : LoopConfig)
    (task_context : String) (start : ℕ) where
  acted-RoundWithin :
      (limit n : ℕ) (a : OutcomeAction × Run W)
      → n ≤ limit
      → ReturnsAt n a.0
      → RoundWithin limit (acted o execute_step a)
  unfolding acted concluded ended
  acted-RoundWithin limit n (return r, x) h at_n =
      concluded-RoundWithin limit "completed" r x (omega arith)
  acted-RoundWithin limit n (go_on, x) h at_n = tt

  resumed-RoundWithin :
      (limit iteration duration : ℕ) (outcome : Option StepOutcome) (x : Run W)
      → suc iteration ≤ limit
      → RoundWithin limit (resumed o execute_step c task_context start iteration duration outcome x)
  unfolding resumed
  resumed-RoundWithin limit iteration duration none x h = tt
  resumed-RoundWithin limit iteration duration (some outcome) x h =
      let handled =
        handle_outcome o task_context c.max_iterations (iteration + 1) iteration duration outcome
          x in
      acted-RoundWithin limit (iteration + 1) handled (omega arith) (
        handle_outcome-ReturnsAt o task_context c.max_iterations (iteration + 1) iteration duration
          outcome x)

  let_in-RoundWithin :
      (limit iteration : ℕ) (reason : Option String) (x : Run W)
      → suc iteration ≤ limit
      → RoundWithin limit (let_in o execute_step c task_context start iteration reason x)
  unfolding let_in stepped stopped_early
  let_in-RoundWithin limit iteration none x h =
      let (outcome, s) = execute_step iteration x.current in
      resumed-RoundWithin limit iteration (o.advising.now s.world - o.advising.now x.current.world)
        outcome (record x { current = s }) h
  let_in-RoundWithin limit iteration (some reason) x h =
      concluded-RoundWithin limit "abort"
        (stopped_early o execute_step (stopped reason) iteration x) x (omega arith)

  round-RoundWithin :
      (limit iteration : ℕ) (x : Run W)
      → suc iteration ≤ limit
      → RoundWithin limit (round o execute_step c task_context start iteration x)
  unfolding round stopped_early
  round-RoundWithin limit iteration x h =
      let (reason, y) = guarded o execute_step c task_context start iteration x in
      let answer = timeout_text c.task_timeout in
      let late =
        concluded-RoundWithin limit "timeout" (stopped_early o execute_step answer iteration x) x
          (omega arith) in
      ground (arith, late, let_in-RoundWithin limit iteration reason y h)

  follow-ClosedWithin :
      (limit : ℕ) (later : Run W → Option AgentLoopResult × Run W) (r : Round W)
      → RoundWithin limit r
      → ((x : Run W) → ClosedWithin limit (later x).0 (later x).1)
      → ClosedWithin limit (follow later r).0 (follow later r).1
  follow-ClosedWithin limit later (finished result x) within all = within
  follow-ClosedWithin limit later (next x) within all = all x

  pub rounds-ClosedWithin :
      (limit left iteration : ℕ) (x : Run W)
      → iteration + left ≤ limit
      → ClosedWithin limit
          (rounds o execute_step c task_context start left iteration x).0
          (rounds o execute_step c task_context start left iteration x).1
  unfolding rounds stopped_early ended
  rounds-ClosedWithin limit zero iteration x h = (
    omega arith,
    ended-ClosedBy "max_iterations"
        (stopped_early o execute_step (stopped (exhausted_text c.max_iterations)) iteration x) x,
  )
  rounds-ClosedWithin limit (suc left) iteration x h =
      follow-ClosedWithin limit
        (λ y. rounds o execute_step c task_context start left (suc iteration) y)
        (round o execute_step c task_context start iteration x)
        (round-RoundWithin limit iteration x (omega arith))
        (λ y. rounds-ClosedWithin limit left (suc iteration) y (omega arith))

module _ {W : Type 0} (o : Outside W)
    (execute_step : ℕ → StepState W → Option StepOutcome × StepState W)
    (inject : Session → String → W → (Session × List ℕ) × W) where
  -- A result of the loop counts at most `max_iterations` iterations, and where there is a store, the
  -- last thing that was written to it is the event of the end, with the number of iterations and of
  -- tools of that result.
  pub run_agent_loop_with_session-closes :
      (c : LoopConfig) (session : Session) (store : Option (List StoreWrite)) (world : W)
      → ClosedWithin c.max_iterations
          (run_agent_loop_with_session o execute_step inject c session store world).0
          (run_agent_loop_with_session o execute_step inject c session store world).1
  unfolding run_agent_loop_with_session
  run_agent_loop_with_session-closes c session store world =
      rounds-ClosedWithin o execute_step c _ _ c.max_iterations c.max_iterations 0 _ (omega arith)
