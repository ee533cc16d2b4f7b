-- ===== src/AgentLoop/Core.antt =====
-- src/agent/agent_loop/core.rs: `run_agent_loop_with_session`. `execute_step` is the step, any
-- function: `none` stands for its error, which `?` passes on. What is injected of memories and
-- heuristics before the loop is a parameter; the purge of the store, the checkpoint of the task and
-- the log lines are left out. Times are in milliseconds.
pub mod Ending
pub mod Spending
pub mod Uses
pub mod Failing
pub mod Context
pub mod Total
mod Counted
mod Examples
use bonsai_agent.Prelude.{
  ℕ, zero, suc, ◌+◌, ◌-◌, ◌/◌, Bool, true, false, String, ◌<>◌, show, Option, none, some, List, [],
  ◌∷◌, ltb, length, take_chars, if◌then◌else◌,
}
use mathlib.Core.List.{reverse}
use bonsai_agent.Conversation.{
  Message, Session, is_user, add_message, new_session, system_message, user_message,
}
use bonsai_agent.Compaction.Config.{CompactionConfig}
use bonsai_agent.Recovery.Breaker as Breaker
use bonsai_agent.Recovery.Trials as Trials
use bonsai_agent.Recovery.StuckGuard as StuckGuard
use bonsai_agent.Recovery.LoopDetector as LoopDetector
use bonsai_agent.Recovery.EditCycle as EditCycle
use bonsai_agent.ToolExec.Cache as Cache
use bonsai_agent.WorkingMemory.{cap_session_messages}
use bonsai_agent.ToolExec.Apply.{
  Trace, StoreWrite, session_start, user_message as user_event, session_end, write, written,
}
use bonsai_agent.AgentLoop.Middleware.{run_before_step, build_default_chain}
use bonsai_agent.AgentLoop.Advisor.{AdvisorConfig}
use bonsai_agent.AgentLoop.Inject.{inject_planning_step}
use bonsai_agent.AgentLoop.State.{
  AgentLoopResult, StepOutcome, OutcomeAction, return, go_on, CriticConfig, LoopState, StepState,
  Run, Outside, new,
}
use bonsai_agent.AgentLoop.Outcome.{handle_outcome, traced, stopped}

-- The fields of `AgentConfig` that the loop reads; `capping` and `cap` are `working_cap_from_env`,
-- `compaction` is the configuration of the default chain.
pub record LoopConfig : Type 0 where
  pub max_iterations : ℕ
  pub task_timeout : Option ℕ
  pub capping : Bool
  pub cap : ℕ
  pub compaction : CompactionConfig
  pub advisor : AdvisorConfig
  pub critic : CriticConfig

-- What one round of the loop comes to: the end of the loop, or the state for the next round.
pub data Round (W : Type 0) : Type 0 where
  finished : Option AgentLoopResult → Run W → Round W
  next : Run W → Round W

abbrev pub follow :
    {W : Type 0}
    → (Run W → Option AgentLoopResult × Run W)
    → Round W
    → Option AgentLoopResult × Run W
follow later (finished result x) = (result, x)
follow later (next x) = later x

abbrev pub timed_out : Option ℕ → ℕ → Bool
timed_out none elapsed = false
timed_out (some timeout) elapsed = ltb timeout elapsed

abbrev pub timeout_text : Option ℕ → String
timeout_text none = ""
timeout_text (some timeout) = "[タイムアウト] " <> (show (timeout / 1000) <> "秒以内に完了できませんでした")

abbrev pub exhausted_text : ℕ → String
exhausted_text max_iterations = "最大ステップ数(" <> (show max_iterations <> ")に達しました。タスクを完了できませんでした。")

last_user_from : List Message → String
last_user_from [] = ""
last_user_from (m ∷ ms) = let rest = last_user_from ms in if is_user m.role then m.content else rest

unfoldable pub task_context_of : Session → String
unfolding last_user_from
task_context_of s = last_user_from (reverse s.messages)

-- The event of the end, and the result that is returned.
unfoldable pub ended :
    {W : Type 0} → String → AgentLoopResult → Run W → Option AgentLoopResult × Run W
ended reason result x = (
  some result,
  traced
      (write (session_end reason result.iterations_used (length result.tools_called) ∷ [])
        x.current.trace)
      x,
)

unfoldable pub concluded : {W : Type 0} → String → AgentLoopResult → Run W → Round W
unfolding ended
concluded reason result x = let (r, y) = ended reason result x in finished r y

module _ {W : Type 0} (o : Outside W)
    (execute_step : ℕ → StepState W → Option StepOutcome × StepState W) where
  pub stopped_early : String → ℕ → Run W → AgentLoopResult
  stopped_early answer iteration x = record {
    answer = answer;
    iterations_used = iteration;
    tools_called = x.state.all_tools;
  }

  pub acted : OutcomeAction × Run W → Round W
  unfolding concluded ended
  acted (return result, x) = concluded "completed" result x
  acted (go_on, x) = next x

  module _ (c : LoopConfig) (task_context : String) (start : ℕ) where
    -- The outcome of a step that took `duration` milliseconds.
    pub resumed : ℕ → ℕ → Option StepOutcome → Run W → Round W
    unfolding acted concluded ended
    resumed iteration duration none x = finished none x
    resumed iteration duration (some outcome) x = acted (
        handle_outcome o task_context c.max_iterations (iteration + 1) iteration duration outcome x)

    pub stepped : ℕ → Run W → Round W
    unfolding resumed acted concluded ended
    stepped iteration x =
        let (outcome, s) = execute_step iteration x.current in
        resumed iteration (o.advising.now s.world - o.advising.now x.current.world) outcome
          (record x { current = s })

    -- The cap of the working memory, then the middlewares.
    pub guarded : ℕ → Run W → Option String × Run W
    guarded iteration x =
        let t = x.current.trace in
        let (capped, evicted) = cap_session_messages c.capping c.cap t.session in
        let (s, reason) =
          run_before_step o.iteration_order x.state.middleware_chain iteration capped in
        (
          reason,
          record {
            current = record x.current { trace = record t { session = s } };
            state = record x.state { iteration = iteration };
          },
        )

    pub let_in : ℕ → Option String → Run W → Round W
    unfolding stepped resumed acted stopped_early concluded ended
    let_in iteration none x = stepped iteration x
    let_in iteration (some reason) x =
        concluded "abort" (stopped_early (stopped reason) iteration x) x

    unfoldable pub round : ℕ → Run W → Round W
    unfolding let_in stepped resumed acted guarded stopped_early concluded ended
    round iteration x =
        let (reason, y) = guarded iteration x in
        let run = let_in iteration reason y in
        if timed_out c.task_timeout (o.advising.now x.current.world - start)
        then concluded "timeout" (stopped_early (timeout_text c.task_timeout) iteration x) x
        else run

    -- `for iteration in 0..max_iterations`, with the rounds that are left.
    unfoldable pub rounds : ℕ → ℕ → Run W → Option AgentLoopResult × Run W
    unfolding stopped_early
    rounds zero iteration x =
        ended "max_iterations"
          (stopped_early (stopped (exhausted_text c.max_iterations)) iteration x) x
    rounds (suc left) iteration x = follow (λ y. rounds left (suc iteration) y) (round iteration x)

  -- `inject` are the memory blocks, the heuristics with their numbers, and the memories.
  unfoldable pub run_agent_loop_with_session :
      (Session → String → W → (Session × List ℕ) × W)
      → LoopConfig
      → Session
      → Option (List StoreWrite)
      → W
      → Option AgentLoopResult × Run W
  run_agent_loop_with_session inject c session store world =
      let task_context = task_context_of session in
      let opening = take_chars 500 task_context in
      let ((s, ids), w) = inject session task_context world in
      let t : Trace = record {
        session = inject_planning_step s task_context;
        circuit_breaker = Breaker.default;
        trial_summary = Trials.default;
        file_stuck_guard = StuckGuard.default;
        store = written store (session_start opening ∷ user_event opening ∷ []);
      } in
      rounds c task_context (o.advising.now w) c.max_iterations 0 (record {
        current = record {
          trace = t;
          loop_detector = LoopDetector.default;
          tool_cache = Cache.new;
          cycle_detector = EditCycle.default;
          world = w;
        };
        state = new c.advisor c.critic ids (build_default_chain c.compaction);
      })
