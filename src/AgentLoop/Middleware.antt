-- ===== src/AgentLoop/Middleware.antt =====
-- src/agent/middleware.rs: the middlewares and their chain. A trait object is a constructor of
-- `Middleware` with the state it holds. Log lines are left out.
pub mod Guard
pub mod Budget
mod Examples
use bonsai_agent.Prelude.{
  ℕ, ◌+◌, ◌*◌, Bool, true, false, not, String, ◌<>◌, show, Option, none, some, List, [], ◌∷◌, ◌++◌,
  HashMap, str_eq, leb, ltb, length, if◌then◌else◌,
}
use bonsai_agent.Conversation.{Message, Session, add_message, system_message}
use bonsai_agent.Compaction.Config.{CompactionConfig, estimate_tokens}
use bonsai_agent.Compaction.Levels.{compact_level3, compact_if_needed}
use bonsai_agent.LoopState.TokenBudget as TokenBudget
use bonsai_agent.LoopState.Stall as Stall
use bonsai_agent.ToolExec.Apply.{StoreWrite, step_outcome, written}

pub record StepResult : Type 0 where
  pub outcome_type : String
  pub iteration : ℕ
  pub duration_ms : ℕ
  pub tools_used : List String
  pub tools_succeeded : Bool
  pub output_hash : ℕ
  pub consecutive_failures : ℕ

pub data MiddlewareSignal : Type 0 where
  ok : MiddlewareSignal
  inject abort : String → MiddlewareSignal

pub data Middleware : Type 0 where
  audit : Middleware
  tool_tracking : List String → Middleware
  stall : Stall.StallDetector → Middleware
  compaction : CompactionConfig → Middleware
  token_budget : TokenBudget.TokenBudgetTracker → Middleware

-- What a middleware may change beside its own state.
pub record Scene : Type 0 where
  pub session : Session
  pub store : Option (List StoreWrite)

abbrev pub stall_advice : String
stall_advice =
    "【停滞検出】進捗がありません。現在の問題を分析し、別のアプローチを試してください。\n1. 何が妨げているか特定\n2. 別のツールまたはパラメータを検討\n3. タスクを小さく分割"

abbrev pub step_audited : StepResult → StoreWrite
step_audited r =
    step_outcome r.iteration r.outcome_type r.duration_ms r.tools_used r.consecutive_failures

abbrev pub injected : MiddlewareSignal → Session → Session
injected (inject msg) s = add_message s (system_message msg)
injected _ s = s

-- `iteration_order` is the order of a hash map of counts.
module _ (iteration_order : HashMap ℕ → List (String × ℕ)) where
  guarded : CompactionConfig → Session → Session × MiddlewareSignal
  guarded c s =
      let s₁ = record s { messages = compact_level3 iteration_order c s.messages } in
      let after = estimate_tokens s₁.messages in
      if leb (estimate_tokens s.messages) c.max_context_tokens
      then (s, ok)
      else if ltb c.max_context_tokens after
      then (
        s₁,
        abort (
            "context overflow remains after emergency compaction: tokens="
            <> (show after <> (", budget=" <> show c.max_context_tokens))),
      )
      else (s₁, ok)

  -- No middleware changes its own state before a step.
  unfoldable pub before_step : Middleware → ℕ → Session → Session × MiddlewareSignal
  unfolding guarded
  before_step (compaction c) iteration s = guarded c s
  before_step _ iteration s = (s, ok)

  -- The session, and the reason of an abort.
  unfoldable pub run_before_step : List Middleware → ℕ → Session → Session × Option String
  run_before_step [] iteration s = (s, none)
  run_before_step (m ∷ ms) iteration s =
      let (s₁, signal) = before_step m iteration s in
      let rest = run_before_step ms iteration (injected signal s₁) in
      elim signal [ ok ↦ rest | inject msg ↦ rest | abort reason ↦ (s₁, some reason) ]

-- `scale` and `shorten` are products of
-- floats, `hash_hex` and `write_file` name and write the files of compaction level 0.
module _ (iteration_order : HashMap ℕ → List (String × ℕ)) (scale : ℕ → ℕ → ℕ) (shorten : ℕ → ℕ)
    (hash_hex : String → String) (write_file : String → String → Bool) where
  after_stall : Stall.StallDetector → StepResult → Middleware × MiddlewareSignal
  after_stall d r =
      let (d₁, stalled) = Stall.record_step d r.tools_succeeded r.output_hash in
      if not (str_eq r.outcome_type "continue")
      then (stall d, ok)
      else if stalled
      then (stall (Stall.reset d₁), inject stall_advice)
      else (stall d₁, ok)

  advised : Option String → MiddlewareSignal
  advised none = ok
  advised (some msg) = inject msg

  after_budget : TokenBudget.TokenBudgetTracker → StepResult → Middleware × MiddlewareSignal
  unfolding advised
  after_budget t r =
      let t₁ = TokenBudget.record_tokens t (length r.tools_used * 200 + 100) in
      if str_eq r.outcome_type "continue"
      then (token_budget t₁, advised (TokenBudget.check t₁))
      else (token_budget t, ok)

  compacted : CompactionConfig → Session → Session
  compacted c s =
      let (level, messages, offloaded) =
        compact_if_needed iteration_order scale shorten hash_hex write_file c s.messages in
      record s { messages = messages }

  unfoldable pub after_step :
      Middleware → StepResult → Scene → Middleware × Scene × MiddlewareSignal
  unfolding after_stall after_budget compacted advised
  after_step audit r x = (audit, record x { store = written x.store (step_audited r ∷ []) }, ok)
  after_step (tool_tracking tools) r x = (tool_tracking (tools ++ r.tools_used), x, ok)
  after_step (stall d) r x = let (m, signal) = after_stall d r in (m, x, signal)
  after_step (compaction c) r x =
      let x₁ =
        if str_eq r.outcome_type "continue"
        then record x { session = compacted c x.session }
        else x in
      (compaction c, x₁, ok)
  after_step (token_budget t) r x = let (m, signal) = after_budget t r in (m, x, signal)

  unfoldable pub run_after_step : List Middleware → StepResult → Scene → List Middleware × Scene
  run_after_step [] r x = ([], x)
  run_after_step (m ∷ ms) r x =
      let (m₁, x₁, signal) = after_step m r x in
      let (ms₁, x₂) = run_after_step ms r (record x₁ { session = injected signal x₁.session }) in
      (m₁ ∷ ms₁, x₂)

abbrev pub names : List Middleware → List String
names [] = []
names (audit ∷ ms) = "audit" ∷ names ms
names (tool_tracking t ∷ ms) = "tool_tracking" ∷ names ms
names (stall d ∷ ms) = "stall" ∷ names ms
names (compaction c ∷ ms) = "compaction" ∷ names ms
names (token_budget t ∷ ms) = "token_budget" ∷ names ms

-- `config` is `from_n_ctx_budget` with the overrides of the environment.
abbrev pub build_default_chain : CompactionConfig → List Middleware
build_default_chain config =
    audit ∷ tool_tracking [] ∷ compaction config ∷ token_budget TokenBudget.default ∷ []
