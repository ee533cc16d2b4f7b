-- ===== src/AgentLoop/Dispatch.antt =====
-- src/agent/agent_loop/step.rs: the calls that the model wants, from their tests to their execution.
-- The validation of a call (Guarded puts that of Validate in its place), the judges and the registry
-- of tools are parameters; the registry answers with a tool whether it only reads.
pub mod Checked
pub mod Guarded
mod Examples
use bonsai_agent.Prelude.{
  ℕ, ◌+◌, Bool, true, false, not, ◌&&◌, ◌||◌, String, ◌<>◌, Option, none, some, List, [], ◌∷◌, ◌++◌,
  ◌⊎◌, HashMap, any, str_eq, join, is_empty, ltb, if◌then◌else◌,
}
use bonsai_agent.Conversation.{
  Message, Session, is_tool, user_message, assistant_message, tool_message,
}
use bonsai_agent.Recovery.Failure.{
  FailureMode, parse_error, ParseErrorDetail, loop_detected, RecoveryAction, explain_and_stop,
  retry_with_fix, abort, decide_recovery,
}
use bonsai_agent.Recovery.Breaker as Breaker
use bonsai_agent.Recovery.LoopDetector as LoopDetector
use bonsai_agent.ToolExec.Gate.{Tool, ValidatedCall, Policy}
use bonsai_agent.ToolExec.Apply.{
  Json, Trace, StoreWrite, assistant_message as assistant_event, magi_halt, magi_warn, write, say,
}
use bonsai_agent.ToolExec.Batch.{Execution, execute_validated_calls}
use bonsai_agent.Panel.{
  Judge, JudgeVerdict, DecisionOutcome, proceed, warn, halt, block_reasons, concern_reasons,
  evaluate_tool_safety, evaluate_final_answer_full,
}
use bonsai_agent.Parsing.{
  ToolCall, ParsedOutput, ParseResult, parsed, failed, parse_assistant_output,
}
use bonsai_agent.AgentLoop.Answer.{build_answer}
use bonsai_agent.AgentLoop.State.{StepOutcome, final_answer, continue, aborted, StepState}
use bonsai_agent.AgentLoop.Core.{task_context_of}

-- `StepContext` and the parameters. `validate` answers whether a call is valid and the messages of
-- the issues that block it.
pub record StepContext (W V : Type 0) : Type 0 where
  pub cancelled : W → Bool
  pub ask : Session → W → Option String × W
  pub normalize : String → String
  pub xml : String → Option (ParseResult V)
  pub read_call : String → ToolCall V ⊎ String
  pub max_retries : ℕ
  pub allowed_tools : Option (List String)
  pub judges : List Judge
  pub validate : ToolCall V → Bool × List String
  pub find_tool : String → Option (Tool W V × Bool)
  pub json : Json V
  pub coerce : V → V
  pub mask : String → String
  pub truncate : String → ℕ → String
  pub now : W → ℕ
  pub file_name : String → String
  pub keys_of : HashMap ℕ → List String
  pub policy : Policy
  pub json_keys : String → Option (List String)
  pub hash : String → ℕ
  pub debug : FailureMode → String

unfoldable pub is_tool_allowed : Option (List String) → String → Bool
is_tool_allowed none name = true
is_tool_allowed (some list) name = any (λ t. str_eq t name) list

abbrev pub tool_contents : List Message → List String
tool_contents [] = []
tool_contents (m ∷ ms) =
    let rest = tool_contents ms in if is_tool m.role then m.content ∷ rest else rest

abbrev pub halt_reasons : DecisionOutcome → List String
halt_reasons (halt verdicts) = block_reasons verdicts
halt_reasons _ = []

abbrev pub is_halt : DecisionOutcome → Bool
is_halt (halt verdicts) = true
is_halt _ = false

abbrev pub retraced : {W : Type 0} → Trace → StepState W → StepState W
retraced t s = record s { trace = t }

-- What becomes of a call: a refusal writes to the store and may tell the model why.
pub data CallCheck (W V : Type 0) : Type 0 where
  refused : List StoreWrite → Option String → CallCheck W V
  accepted : ValidatedCall W V → CallCheck W V

-- The calls to execute, or the text that the step is aborted with.
pub record Gathered (W V : Type 0) : Type 0 where
  pub abort_msg : Option String
  pub validated : List (ValidatedCall W V)
  pub state : StepState W

alternative : String → String
alternative name =
    if str_eq name "shell"
    then "代わりにfile_readやgitツールを使ってください。"
    else if str_eq name "file_write"
    then "許可されたディレクトリのパスを指定してください。"
    else "別のツールか、別のパラメータで試してください。"

allowed_hint : Option (List String) → String
allowed_hint none = "このサブタスクではツールを使用できません。手元の情報だけで回答してください。"
allowed_hint (some names) =
    let allowed_list = join ", " names in
    if str_eq allowed_list ""
    then "このサブタスクではツールを使用できません。手元の情報だけで回答してください。"
    else "使用できるツールは次のみです: " <> allowed_list

module _ {W V : Type 0} (c : StepContext W V) where
  pub validated_call : ToolCall V → Tool W V → Bool → ValidatedCall W V
  validated_call call tool is_read_only = record {
    name = call.name;
    args_json = c.json.to_text call.arguments;
    coerced_args = c.coerce call.arguments;
    tool = tool;
    is_read_only = is_read_only;
  }

  -- A tool that was found. One that may write is judged.
  pub judged : ToolCall V → Option (Tool W V × Bool) → CallCheck W V
  unfolding validated_call
  judged call none = refused [] none
  judged call (some (tool, is_read_only)) =
      let decision = evaluate_tool_safety c.judges call.name (c.json.to_text call.arguments) in
      let reasons = halt_reasons decision in
      if not is_read_only && is_halt decision
      then refused (magi_halt reasons ∷ [])
          (some ("MAGI合議制により停止（Halt）されました: " <> (join "; " reasons <> "。操作を中断し再検討してください。")))
      else accepted (validated_call call tool is_read_only)

  unfoldable pub check_call : ToolCall V → StepState W → CallCheck W V
  unfolding judged validated_call alternative allowed_hint
  check_call call s =
      let (is_valid, issues) = c.validate call in
      if not (Breaker.is_available s.trace.circuit_breaker (c.now s.world) call.name)
      then refused [] (some ("ツール '" <> (call.name <> "' は連続で失敗したため使えません。別の方法を試してください。")))
      else if not (is_tool_allowed c.allowed_tools call.name)
      then refused [] (
          some (
            "拒否: ツール '"
            <> (call.name <> ("' はこのサブエージェントでは許可されていません。" <> allowed_hint c.allowed_tools))))
      else if not is_valid
      then refused [] (some ("拒否: " <> (join ", " issues <> ("。" <> alternative call.name))))
      else judged call (c.find_tool call.name)

  pub told : String → Option String → Trace → Trace
  told name none t = t
  told name (some text) t = say (tool_message text name) t

  loop_text : ℕ → String → String
  loop_text attempt name = elim (decide_recovery c.debug loop_detected attempt c.max_retries) [
    | abort msg ↦ msg
    | explain_and_stop msg ↦ msg
    | _ ↦ "同じ操作 '" <> (name <> "' を繰り返しています。ループを止めるため中断します。")
  ]

  pub sorted_out :
      (List (ValidatedCall W V) → StepState W → Gathered W V)
      → String
      → CallCheck W V
      → List (ValidatedCall W V)
      → StepState W
      → Gathered W V
  unfolding told
  sorted_out later name (refused writes text) done s =
      later done (retraced (told name text (write writes s.trace)) s)
  sorted_out later name (accepted call) done s = later (done ++ call ∷ []) s

  -- The loop over the calls that the model wants.
  unfoldable pub gather :
      ℕ → List (ToolCall V) → List (ValidatedCall W V) → StepState W → Gathered W V
  unfolding sorted_out told loop_text
  gather attempt [] done s = record { abort_msg = none; validated = done; state = s }
  gather attempt (call ∷ calls) done s =
      let action_key = call.name <> (":" <> c.json.to_text call.arguments) in
      let (detector, looping) =
        LoopDetector.record_and_check c.json_keys c.hash s.loop_detector action_key in
      let s₁ = record s { loop_detector = detector } in
      let end : Gathered W V = record {
        abort_msg = some (loop_text attempt call.name);
        validated = done;
        state = s₁;
      } in
      let rest =
        sorted_out (λ d t. gather attempt calls d t) call.name (check_call call s₁) done s₁ in
      if looping then end else rest

  run_calls : ℕ → List (ValidatedCall W V) → StepState W → StepOutcome × StepState W
  run_calls attempt calls s =
      let x =
        execute_validated_calls c.json c.mask c.truncate c.now c.file_name c.keys_of c.policy
          attempt calls
          (record {
            trace = s.trace;
            cache = s.tool_cache;
            cycle_detector = s.cycle_detector;
            world = s.world;
            step_tools = [];
            all_succeeded = true;
          }) in
      (
        continue x.step_tools x.all_succeeded,
        record {
          trace = x.trace;
          loop_detector = s.loop_detector;
          tool_cache = x.cache;
          cycle_detector = x.cycle_detector;
          world = x.world;
        },
      )

  pub ran : ℕ → Gathered W V → StepOutcome × StepState W
  unfolding run_calls
  ran attempt g = elim g.abort_msg [
    | some text ↦ (aborted text, g.state)
    | none ↦ run_calls attempt g.validated g.state
  ]

  -- The calls, with what the model wrote.
  unfoldable pub act : ℕ → String → List (ToolCall V) → StepState W → StepOutcome × StepState W
  unfolding ran run_calls
  act attempt text calls s =
      let t = write (assistant_event text ∷ []) (say (assistant_message text) s.trace) in
      ran attempt (gather attempt calls [] (retraced t s))
