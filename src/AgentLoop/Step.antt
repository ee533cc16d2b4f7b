-- ===== src/AgentLoop/Step.antt =====
-- src/agent/agent_loop/step.rs: `execute_step`. The choice of the tools that the model is shown, the
-- inference parameters and the directive for turns on memory belong to the question (`ask`), whose
-- error ends the step.
pub mod Answers
use bonsai_agent.Prelude.{
  ℕ, ◌+◌, Bool, true, false, not, ◌&&◌, ◌||◌, String, ◌<>◌, Option, none, some, List, [], ◌∷◌, ◌++◌,
  ◌⊎◌, HashMap, any, str_eq, join, is_empty, ltb, if◌then◌else◌,
}
use bonsai_agent.Conversation.{
  Message, Session, is_tool, user_message, assistant_message, tool_message,
}
use bonsai_agent.Recovery.Failure.{
  FailureMode, parse_error, ParseErrorDetail, loop_detected, RecoveryAction, explain_and_stop,
  retry_with_fix, abort, decide_recovery,
}
use bonsai_agent.Recovery.Breaker as Breaker
use bonsai_agent.Recovery.LoopDetector as LoopDetector
use bonsai_agent.ToolExec.Gate.{Tool, ValidatedCall, Policy}
use bonsai_agent.ToolExec.Apply.{
  Json, Trace, StoreWrite, assistant_message as assistant_event, magi_halt, magi_warn, write, say,
}
use bonsai_agent.ToolExec.Batch.{Execution, execute_validated_calls}
use bonsai_agent.Panel.{
  Judge, JudgeVerdict, DecisionOutcome, proceed, warn, halt, block_reasons, concern_reasons,
  evaluate_tool_safety, evaluate_final_answer_full,
}
use bonsai_agent.Parsing.{
  ToolCall, ParsedOutput, ParseResult, parsed, failed, parse_assistant_output,
}
use bonsai_agent.AgentLoop.Answer.{build_answer}
use bonsai_agent.AgentLoop.State.{StepOutcome, final_answer, continue, aborted, StepState}
use bonsai_agent.AgentLoop.Core.{task_context_of}
use bonsai_agent.AgentLoop.Dispatch.{StepContext, retraced, act, tool_contents}

module _ {W V : Type 0} (c : StepContext W V) where
  halted : ℕ → String → List String → StepState W → StepOutcome × StepState W
  halted attempt answer reasons s =
      let why = join "; " reasons in
      let t = write (magi_halt reasons ∷ []) s.trace in
      let advice =
        "【MAGI合議制による安全指導】提示された回答に重大な安全違反（"
        <> (why <> "）が検出されました。破壊的・危険な指示を撤回し、安全で責任ある代替手順を提示してください。") in
      if ltb attempt c.max_retries
      then (
        continue [] false,
        retraced (say (user_message advice) (say (assistant_message answer) t)) s,
      )
      else (aborted ("MAGI合議制により最終回答が停止（Halt）されました: " <> why), retraced t s)

  given : String → StepState W → StepOutcome × StepState W
  given text s = (
    final_answer text,
    retraced (write (assistant_event text ∷ []) (say (assistant_message text) s.trace)) s,
  )

  ruled : ℕ → String → DecisionOutcome × List JudgeVerdict → StepState W → StepOutcome × StepState W
  unfolding halted given
  ruled attempt text (halt v, verdicts) s = halted attempt text (block_reasons verdicts) s
  ruled attempt text (warn v, verdicts) s =
      given text (retraced (write (magi_warn (concern_reasons verdicts) ∷ []) s.trace) s)
  ruled attempt text (proceed, verdicts) s = given text s

  unfoldable pub conclude : ℕ → ParsedOutput V → StepState W → StepOutcome × StepState W
  unfolding ruled halted given
  conclude attempt output s =
      let text = build_answer output in
      let decision =
        evaluate_final_answer_full c.judges text (task_context_of s.trace.session)
          (tool_contents s.trace.session.messages) in
      ruled attempt text decision s

  again : String → StepState W → StepOutcome × StepState W
  again text s = (continue [] false, retraced (say (user_message text) s.trace) s)

  misread : ℕ → String → StepState W → StepOutcome × StepState W
  unfolding again
  misread attempt e s =
      let mode = parse_error ParseErrorDetail.invalid_json in
      elim (decide_recovery c.debug mode attempt c.max_retries) [
        | explain_and_stop msg ↦ (aborted msg, s)
        | retry_with_fix fix ↦ again ("【形式修正指示】前回の出力でパースエラー（" <> (e <> ("）が発生しました。\n" <> fix))) s
        | _ ↦ again ("【形式修正指示】パースエラー（" <> (e <> "）が発生しました。正しい形式で再度出力してください。")) s
      ]

  pub read : ℕ → String → ParseResult V → StepState W → StepOutcome × StepState W
  unfolding misread again
  read attempt text (failed e) s = misread attempt e s
  read attempt text (parsed output) s =
      if is_empty output.tool_calls
      then conclude attempt output s
      else act c attempt text output.tool_calls s

  -- `none` is the error of the question; the reader answers on every text.
  pub heard : ℕ → Option String → StepState W → Option StepOutcome × StepState W
  unfolding read misread again
  heard attempt none s = (none, s)
  heard attempt (some text) s = elim (parse_assistant_output c.read_call c.normalize c.xml text) [
    | none ↦ (none, s)
    | some result ↦ let (outcome, t) = read attempt text result s in (some outcome, t)
  ]

  unfoldable pub execute_step : ℕ → StepState W → Option StepOutcome × StepState W
  unfolding heard read misread again
  execute_step attempt s =
      let (text, world) = c.ask s.trace.session s.world in
      let asked = heard attempt text (record s { world = world }) in
      if c.cancelled s.world then (some (aborted "キャンセルされました"), s) else asked
