-- ===== src/AgentLoop/Inject.antt =====
-- src/agent/agent_loop/advisor_inject.rs: the messages that the loop injects on a stall, before a
-- final answer and before the first step; `detect_task_complexity` of outcome.rs beside it. Log
-- lines are left out.
use bonsai_agent.Prelude.{
  ℕ, ◌+◌, ◌-◌, Bool, true, false, not, ◌&&◌, ◌||◌, String, ◌<>◌, len, Option, none, some, List, [],
  ◌∷◌, str_eq, contains, leb, ltb, ◌==◌, is_empty, if◌then◌else◌,
}
use bonsai_agent.Conversation.{Session, add_message, system_message}
use bonsai_agent.Events.{classify_task_type}
use bonsai_agent.Recovery.Trials as Trials
use bonsai_agent.LoopState.Stall as Stall
use bonsai_agent.ToolExec.Apply.{StoreWrite, advisor_skip, write, say}
use bonsai_agent.AgentLoop.Advisor.{
  AdvisorRole, verification, replan, AdvisorConfig, can_advise, record_call, resolve_advisor_prompt,
  log_advisor_call,
}
use bonsai_agent.AgentLoop.State.{Run, Outside}

abbrev pub complex_signals : List String
complex_signals =
    "作成して" ∷ "実装して" ∷ "修正して" ∷ "リファクタ" ∷ "調べて" ∷ "分析して" ∷ "比較して" ∷ "設計して" ∷ "テストを書" ∷ "ビルドして"
    ∷ "デプロイ" ∷ "ファイルを.*して.*して" ∷ []

unfoldable pub count_signals : String → List String → ℕ
count_signals input [] = 0
count_signals input (s ∷ ss) =
    let rest = count_signals input ss in if contains input s then rest + 1 else rest

unfoldable pub detect_task_complexity : String → Bool
detect_task_complexity input = leb 2 (count_signals input complex_signals) || ltb 200 (len input)

pub data StallAction : Type 0 where
  no_stall : StallAction
  replan_injected : StallAction
  exhausted_and_aborted : String → StallAction

abbrev pub exhausted_text : String
exhausted_text = "停滞が継続していますが、アドバイザーの再計画試行上限に達したため処理を中断します"

abbrev pub planning_text : String
planning_text =
    "このタスクは複数ステップが必要です。\n<think> 内で以下の手順を考えてください:\n\n【手順】\n1. 調査: 関連ファイル・情報を集める（file_read, repo_map）\n2. 計画: 仮説を立て、小さなテストで確認\n3. 実行: 計画どおりに実装（1ステップずつ）\n4. 確認: 結果を確認（期待どおりか照合）\n\n【完了条件】\n- すべてのステップを実行した\n- エラーなし、またはエラーを解決した\n- 成果物が要件を満たしている\n\n計画は100語以内、箇条書きで。調査から順に実行。"

unfoldable pub inject_planning_step : Session → String → Session
inject_planning_step s task_context =
    if detect_task_complexity task_context then add_message s (system_message planning_text) else s

abbrev pub checklist_text : String
checklist_text =
    "確認チェックリスト:\n         - すべての主張にツール結果の根拠があるか？\n         - 確認していない仮定が残っていないか？\n         - 見落としているケースはないか？\n         - ツール呼び出し成功率が80%以上か？\n         - ファイル変更がある場合、コンパイル/構文チェックを通過したか？\n         - 元のタスクの完了条件をすべて満たしているか？"

module _ {W : Type 0} (o : Outside W) where
  -- The advice of an advisor, which is recorded, in the session and in the store.
  with_advice : AdvisorRole → String → Run W → String × Run W
  with_advice role task_context x =
      let (r, advisor, world) =
        resolve_advisor_prompt o.advising role task_context x.state.advisor x.current.world in
      (
        r.prompt,
        record {
          current = record x.current {
            trace = log_advisor_call role r x.current.trace;
            world = world;
          };
          state = record x.state { advisor = advisor };
        },
      )

  injection : Trials.TrialSummary → String → String
  injection trials task_context =
      Trials.format_for_injection (Trials.from_trial_summary o.iteration_order trials task_context)

  -- What `push_str` adds to the prompt of a new plan.
  replan_feedback : Trials.TrialSummary → String → String
  unfolding injection
  replan_feedback trials task_context =
      if not (str_eq (injection trials task_context) "")
      then "\n\n" <> injection trials task_context
      else if not (is_empty trials.entries)
      then "\n\n" <> Trials.format_for_replan trials
      else ""

  -- A system message, one more call of the advisor, and a detector that starts again.
  replanned : String → Run W → Run W
  unfolding replan_feedback injection
  replanned task_context x =
      let (prompt, x₁) = with_advice replan task_context x in
      let message = prompt <> replan_feedback x.current.trace.trial_summary task_context in
      record {
        current = record x₁.current { trace = say (system_message message) x₁.current.trace };
        state = record x₁.state {
          advisor = record_call x₁.state.advisor;
          stall_detector = Stall.reset x₁.state.stall_detector;
        };
      }

  unfoldable pub inject_replan_on_stall : String → Bool → ℕ → Run W → StallAction × Run W
  unfolding replanned with_advice replan_feedback injection
  inject_replan_on_stall task_context tools_succeeded output_hash x =
      let (detector, stalled) =
        Stall.record_step x.state.stall_detector tools_succeeded output_hash in
      let x₁ = record x { state = record x.state { stall_detector = detector } } in
      let x₂ = record x { state = record x.state { stall_detector = Stall.reset detector } } in
      if not stalled
      then (no_stall, x₁)
      else if not (can_advise x.state.advisor)
      then (exhausted_and_aborted exhausted_text, x₂)
      else (replan_injected, replanned task_context x₁)

  -- The rate, when it is below the threshold. Without a store there is none.
  unfoldable pub should_skip_verification :
      AdvisorConfig → Option (List StoreWrite) → String → Option ℕ
  should_skip_verification a none task_context = none
  should_skip_verification a (some store) task_context =
      let rate = o.success_rate store (classify_task_type task_context) a.min_samples_for_skip in
      let below : Option ℕ = elim rate [
        | none ↦ none
        | some r ↦ if o.is_below r a.dynamic_skip_threshold then some r else none
      ] in
      if not (o.is_positive a.dynamic_skip_threshold) then none else below

  checklist : Trials.TrialSummary → String → String
  unfolding injection
  checklist trials task_context =
      if not (is_empty trials.entries) && not (str_eq (injection trials task_context) "")
      then checklist_text <> ("\n\n" <> injection trials task_context)
      else checklist_text

  verified : String → Run W → Run W
  unfolding checklist injection with_advice
  verified task_context x =
      let (prompt, x₁) = with_advice verification task_context x in
      record {
        current = record x₁.current {
          trace =
              say (system_message (checklist x.current.trace.trial_summary task_context))
                (say (system_message prompt) x₁.current.trace);
        };
        state = record x₁.state { advisor = record_call x₁.state.advisor };
      }

  skipped : ℕ → String → Run W → Run W
  skipped rate task_context x =
      let reason =
        "rate="
        <> (o.format_rate rate
            <> ("<threshold="
                <> (o.format_rate x.state.advisor.dynamic_skip_threshold
                    <> (" (task=" <> (classify_task_type task_context <> ")"))))) in
      record x {
        current = record x.current { trace = write (advisor_skip reason ∷ []) x.current.trace };
      }

  unfoldable pub inject_verification_step : String → String → ℕ → ℕ → Run W → Bool × Run W
  unfolding verified skipped with_advice checklist injection
  inject_verification_step task_context answer iteration max_iterations x =
      let skip = should_skip_verification x.state.advisor x.current.trace.store task_context in
      let asked : Bool × Run W = elim skip [
        | some rate ↦ (false, skipped rate task_context x)
        | none ↦ (true, verified task_context x)
      ] in
      if iteration == 0
        || not (can_advise x.state.advisor)
        || not (detect_task_complexity task_context)
        || contains answer "[検証済]"
        || leb (max_iterations - 1) iteration
      then (false, x)
      else asked
