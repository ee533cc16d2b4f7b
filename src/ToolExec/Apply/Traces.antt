-- ===== src/ToolExec/Apply/Traces.antt =====
-- What `apply_tool_result` leaves behind.
use bonsai_agent.Prelude.{
  ℕ, Bool, true, false, String, ◌≡◌, refl, sym, ap, ◌∙◌, Option, none, some, List, [], ◌∷◌, ◌++◌,
  append_assoc, append-nil, if◌then◌else◌, Bool-cases, inl, inr,
}
use bonsai_agent.Conversation.{Message, system_message, tool_message}
use bonsai_agent.Recovery.StuckGuard.{
  FileStuckGuard, FileStuckAction, nudge, give_up, check_stuck, record_file_failure,
}
use bonsai_agent.ToolExec.Gate.{ToolExecResult}
use bonsai_agent.ToolExec.Apply.{
  Json, Trace, apply_tool_result, is_failed, advice, file_failed, file_edited, learned, and_then,
  path_member,
}

advice_of : Option FileStuckAction → List Message
advice_of none = []
advice_of (some (nudge m)) = system_message m ∷ []
advice_of (some (give_up m)) = system_message m ∷ []

-- What the guard says on a file after one more failure.
pub advised : FileStuckGuard → Option String → List Message
unfolding advice_of
advised g none = []
advised g (some path) = advice_of (check_stuck (record_file_failure g path) path)

advice-messages :
    (a : Option FileStuckAction) (t : Trace)
    → (advice a t).session.messages ≡ t.session.messages ++ advice_of a
unfolding advice advice_of
advice-messages none t = rw append-nil refl
advice-messages (some (nudge m)) t = refl
advice-messages (some (give_up m)) t = refl

file_failed-messages :
    (path : Option String) (t : Trace)
    → (file_failed path t).session.messages ≡ t.session.messages ++ advised t.file_stuck_guard path
unfolding file_failed advised
file_failed-messages none t = rw append-nil refl
file_failed-messages (some path) t = advice-messages _ _

failure-messages :
    (path : Option String) (cancelled : Bool) (name args output : String) (iteration now : ℕ)
    (t : Trace)
    → (file_failed path (learned cancelled name args output iteration now t)).session.messages
      ≡ t.session.messages ++ advised t.file_stuck_guard path
unfolding learned
failure-messages path true name args output iteration now t = file_failed-messages path t
failure-messages path false name args output iteration now t = file_failed-messages path _

file_edited-session : (path : Option String) (t : Trace) → (file_edited path t).session ≡ t.session
unfolding file_edited
file_edited-session none t = refl
file_edited-session (some path) t = refl

module _ {V : Type 0} (json : Json V) (mask : String → String)
    (truncate : String → ℕ → String) where
  -- Nothing of a result is recorded but its redacted texts: two results that differ only in an
  -- output and in arguments that are redacted to the same texts leave the same trace.
  pub only_redacted :
      (r r' : ToolExecResult) (iteration now max_output_chars : ℕ) (t : Trace)
      → r' ≡ record r { output = r'.output; args_json = r'.args_json }
      → mask r.output ≡ mask r'.output
      → mask r.args_json ≡ mask r'.args_json
      → apply_tool_result json mask truncate r iteration now max_output_chars t
        ≡ apply_tool_result json mask truncate r' iteration now max_output_chars t
  unfolding apply_tool_result
  only_redacted r r' iteration now max_output_chars t same output args =
      ap
        (λ (x : ToolExecResult).
          apply_tool_result json mask truncate
            (record x { output = r.output; args_json = r.args_json }) iteration now max_output_chars
            t)
        (sym same)
      ∙ rw (output, args) refl

  abbrev pub shown : ToolExecResult → ℕ → String
  shown r max_output_chars =
      let output = mask r.output in if is_failed r then output else truncate output max_output_chars

  -- Every result is answered: the session gets one message of the tool, as the last one, with the
  -- redacted output, truncated if the tool succeeded, and before it the advice on the file that the
  -- redacted arguments name, if the tool failed.
  pub apply_tool_result-answers :
      (r : ToolExecResult) (iteration now max_output_chars : ℕ) (t : Trace)
      → let t' = apply_tool_result json mask truncate r iteration now max_output_chars t in
        let file_path = and_then (json.parse (mask r.args_json)) (path_member json) in
        t'.session.messages
        ≡ t.session.messages
          ++ ((if is_failed r then advised t.file_stuck_guard file_path else [])
              ++ tool_message (shown r max_output_chars) r.name ∷ [])
  unfolding apply_tool_result
  apply_tool_result-answers r iteration now max_output_chars t =
      let file_path = and_then (json.parse (mask r.args_json)) (path_member json) in
      elim (Bool-cases (is_failed r)) [
        | inl failed ↦ rw failed (
            ap (λ ms. ms ++ tool_message (mask r.output) r.name ∷ [])
              (failure-messages file_path r.cancelled r.name (mask r.args_json) (mask r.output)
                iteration now _)
            ∙ append_assoc t.session.messages (advised t.file_stuck_guard file_path) _)
        | inr succeeded ↦ rw (succeeded, file_edited-session) refl
      ]
