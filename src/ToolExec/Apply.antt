-- ===== src/ToolExec/Apply.antt =====
-- src/agent/tool_exec.rs: the truncation of an output and `apply_tool_result`, and `redact` of
-- src/safety/secrets.rs. A write to the store is recorded with what is written and is taken to
-- succeed, since every error of one is ignored. Parameters are the regular expressions (`replace_all`),
-- serde_json (`Json`), `DefaultHasher` and the store of spilled outputs.
pub mod Learning
pub mod Traces
mod Examples
use Prim.Native.Char.{len_utf8}
use bonsai_agent.Prelude.{
  ℕ, zero, suc, ◌+◌, Bool, true, false, not, ◌||◌, String, ◌<>◌, len, show, min, ltb, leb, ◌==◌,
  Option, none, some, List, [], ◌∷◌, ◌++◌, take_chars, if◌then◌else◌,
}
use bonsai_agent.Conversation.{Message, Session, add_message, system_message, tool_message}
use bonsai_agent.Recovery.Breaker as Breaker
use bonsai_agent.Recovery.Trials as Trials
use bonsai_agent.Recovery.StuckGuard.{
  FileStuckGuard, FileStuckAction, nudge, give_up, record_file_failure, record_file_success,
  check_stuck,
}
use bonsai_agent.ToolExec.Gate.{ToolExecResult}

-- The characters that start before the byte `limit`, where the text starts at the byte `at`.
unfoldable pub starting_before : ℕ → ℕ → String → String
starting_before limit at String.[] = ""
starting_before limit at (String.◌∷◌ c s) =
    let rest = starting_before limit (at + len_utf8 c) s in
    if ltb at limit then String.◌∷◌ c String.[] <> rest else ""

-- The characters that end at the byte `limit` or before: `[..floor_char_boundary(limit)]`.
ending_within : ℕ → ℕ → String → String
ending_within limit at String.[] = ""
ending_within limit at (String.◌∷◌ c s) =
    let rest = ending_within limit (at + len_utf8 c) s in
    if leb (at + len_utf8 c) limit then String.◌∷◌ c String.[] <> rest else ""

spilled : Option String → String → ℕ → ℕ → String
spilled (some path) truncated total shown =
    truncated
    <> ("...\n[全文保存: " <> (path <> (" (" <> (show total <> ("文字、表示" <> (show shown <> "文字)]"))))))
spilled none truncated total shown =
    truncated <> ("...\n[全文省略 (" <> (show total <> ("文字、表示" <> (show shown <> "文字)]"))))

module _ (hash : ℕ → String → ℕ) (spill : ℕ → String → Option String) where
  unfoldable pub truncate_tool_output_with : String → ℕ → String
  unfolding spilled ending_within
  truncate_tool_output_with output max_chars =
      if max_chars == 0 || leb (len output) max_chars
      then output
      else let truncated = starting_before max_chars 0 output in
        let safe_end = len truncated in
        let h = hash (len output) (ending_within (min safe_end 200) 0 output) in
        spilled (spill h output) truncated (len output) safe_end

-- `SecretsFilter::redact` with the patterns `patterns`.
unfoldable pub redact : {P : Type 0} → (P → String → String) → List P → String → String
redact replace_all [] text = text
redact replace_all (p ∷ ps) text = redact replace_all ps (replace_all p text)

-- serde_json: `from_str`, `Value::get`, `Value::as_str` and the `Display` text.
pub record Json (V : Type 0) : Type 0 where
  pub parse : String → Option V
  pub get : String → V → Option V
  pub as_str : V → Option String
  pub to_text : V → String

abbrev pub and_then {ℓ ℓ'} : {A : Type ℓ} {B : Type ℓ'} → Option A → (A → Option B) → Option B
and_then none f = none
and_then (some a) f = f a

abbrev pub or_else {ℓ} : {A : Type ℓ} → Option A → Option A → Option A
or_else none other = other
or_else (some a) other = some a

-- `v.get("path").or_else(|| v.get("file_path")).and_then(|p| p.as_str())`.
abbrev pub path_member : {V : Type 0} → Json V → V → Option String
path_member json v = and_then (or_else (json.get "path" v) (json.get "file_path" v)) json.as_str

-- What is written to the store: events, entries of the audit log, of the knowledge graph and of the
-- experiences. The numbers of `session_end` are the iterations and the tools.
pub data StoreWrite : Type 0 where
  tool_call_start : String → StoreWrite
  tool_call_end : String → Bool → StoreWrite
  audit_tool_call : String → String → Bool → String → StoreWrite
  audit_multi_file_nudge : List String → ℕ → ℕ → StoreWrite
  error_pattern : String → String → StoreWrite
  tool_usage : String → String → StoreWrite
  session_start user_message assistant_message : String → StoreWrite
  magi_halt magi_warn : List String → StoreWrite
  session_end : String → ℕ → ℕ → StoreWrite
  step_outcome : ℕ → String → ℕ → List String → ℕ → StoreWrite
  advisor_call : String → String → ℕ → ℕ → StoreWrite
  advisor_skip : String → StoreWrite
  critic_call : String → String → ℕ → ℕ → ℕ → StoreWrite
  saved_session : Session → StoreWrite
  experience_completed experience_aborted : String → String → StoreWrite
  skills_promoted : ℕ → StoreWrite
  heuristic_outcome : ℕ → Bool → StoreWrite

-- What `apply_tool_result` changes. `store` is what was written, where there is a store.
pub record Trace : Type 0 where
  pub session : Session
  pub circuit_breaker : Breaker.CircuitBreaker
  pub trial_summary : Trials.TrialSummary
  pub file_stuck_guard : FileStuckGuard
  pub store : Option (List StoreWrite)

abbrev pub written : Option (List StoreWrite) → List StoreWrite → Option (List StoreWrite)
written none new = none
written (some old) new = some (old ++ new)

abbrev pub write : List StoreWrite → Trace → Trace
write new t = record t { store = written t.store new }

abbrev pub say : Message → Trace → Trace
say m t = record t { session = add_message t.session m }

-- The failure in the breaker and in the trials, unless the user cancelled the call.
learned : Bool → String → String → String → ℕ → ℕ → Trace → Trace
learned true name args output iteration now t = t
learned false name args output iteration now t = record t {
  circuit_breaker = Breaker.record_failure t.circuit_breaker now name;
  trial_summary = Trials.record_failure t.trial_summary name args output iteration;
}

advice : Option FileStuckAction → Trace → Trace
advice none t = t
advice (some (nudge m)) t = say (system_message m) t
advice (some (give_up m)) t = say (system_message m) t

file_failed : Option String → Trace → Trace
file_failed none t = t
file_failed (some path) t =
    let guard = record_file_failure t.file_stuck_guard path in
    advice (check_stuck guard path) (record t { file_stuck_guard = guard })

file_edited : Option String → Trace → Trace
file_edited none t = t
file_edited (some path) t = record t {
  file_stuck_guard = record_file_success t.file_stuck_guard path;
}

abbrev pub or_unknown : Option String → String
or_unknown none = "unknown"
or_unknown (some path) = path

usage_of : String → Option String → List StoreWrite
usage_of name none = []
usage_of name (some path) = tool_usage name path ∷ []

abbrev pub is_failed : ToolExecResult → Bool
is_failed r = r.is_error || not r.success

module _ {V : Type 0} (json : Json V) (mask : String → String)
    (truncate : String → ℕ → String) where
  failure_applied : ToolExecResult → Option String → String → String → ℕ → ℕ → Trace → Trace
  unfolding learned file_failed advice
  failure_applied r file_path args output iteration now t =
      let t₁ = file_failed file_path (learned r.cancelled r.name args output iteration now t) in
      let pattern : List StoreWrite =
        if r.cancelled then [] else error_pattern (or_unknown file_path) r.name ∷ [] in
      say (tool_message output r.name)
        (write (audit_tool_call r.name args false (take_chars 200 output) ∷ pattern) t₁)

  success_applied : ToolExecResult → Option String → String → String → ℕ → Trace → Trace
  unfolding file_edited usage_of
  success_applied r file_path args output max_output_chars t =
      let truncated = truncate output max_output_chars in
      let t₁ =
        file_edited file_path
          (record t { circuit_breaker = Breaker.record_success t.circuit_breaker r.name }) in
      say (tool_message truncated r.name) (
        write
          (audit_tool_call r.name args true (take_chars 200 truncated) ∷ usage_of r.name file_path)
          t₁)

  -- `mask` is `redact` of the filter, `truncate` is `truncate_tool_output`, and `now` the time.
  unfoldable pub apply_tool_result : ToolExecResult → ℕ → ℕ → ℕ → Trace → Trace
  unfolding failure_applied success_applied learned file_failed advice file_edited usage_of
  apply_tool_result r iteration now max_output_chars t =
      let output = mask r.output in
      let args = mask r.args_json in
      let file_path = and_then (json.parse args) (path_member json) in
      let t₁ = write (tool_call_start r.name ∷ tool_call_end r.name (not (is_failed r)) ∷ []) t in
      if is_failed r
      then failure_applied r file_path args output iteration now t₁
      else success_applied r file_path args output max_output_chars t₁
