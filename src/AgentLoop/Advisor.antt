-- ===== src/AgentLoop/Advisor.antt =====
-- src/runtime/model_router.rs: `AdvisorConfig` and its requests for advice, and
-- `resolve_advisor_prompt` and `log_advisor_call` of src/agent/agent_loop/advisor_inject.rs. A
-- request that fails answers `none`. The retry policy, read by another client only, and the
-- cancellation of a request are left out. A threshold that the source holds as a float is held as its
-- bit pattern.
pub mod Source
mod Examples
use bonsai_agent.Prelude.{
  ℕ, ◌+◌, ◌-◌, ◌/◌, Bool, true, false, String, ◌<>◌, count, Option, none, some, List, [], ◌∷◌,
  str_eq, ltb, ◌==◌, HashMap, if◌then◌else◌,
}
use bonsai_agent.ToolExec.Apply.{StoreWrite, advisor_call, Trace, write}

pub data AdvisorRole : Type 0 where
  verification replan : AdvisorRole

abbrev pub role_text : AdvisorRole → String
role_text verification = "verification"
role_text replan = "replan"

abbrev pub system_prompt : AdvisorRole → String
system_prompt verification = "あなたは小型ローカルLLMのアドバイザーです。実行者が回答を出す前に、不足や確認すべき点を100語以内・箇条書きで提示してください。"
system_prompt replan =
    "あなたは小型ローカルLLMのアドバイザーです。実行者が停滞しています。別の方法を100語以内・箇条書きで: 1. 失敗の原因 2. 別のツール/手順 3. 次にやること。"

unfoldable pub user_prompt : AdvisorRole → String → String
user_prompt verification task_context = "タスク: " <> (task_context <> "\n\n上記の確認事項を簡潔に。")
user_prompt replan task_context = "タスク: " <> (task_context <> "\n\n停滞しています。別の方法を提案してください。")

pub data AdvisorBackend : Type 0 where
  local http claude_code : AdvisorBackend

abbrev pub is_claude_code : AdvisorBackend → Bool
is_claude_code claude_code = true
is_claude_code _ = false

pub record AdvisorConfig : Type 0 where
  pub max_uses : ℕ
  pub calls_used : ℕ
  pub max_advisor_tokens : ℕ
  pub api_endpoint : Option String
  pub api_key : Option String
  pub api_model : Option String
  pub timeout_secs : ℕ
  pub verification_prompt : String
  pub replan_prompt : String
  pub backend : AdvisorBackend
  pub cache : List (ℕ × String)
  pub dynamic_skip_threshold : ℕ
  pub min_samples_for_skip : ℕ

abbrev pub default : AdvisorConfig
default = record {
  max_uses = 3;
  calls_used = 0;
  max_advisor_tokens = 700;
  api_endpoint = none;
  api_key = none;
  api_model = none;
  timeout_secs = 10;
  verification_prompt = "回答前に確認: 目標を達成できていますか？不足があれば追加してください。問題なければ回答に[検証済]を含めてください。";
  replan_prompt = "停滞しています。これまでの方法ではうまくいきません。\n<think>内で別の方法を計画:\n1. 失敗の原因\n2. 別のツール/手順\n3. 次にやること";
  backend = local;
  cache = [];
  dynamic_skip_threshold = 0;
  min_samples_for_skip = 5;
}

unfoldable pub can_advise : AdvisorConfig → Bool
can_advise a = ltb a.calls_used a.max_uses

unfoldable pub record_call : AdvisorConfig → AdvisorConfig
record_call a = record a { calls_used = a.calls_used + 1 }

unfoldable pub remaining : AdvisorConfig → ℕ
remaining a = a.max_uses - a.calls_used

-- The task has no part in a local prompt.
unfoldable pub local_prompt_for : AdvisorConfig → AdvisorRole → String → String
local_prompt_for a verification task_context = a.verification_prompt
local_prompt_for a replan task_context = a.replan_prompt

-- `HashMap<u64, String>`: a key that is put in again has a new value.
abbrev pub cached : ℕ → List (ℕ × String) → Option String
cached key [] = none
cached key ((k, v) ∷ entries) = let later = cached key entries in if k == key then some v else later

pub record AdvisorRequest : Type 0 where
  pub endpoint : String
  pub authorization : Option String
  pub model : String
  pub system : String
  pub user : String
  pub max_tokens : ℕ
  pub timeout : ℕ

abbrev pub model_or_default : Option String → String
model_or_default none = "gpt-4o-mini"
model_or_default (some model) = model

-- `post` sends a request and answers the content of the first choice, empty where there is none;
-- `claude_cli` runs the command; `cache_key` is the hash; `now` is in milliseconds.
pub record Advising (W : Type 0) : Type 0 where
  pub now : W → ℕ
  pub cache_key : AdvisorRole → String → ℕ
  pub claude_cli : String → W → Option String × W
  pub post : AdvisorRequest → W → Option String × W

-- `Err` is `none`, and `Ok(None)` is `some none`.
abbrev pub Advice : Type 0
Advice = Option (Option String)

-- `source` is "claude-code", "remote" or "local".
pub record AdvisorResolution : Type 0 where
  pub prompt : String
  pub source : String
  pub duration_ms : ℕ

resolution : String → String → ℕ → AdvisorResolution
resolution prompt source duration_ms = record {
  prompt = prompt;
  source = source;
  duration_ms = duration_ms;
}

module _ {W : Type 0} (o : Advising W) where
  remembered : ℕ → AdvisorConfig → Option String × W → Advice × AdvisorConfig × W
  remembered key a (none, w) = (none, a, w)
  remembered key a (some content, w) =
      (some (some content), record a { cache = (key, content) ∷ a.cache }, w)

  -- An empty answer is an error.
  not_empty : Option String × W → Option String × W
  not_empty (none, w) = (none, w)
  not_empty (some content, w) = if str_eq content "" then (none, w) else (some content, w)

  unfoldable pub try_claude_code_advice :
      AdvisorRole → String → AdvisorConfig → W → Advice × AdvisorConfig × W
  unfolding remembered
  try_claude_code_advice role task_context a w =
      let key = o.cache_key role task_context in
      let prompt =
        system_prompt role
        <> ("\n\n" <> (user_prompt role task_context <> "\n\n制約: 100語以内、箇条書きで簡潔に回答。")) in
      let asked = remembered key a (o.claude_cli prompt w) in
      let known : Advice × AdvisorConfig × W = elim (cached key a.cache) [
        | some content ↦ (some (some content), a, w)
        | none ↦ asked
      ] in
      if is_claude_code a.backend then known else (some none, a, w)

  unfoldable pub request : AdvisorRole → String → AdvisorConfig → String → AdvisorRequest
  request role task_context a endpoint = record {
    endpoint = endpoint;
    authorization = elim a.api_key [ none ↦ none | some key ↦ some ("Bearer " <> key) ];
    model = model_or_default a.api_model;
    system = system_prompt role;
    user = user_prompt role task_context;
    max_tokens = a.max_advisor_tokens;
    timeout = a.timeout_secs;
  }

  unfoldable pub try_remote_advice :
      AdvisorRole → String → AdvisorConfig → W → Advice × AdvisorConfig × W
  unfolding remembered not_empty request
  try_remote_advice role task_context a w = elim a.api_endpoint [
    | none ↦ (some none, a, w)
    | some endpoint ↦
        let key = o.cache_key role task_context in
        let asked =
          remembered key a (not_empty (o.post (request role task_context a endpoint) w)) in
        elim (cached key a.cache) [ some content ↦ (some (some content), a, w) | none ↦ asked ]
  ]

  unfoldable pub resolve_advisor_prompt :
      AdvisorRole → String → AdvisorConfig → W → AdvisorResolution × AdvisorConfig × W
  unfolding resolution
  resolve_advisor_prompt role task_context a w =
      let (cc, a₁, w₁) = try_claude_code_advice role task_context a w in
      let (remote, a₂, w₂) = try_remote_advice role task_context a₁ w₁ in
      let spent = o.now w₂ - o.now w in
      let own = local_prompt_for a₂ role task_context in
      let otherwise : AdvisorResolution = elim remote [
        | some (some advice) ↦ resolution advice "remote" spent
        | some none ↦ resolution own "local" 0
        | none ↦ resolution own "local" spent
      ] in
      elim cc [
        | some (some advice) ↦ (resolution advice "claude-code" (o.now w₁ - o.now w), a₁, w₁)
        | _ ↦ (otherwise, a₂, w₂)
      ]

unfoldable pub log_advisor_call : AdvisorRole → AdvisorResolution → Trace → Trace
log_advisor_call role r t =
    write (advisor_call (role_text role) r.source (count r.prompt) r.duration_ms ∷ []) t
