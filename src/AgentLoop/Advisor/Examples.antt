-- ===== src/AgentLoop/Advisor/Examples.antt =====
-- An advisor behind an endpoint, in a world that counts the requests.
use bonsai_agent.Prelude.{ℕ, ◌+◌, ◌≡◌, refl, String, Option, none, some, [], ◌∷◌, count}
use bonsai_agent.AgentLoop.Advisor.{
  AdvisorRole, verification, replan, AdvisorConfig, default, Advising, AdvisorRequest,
  try_remote_advice, resolve_advisor_prompt, user_prompt, local_prompt_for,
}
use bonsai_agent.AgentLoop.Advisor.Source.{try_remote_advice-again, resolve_advisor_prompt-local}

key_of : AdvisorRole → String → ℕ
key_of verification task = 1000 + count task
key_of replan task = count task

answer : AdvisorRequest → ℕ → Option String × ℕ
answer r requests = (some "split the task", requests + 1)

unfoldable pub counting : Advising ℕ
unfolding key_of answer
counting = record {
  now = λ requests. requests;
  cache_key = key_of;
  claude_cli = λ prompt requests. (none, requests + 1);
  post = answer;
}

abbrev remote : AdvisorConfig
remote = record default { api_endpoint = some "http://localhost/v1" }

abbrev asked : AdvisorConfig
asked = record remote { cache = (3, "split the task") ∷ [] }

asked_once :
    try_remote_advice counting replan "fix" asked 7 ≡ (some (some "split the task"), asked, 7)
unfolding counting try_remote_advice user_prompt
asked_once = try_remote_advice-again counting replan "fix" remote asked 0 1 7 "split the task" refl

answered_locally : resolve_advisor_prompt counting verification "fix" default 4 ≡ (
  record { prompt = default.verification_prompt; source = "local"; duration_ms = 0 },
  default,
  4,
)
unfolding local_prompt_for
answered_locally = resolve_advisor_prompt-local counting verification "fix" default 4 refl refl
