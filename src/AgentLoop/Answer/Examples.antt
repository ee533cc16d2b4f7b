-- ===== src/AgentLoop/Answer/Examples.antt =====
-- Repeated lines.
use bonsai_agent.Prelude.{◌≡◌, refl, trim_end}
use bonsai_agent.AgentLoop.Answer.{clean_response}

clean_response-repeats : clean_response "a\r\na\nb\nb\na\n" ≡ "a\nb\na"
unfolding clean_response trim_end
clean_response-repeats = refl
