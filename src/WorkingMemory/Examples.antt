-- ===== src/WorkingMemory/Examples.antt =====
-- A session of three messages under a cap of two.
use bonsai_agent.Prelude.{
  ℕ, ◌-◌, ◌≤◌, true, false, ◌≡◌, refl, none, some, any, ◌==◌, [], ◌∷◌, length,
}
use bonsai_agent.Conversation.{Session, system_message, user_message, tool_message, systems}
use bonsai_agent.WorkingMemory.{
  cap_session_messages, priority_score, working_cap, recent_tool_indices, has_index, evictions,
}
use bonsai_agent.WorkingMemory.Protected.{cap_session_messages-protects}

abbrev session : Session
session = record {
  id = "s";
  messages = system_message "rules" ∷ user_message "hi" ∷ tool_message "out" "ls" ∷ [];
  summary = none;
}

cap_session_messages-protects_example :
    let (s', evicted) = cap_session_messages true 2 session in
    (systems s'.messages ≡ systems session.messages)
    × ((i : ℕ)
        → any (λ k. i == k) (recent_tool_indices session.messages) ≡ true
        → has_index (evictions 2 session.messages) i ≡ false)
    × (evicted ≤ length session.messages - 2)
    × (length session.messages ≤ 2 → s' ≡ session)
    × (true ≡ false → s' ≡ session)
cap_session_messages-protects_example = cap_session_messages-protects true 2 session

working_cap_test : working_cap (some 2) ≡ 9
unfolding working_cap
working_cap_test = refl

priority_test : priority_score (user_message "hi") ≡ 10
unfolding priority_score
priority_test = refl
