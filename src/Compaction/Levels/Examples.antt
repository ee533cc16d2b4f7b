-- ===== src/Compaction/Levels/Examples.antt =====
-- The levels on short conversations.
use bonsai_agent.Prelude.{
  ℕ, ◌+◌, true, String, ◌≡◌, refl, List, [], ◌∷◌, ◌++◌, HashMap, arith, length, take, take_last,
}
use bonsai_agent.Conversation.{Message, user_message, assistant_message, system_message, systems}
use bonsai_agent.Compaction.Config.{CompactionConfig, default}
use bonsai_agent.Compaction.Levels.{
  compact_level3, compact_if_needed, build_handoff_summary, handoff_list,
}
use bonsai_agent.Compaction.Levels.Emergency.{compact_level3_shape, compact_level3_grows}
use bonsai_agent.Compaction.Levels.Systems.{compact_if_needed-systems}

abbrev order : HashMap ℕ → List (String × ℕ)
order m = m

abbrev tiny : CompactionConfig
tiny = record default { emergency_keep = 1; max_context_tokens = 3 }

abbrev nudges : List Message
nudges = system_message "rules" ∷ system_message "nudge" ∷ system_message "nudge" ∷ []

abbrev mixed : List Message
mixed =
    system_message "rules"
    ∷ user_message "do it"
    ∷ assistant_message "done, as you wished for it"
    ∷ user_message "thanks"
    ∷ []

compact_level3_shape_case :
    (length (compact_level3 order tiny mixed)
      ≡ length (systems mixed) + length (handoff_list (build_handoff_summary order mixed tiny)) + 1)
    × (take_last 1 (compact_level3 order tiny mixed) ≡ take_last 1 mixed)
    × (take (length (systems mixed)) (compact_level3 order tiny mixed) ≡ systems mixed)
compact_level3_shape_case = compact_level3_shape order tiny mixed (omega arith)

compact_level3_grows_case :
    length (compact_level3 order tiny nudges) ≡ length nudges + tiny.emergency_keep
compact_level3_grows_case = compact_level3_grows order tiny nudges (omega arith) refl

compact_if_needed-systems_example :
    (extra : List Message) × (systems
        (compact_if_needed order (λ t r. t) (λ n. n) (λ s. s) (λ p s. true) tiny mixed).1
      ≡ systems mixed ++ extra)
compact_if_needed-systems_example =
    compact_if_needed-systems order (λ t r. t) (λ n. n) (λ s. s) (λ p s. true) tiny mixed
