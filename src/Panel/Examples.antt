-- ===== src/Panel/Examples.antt =====
-- One judge of three is enough to halt.
use bonsai_agent.Prelude.{◌≡◌, refl, [], ◌∷◌}
use bonsai_agent.Panel.{Judge, clear, block, halt, evaluate_tool_safety, decide_with_verdicts}

abbrev content : Judge
content ctx = clear

abbrev strict : Judge
strict ctx = block "rm"

evaluate_tool_safety-one_block :
    evaluate_tool_safety (content ∷ strict ∷ content ∷ []) "shell" "{}"
    ≡ halt (clear ∷ block "rm" ∷ clear ∷ [])
unfolding evaluate_tool_safety decide_with_verdicts
evaluate_tool_safety-one_block = refl
