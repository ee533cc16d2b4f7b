-- ===== src/Compaction/Pruning/Examples.antt =====
-- Level 0 and level 1 on a short conversation.
use bonsai_agent.Prelude.{
  true, false, ◌≡◌, refl, none, some, List, [], ◌∷◌, get_elem?, split_at, strip_prefix, trim_start,
  trim_end, trim_text, insert, lookup,
}
use bonsai_agent.Conversation.{Message, user_message, assistant_message, tool_message}
use bonsai_agent.Compaction.Config.{
  CompactionConfig, AllocatedBudget, default, default_ratios, allocate, with_dynamic_budget,
  estimate_message_tokens, from_n_ctx_budget, with_smoke_or_env_override,
}
use bonsai_agent.Compaction.Axes.{
  MemoryKind, classify_memory_kind, measure_axis_usage, overflow_axes, overflow_tolerance,
}
use bonsai_agent.Compaction.Extract.{
  extract_name_from_json, extract_last_sentence, strip_think_tags, summarize_tool_usage,
  summarize_tool_usage_from, blocks, extract_thinking_summary, extract_last_outcome,
  collect_unresolved, resolved_previews, is_tool_error_message,
}
use bonsai_agent.Compaction.Pruning.{
  compact_level0, compact_level1, compact_level1_with_budget, boundary_of, find_ai_tool_pairs,
  prune,
}
use bonsai_agent.Compaction.Pruning.Guarantees.{
  Kept, compact_level1-budget_irrelevant, compact_level1_keeps,
}

abbrev config : CompactionConfig
config = record default {
  placeholder_keep_recent = 1;
  prune_minimum_chars = 3;
  prune_protect_tokens = 1;
  large_output_threshold = 3;
}

abbrev conversation : List Message
conversation =
    user_message "list"
    ∷ tool_message "a long output" "shell"
    ∷ user_message "thanks"
    ∷ assistant_message "you are welcome"
    ∷ []

abbrev budget : AllocatedBudget
budget = record { total = 1; buffer = 0; summary = 0; entities = 0; kg = 0 }

compact_level1-budget_irrelevant_case :
    compact_level1_with_budget config (some budget) conversation
    ≡ compact_level1 config conversation
compact_level1-budget_irrelevant_case =
    compact_level1-budget_irrelevant config (some budget) conversation

compact_level1_keeps_example :
    Kept config
      (boundary_of config conversation)
      1
      (get_elem? conversation 1)
      (get_elem? (compact_level1 config conversation) 1)
compact_level1_keeps_example = compact_level1_keeps config conversation 1

prune_test :
    prune config (tool_message "a long output" "shell") ≡ tool_message "[prev:shell]" "shell"
unfolding prune
prune_test = refl

pairs_test : find_ai_tool_pairs (assistant_message "a" ∷ tool_message "b" "c" ∷ []) ≡ (0, 1) ∷ []
unfolding find_ai_tool_pairs
pairs_test = refl

level0_test : (compact_level0 (λ s. "h") (λ p s. false) config conversation) ≡ (conversation, [])
unfolding compact_level0
level0_test = refl

name_test : extract_name_from_json "{\"name\": \"shell\"}" ≡ some "shell"
unfolding extract_name_from_json split_at strip_prefix trim_start
name_test = refl

strip_test : strip_think_tags "a<think>b</think>c" ≡ "ac"
unfolding strip_think_tags split_at
strip_test = refl

sentence_test : extract_last_sentence "one\n two \n\n" ≡ "two"
unfolding extract_last_sentence trim_text trim_start trim_end
sentence_test = refl

usage_test :
    summarize_tool_usage (assistant_message "<tool_call>{\"name\": \"ls\"}</tool_call>" ∷ [])
    ≡ ("ls", 1) ∷ []
unfolding summarize_tool_usage_from extract_name_from_json blocks insert split_at strip_prefix
    trim_start lookup
usage_test = refl

allocate_test : (allocate (λ t r. 20) default_ratios 100).buffer ≡ 40
unfolding allocate
allocate_test = refl

n_ctx_test : (from_n_ctx_budget (some 8192)).max_context_tokens ≡ 5734
unfolding from_n_ctx_budget
n_ctx_test = refl

smoke_test : (with_smoke_or_env_override none true default).prune_protect_tokens ≡ 3000
unfolding with_smoke_or_env_override
smoke_test = refl

dynamic_test : (with_dynamic_budget true none default).budget_ratios ≡ some default_ratios
unfolding with_dynamic_budget
dynamic_test = refl

estimate_test : estimate_message_tokens "hello world" ≡ 5
unfolding estimate_message_tokens
estimate_test = refl

preserved_test : extract_thinking_summary (assistant_message "<think>a\nb</think>" ∷ []) ≡ "b" ∷ []
unfolding extract_thinking_summary extract_last_sentence blocks split_at trim_text trim_start
    trim_end
preserved_test = refl

outcome_test : extract_last_outcome (assistant_message "<think>a</think> b" ∷ []) ≡ some "b"
unfolding extract_last_outcome strip_think_tags split_at trim_text trim_start trim_end
outcome_test = refl

unresolved_test :
    collect_unresolved
      (tool_message "Error: x" "t" ∷ tool_message "Error: x" "t" ∷ tool_message "Error: y" "t" ∷ [])
      3
    ≡ "Error: x" ∷ "Error: y" ∷ []
unfolding collect_unresolved is_tool_error_message trim_start
unresolved_test = refl

resolved_test : resolved_previews (assistant_message "short" ∷ []) ≡ []
unfolding resolved_previews
resolved_test = refl

axes_test :
    overflow_axes
      (measure_axis_usage (user_message "hello world!" ∷ []) 1)
      (record { total = 1; buffer = 0; summary = 0; entities = 0; kg = 0 })
    ≡ (MemoryKind.buffer, 3) ∷ []
unfolding overflow_axes measure_axis_usage classify_memory_kind overflow_tolerance
axes_test = refl
