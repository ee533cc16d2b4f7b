-- ===== src/Compaction/Levels.antt =====
-- src/agent/compaction.rs: the levels and `compact_if_needed`.
pub mod Systems
pub mod Emergency
mod Examples
use bonsai_agent.Prelude.{
  ℕ, zero, suc, ◌+◌, ◌-◌, ◌*◌, ◌/◌, max, Bool, true, false, ◌&&◌, ◌||◌, not, String, ◌<>◌, len,
  count, show, Option, none, some, List, [], ◌∷◌, ◌++◌, map, HashMap, str_eq, starts_with, contains,
  ltb, leb, ◌==◌, length, is_empty, any, take, drop, take_last, take_chars, join, is_some,
  if◌then◌else◌,
}
use mathlib.Core.List.{reverse}
use bonsai_agent.Conversation.{
  Role, Message, system_message, is_system, is_user, is_assistant, is_tool, systems,
}
use bonsai_agent.Compaction.Config.{
  CompactionConfig, AllocatedBudget, div_ceil, estimate_tokens, dynamic_budget_for_compaction,
}
use bonsai_agent.Compaction.Axes.{
  MemoryKind, same_kind, classify_memory_kind, measure_axis_usage, overflow_tolerance,
  overflow_axes,
}
use bonsai_agent.Compaction.Extract.{
  summarize_tool_usage, extract_thinking_summary, extract_last_outcome, is_tool_error_message,
  collect_unresolved, resolved_previews,
}
use bonsai_agent.Compaction.Pruning.{set_content, compact_level0, compact_level1_with_budget}

pub summarize : ℕ → Message → Message
summarize summary_max m =
    if is_assistant m.role
      && not (contains m.content "...[summarized]")
      && ltb summary_max (count m.content)
    then set_content m (take_chars summary_max m.content <> "...[summarized]")
    else m

-- `messages[..boundary].iter_mut().rev().find(..)` and `push_str`.
pub push_to_last_assistant : String → List Message → List Message
push_to_last_assistant text [] = []
push_to_last_assistant text (m ∷ ms) =
    let rest = push_to_last_assistant text ms in
    if any (λ (n : Message). is_assistant n.role) ms
    then m ∷ rest
    else if is_assistant m.role
    then set_content m (m.content <> text) ∷ ms
    else m ∷ ms

-- `shorten` is `(n as f64 * 0.7) as usize`.
summary_limit : (ℕ → ℕ) → CompactionConfig → Option AllocatedBudget → List Message → ℕ
summary_limit shorten c none messages = c.summary_max_chars
summary_limit shorten c (some a) messages =
    let usage = measure_axis_usage messages c.placeholder_keep_recent in
    if ltb (a.summary + overflow_tolerance a.total) usage.summary
    then max (shorten c.summary_max_chars) 1
    else c.summary_max_chars

unfoldable pub compact_level2_with_budget :
    (ℕ → ℕ) → CompactionConfig → Option AllocatedBudget → List Message → List Message
unfolding summary_limit
compact_level2_with_budget shorten c allocated messages =
    let boundary = length messages - c.placeholder_keep_recent in
    let before = take boundary messages in
    let shortened = map (summarize (summary_limit shorten c allocated messages)) before in
    let thinking = extract_thinking_summary before in
    let text = "\n[Preserved Thinking]\n" <> join "\n" (map (λ s. "- " <> s) thinking) in
    if leb (length messages) c.placeholder_keep_recent
    then messages
    else (if is_empty thinking then shortened else push_to_last_assistant text shortened)
      ++ drop boundary messages

-- `entries.sort_by(|a, b| b.1.cmp(a.1))`.
insert_by_count : String × ℕ → List (String × ℕ) → List (String × ℕ)
insert_by_count x [] = x ∷ []
insert_by_count x (y ∷ ys) =
    let rest = insert_by_count x ys in if leb y.1 x.1 then x ∷ y ∷ ys else y ∷ rest

sort_by_count : List (String × ℕ) → List (String × ℕ)
unfolding insert_by_count
sort_by_count [] = []
sort_by_count (x ∷ xs) = insert_by_count x (sort_by_count xs)

-- `if let Some(h) = handoff { messages.push(h) }`.
abbrev pub handoff_list : Option Message → List Message
handoff_list none = []
handoff_list (some h) = h ∷ []

-- `iteration_order` is the order in which a hash map of counts is walked.
module _ (iteration_order : HashMap ℕ → List (String × ℕ)) where
  handoff_text : List Message → CompactionConfig → List String → String
  unfolding sort_by_count
  handoff_text messages c resolved =
      let boundary = length messages - c.emergency_keep in
      let compressed = take boundary messages in
      let stats = summarize_tool_usage compressed in
      let stats_text =
        if is_empty stats
        then ""
        else "\nTool stats: "
          <> join ", " (
              map (λ (e : String × ℕ). e.0 <> (":" <> show e.1))
                (take 8 (sort_by_count (iteration_order stats)))) in
      let outcome_text : String = elim (extract_last_outcome compressed) [
        | none ↦ ""
        | some outcome ↦ "\nLast outcome: " <> outcome
      ] in
      let unresolved = collect_unresolved messages boundary in
      let unresolved_text =
        if is_empty unresolved
        then ""
        else "\nUnresolved issues:\n" <> join "\n" (map (λ e. "- " <> e) unresolved) in
      "[Context handoff] 前のアシスタントの作業を引き継ぎます。\nResolved:\n"
      <> (join "\n" (map (λ r. "- " <> r) (take 3 resolved))
          <> (stats_text
              <> (outcome_text
                  <> (unresolved_text <> "\nRemaining Work: 直近のメッセージに基づいて作業を続行してください。"))))

  unfoldable pub build_handoff_summary : List Message → CompactionConfig → Option Message
  unfolding handoff_text
  build_handoff_summary messages c =
      let boundary = length messages - c.emergency_keep in
      let resolved = resolved_previews (take boundary messages) in
      if ltb boundary 2 || is_empty resolved
      then none
      else some (system_message (handoff_text messages c resolved))

  unfoldable pub compact_level3 : CompactionConfig → List Message → List Message
  compact_level3 c messages =
      if leb (length messages) (c.emergency_keep + 1)
      then messages
      else systems messages
        ++ (handoff_list (build_handoff_summary messages c) ++ take_last c.emergency_keep messages)

  -- The level that was reached, the messages, and the files of level 0.
  unfoldable pub compact_if_needed :
      (ℕ → ℕ → ℕ)
      → (ℕ → ℕ)
      → (String → String)
      → (String → String → Bool)
      → CompactionConfig
      → List Message
      → ℕ × List Message × List String
  compact_if_needed scale shorten hash_hex write c messages =
      let allocated = dynamic_budget_for_compaction scale c in
      let (m₀, off) = compact_level0 hash_hex write c messages in
      let over₁ = ltb (c.max_context_tokens * 3 / 4) (estimate_tokens m₀) in
      let m₁ = if over₁ then compact_level1_with_budget c allocated m₀ else m₀ in
      let over₂ = ltb (c.max_context_tokens * 9 / 10) (estimate_tokens m₁) in
      let m₂ = if over₂ then compact_level2_with_budget shorten c allocated m₁ else m₁ in
      let over₃ = ltb c.max_context_tokens (estimate_tokens m₂) in
      let m₃ = if over₃ then compact_level3 c m₂ else m₂ in
      (if over₃ then 3 else if over₂ then 2 else if over₁ then 1 else 0, m₃, off)
