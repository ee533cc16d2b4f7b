-- ===== src/Compaction/Pruning.antt =====
-- src/agent/compaction.rs: level 0, which saves large outputs to files, and level 1, which prunes the
-- outputs of tools. A score is held in tenths. A sort is an insertion sort, stable as `sort_by` is.
pub mod Where
pub mod Guarantees
mod Examples
use bonsai_agent.Prelude.{
  ℕ, zero, suc, ◌+◌, ◌-◌, ◌*◌, ◌/◌, max, Bool, true, false, ◌&&◌, ◌||◌, not, String, ◌<>◌, len,
  count, show, Option, none, some, List, [], ◌∷◌, ◌++◌, map, HashMap, str_eq, starts_with, contains,
  ltb, leb, ◌==◌, length, is_empty, any, take, drop, take_last, take_chars, join, is_some,
  if◌then◌else◌,
}
use mathlib.Core.List.{reverse}
use bonsai_agent.Conversation.{
  Role, Message, system_message, is_system, is_user, is_assistant, is_tool,
}
use bonsai_agent.Compaction.Config.{
  CompactionConfig, AllocatedBudget, div_ceil, estimate_tokens, dynamic_budget_for_compaction,
}
use bonsai_agent.Compaction.Axes.{
  MemoryKind, same_kind, classify_memory_kind, measure_axis_usage, overflow_tolerance,
  overflow_axes,
}
use bonsai_agent.Compaction.Extract.{
  summarize_tool_usage, extract_thinking_summary, extract_last_outcome, is_tool_error_message,
  collect_unresolved, resolved_previews,
}

abbrev pub set_content : Message → String → Message
set_content m content = record m { content = content }

-- `hash_hex` is the hash of a text in hexadecimal, and `write` says whether the file was written.
module _ (hash_hex : String → String) (write : String → String → Bool) where
  unfoldable pub compact_level0 : CompactionConfig → List Message → List Message × List String
  compact_level0 c [] = ([], [])
  compact_level0 c (m ∷ ms) =
      let (ms', off) = compact_level0 c ms in
      let path = "/tmp/bonsai-out-" <> (hash_hex m.content <> ".txt") in
      if is_tool m.role && ltb c.large_output_threshold (len m.content) && write path m.content
      then (
        set_content m (
              take_chars 200 m.content
              <> ("...\n[saved:" <> (path <> ("(" <> (show (len m.content) <> "c)]")))))
            ∷ ms',
        path ∷ off,
      )
      else (m ∷ ms', off)

-- `messages.iter().rev()`: how many of the last messages fit the protected tokens.
keep_within : ℕ → ℕ → ℕ → List Message → ℕ
keep_within protect acc keep [] = keep
keep_within protect acc keep (m ∷ ms) =
    let acc' = acc + div_ceil (len m.content) 4 in
    let rest = keep_within protect acc' (keep + 1) ms in if ltb protect acc' then keep else rest

-- The messages before this index are open to pruning.
pub boundary_of : CompactionConfig → List Message → ℕ
unfolding keep_within
boundary_of c messages =
    length messages
    - max c.placeholder_keep_recent (keep_within c.prune_protect_tokens 0 0 (reverse messages))

pairs_from : ℕ → List Message → List (ℕ × ℕ)
pairs_from i [] = []
pairs_from i (m ∷ []) = []
pairs_from i (m ∷ n ∷ ms) =
    let rest = pairs_from (i + 1) (n ∷ ms) in
    if is_assistant m.role && is_tool n.role then (i, i + 1) ∷ rest else rest

unfoldable pub find_ai_tool_pairs : List Message → List (ℕ × ℕ)
unfolding pairs_from
find_ai_tool_pairs messages = pairs_from 0 messages

pub protected_indices : ℕ → List (ℕ × ℕ) → List ℕ
protected_indices boundary [] = []
protected_indices boundary ((a, b) ∷ ps) =
    let rest = protected_indices boundary ps in
    if leb boundary a || leb boundary b then a ∷ b ∷ rest else rest

-- `position` and `rposition` of a user message.
first_user : ℕ → List Message → Option ℕ
first_user i [] = none
first_user i (m ∷ ms) = let rest = first_user (i + 1) ms in if is_user m.role then some i else rest

last_user : ℕ → Option ℕ → List Message → Option ℕ
last_user i found [] = found
last_user i found (m ∷ ms) = last_user (i + 1) (if is_user m.role then some i else found) ms

abbrev pub is_index : Option ℕ → ℕ → Bool
is_index none i = false
is_index (some j) i = i == j

unfoldable pub score_message_importance : Message → ℕ
score_message_importance m = elim m.role [
  | Role.user ↦ 10
  | Role.system ↦
      if contains m.content "<context" || contains m.content "<memory-context" then 3 else 9
  | Role.assistant ↦ if contains m.content "<tool_call>" then 7 else 4
  | Role.tool ↦ if is_tool_error_message m.content then 2 else 5
]

-- A message that may be pruned: its index, its score, and whether its axis is over the budget.
pub record Candidate : Type 0 where
  pub index : ℕ
  pub score : ℕ
  pub is_overflow : Bool

pub candidates_from : (ℕ → Bool) → (Message → ℕ → Bool) → ℕ → List Message → List Candidate
unfolding score_message_importance
candidates_from is_free is_overflow i [] = []
candidates_from is_free is_overflow i (m ∷ ms) =
    let rest = candidates_from is_free is_overflow (i + 1) ms in
    if is_free i
    then record { index = i; score = score_message_importance m; is_overflow = is_overflow m i }
      ∷ rest
    else rest

-- Overflowing candidates come first, then those of a lower score.
pub comes_first : Candidate → Candidate → Bool
comes_first a b =
    if a.is_overflow
    then (if b.is_overflow then leb a.score b.score else true)
    else (if b.is_overflow then false else leb a.score b.score)

pub insert_candidate : Candidate → List Candidate → List Candidate
insert_candidate x [] = x ∷ []
insert_candidate x (y ∷ ys) =
    let rest = insert_candidate x ys in if comes_first x y then x ∷ y ∷ ys else y ∷ rest

pub sort_candidates : List Candidate → List Candidate
sort_candidates [] = []
sort_candidates (x ∷ xs) = insert_candidate x (sort_candidates xs)

-- `msg.tool_call_id.as_deref().unwrap_or("?")`.
abbrev pub id_or_mark : Option String → String
id_or_mark none = "?"
id_or_mark (some id) = id

unfoldable pub prune : CompactionConfig → Message → Message
prune c m =
    if is_tool m.role && ltb c.prune_minimum_chars (len m.content)
    then set_content m ("[prev:" <> (id_or_mark m.tool_call_id <> "]"))
    else m

pub prune_at : CompactionConfig → ℕ → List Message → List Message
prune_at c i [] = []
prune_at c zero (m ∷ ms) = prune c m ∷ ms
prune_at c (suc i) (m ∷ ms) = m ∷ prune_at c i ms

pub prune_all : CompactionConfig → List Candidate → List Message → List Message
prune_all c [] ms = ms
prune_all c (x ∷ xs) ms = prune_all c xs (prune_at c x.index ms)

pub overflow_kinds : CompactionConfig → Option AllocatedBudget → List Message → List MemoryKind
overflow_kinds c none before = []
overflow_kinds c (some a) before =
    map (λ (k : MemoryKind × ℕ). k.0)
      (overflow_axes (measure_axis_usage before c.placeholder_keep_recent) a)

pub candidates : CompactionConfig → Option AllocatedBudget → List Message → List Candidate
unfolding first_user last_user
candidates c allocated messages =
    let boundary = boundary_of c messages in
    let before = take boundary messages in
    let protected = protected_indices boundary (find_ai_tool_pairs messages) in
    let over = overflow_kinds c allocated before in
    candidates_from
      (λ i.
        not (any (λ j. i == j) protected)
        && not (is_index (first_user 0 before) i)
        && not (is_index (last_user 0 none before) i))
      (λ m i.
        any
          (λ k. same_kind k (classify_memory_kind m i (length messages) c.placeholder_keep_recent))
          over)
      0 before

unfoldable pub compact_level1_with_budget :
    CompactionConfig → Option AllocatedBudget → List Message → List Message
compact_level1_with_budget c allocated messages =
    if leb (length messages) c.placeholder_keep_recent
    then messages
    else if boundary_of c messages == 0
    then messages
    else prune_all c (sort_candidates (candidates c allocated messages)) messages

abbrev pub compact_level1 : CompactionConfig → List Message → List Message
compact_level1 c = compact_level1_with_budget c none
