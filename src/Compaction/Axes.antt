-- ===== src/Compaction/Axes.antt =====
-- src/agent/compaction.rs: the kinds of memory, their use of tokens, and the axes over their budget.
use bonsai_agent.Prelude.{
  ℕ, ◌+◌, ◌-◌, ◌/◌, max, Bool, true, false, ◌&&◌, ◌||◌, String, len, Option, none, some, List, [],
  ◌∷◌, ◌++◌, starts_with, contains, ltb, leb, length, if◌then◌else◌,
}
use bonsai_agent.Conversation.{Message, is_user, is_assistant, is_tool}
use bonsai_agent.Compaction.Config.{AllocatedBudget, div_ceil}

pub data MemoryKind : Type 0 where
  buffer summary entities kg unclassified : MemoryKind

pub same_kind : MemoryKind → MemoryKind → Bool
same_kind buffer buffer = true
same_kind summary summary = true
same_kind entities entities = true
same_kind kg kg = true
same_kind unclassified unclassified = true
same_kind _ _ = false

-- The tool's identifier, or else its content.
kind_of_tool : Option String → String → MemoryKind
kind_of_tool none content = if starts_with content "[entities:" then entities else unclassified
kind_of_tool (some id) content =
    if starts_with id "agenther_"
    then entities
    else if starts_with id "memory_search"
        || starts_with id "kg_query"
        || starts_with id "graph_search"
    then kg
    else if starts_with content "[entities:"
    then entities
    else unclassified

unfoldable pub classify_memory_kind : Message → ℕ → ℕ → ℕ → MemoryKind
unfolding kind_of_tool
classify_memory_kind m idx total keep_recent =
    if leb (total - keep_recent) idx && (is_user m.role || is_assistant m.role)
    then buffer
    else if is_assistant m.role
        && (contains m.content "[Preserved Thinking]" || contains m.content "...[summarized]")
    then summary
    else if is_tool m.role
    then kind_of_tool m.tool_call_id m.content
    else unclassified

pub record AxisUsage : Type 0 where
  pub buffer : ℕ
  pub summary : ℕ
  pub entities : ℕ
  pub kg : ℕ
  pub unclassified : ℕ

abbrev pub no_usage : AxisUsage
no_usage = record { buffer = 0; summary = 0; entities = 0; kg = 0; unclassified = 0 }

add_usage : MemoryKind → ℕ → AxisUsage → AxisUsage
add_usage MemoryKind.buffer n u = record u { buffer = u.buffer + n }
add_usage MemoryKind.summary n u = record u { summary = u.summary + n }
add_usage MemoryKind.entities n u = record u { entities = u.entities + n }
add_usage MemoryKind.kg n u = record u { kg = u.kg + n }
add_usage MemoryKind.unclassified n u = record u { unclassified = u.unclassified + n }

measure_from : ℕ → ℕ → ℕ → List Message → AxisUsage → AxisUsage
unfolding add_usage
measure_from idx total keep_recent [] u = u
measure_from idx total keep_recent (m ∷ ms) u =
    measure_from (idx + 1) total keep_recent ms
      (add_usage (classify_memory_kind m idx total keep_recent) (div_ceil (len m.content) 4) u)

unfoldable pub measure_axis_usage : List Message → ℕ → AxisUsage
unfolding measure_from
measure_axis_usage messages keep_recent =
    measure_from 0 (length messages) keep_recent messages no_usage

unfoldable pub overflow_tolerance : ℕ → ℕ
overflow_tolerance total = max (total / 1000) 1

-- `result.sort_by_key(|b| Reverse(b.1))`.
insert_by_excess : MemoryKind × ℕ → List (MemoryKind × ℕ) → List (MemoryKind × ℕ)
insert_by_excess x [] = x ∷ []
insert_by_excess x (y ∷ ys) =
    let rest = insert_by_excess x ys in if leb y.1 x.1 then x ∷ y ∷ ys else y ∷ rest

sort_by_excess : List (MemoryKind × ℕ) → List (MemoryKind × ℕ)
unfolding insert_by_excess
sort_by_excess [] = []
sort_by_excess (x ∷ xs) = insert_by_excess x (sort_by_excess xs)

excess : MemoryKind → ℕ → ℕ → ℕ → List (MemoryKind × ℕ)
excess kind used allowed tol = if ltb (allowed + tol) used then (kind, used - allowed) ∷ [] else []

unfoldable pub overflow_axes : AxisUsage → AllocatedBudget → List (MemoryKind × ℕ)
unfolding excess sort_by_excess
overflow_axes u a =
    let tol = overflow_tolerance a.total in
    sort_by_excess (
      excess MemoryKind.buffer u.buffer a.buffer tol
      ++ (excess MemoryKind.summary u.summary a.summary tol
          ++ (excess MemoryKind.entities u.entities a.entities tol
              ++ excess MemoryKind.kg u.kg a.kg tol)))
