-- ===== src/WorkingMemory.antt =====
-- src/agent/working_memory.rs: the cap on the messages of a session. `enabled` is
-- `is_working_cap_enabled()`, which reads the environment.
pub mod Protected
mod Examples
use bonsai_agent.Prelude.{
  ℕ, ◌+◌, ◌-◌, Option, none, some, Bool, true, false, ◌&&◌, ◌||◌, not, List, [], ◌∷◌, ltb, leb,
  ◌==◌, length, any, take, if◌then◌else◌,
}
use mathlib.Core.List.{reverse}
use bonsai_agent.Conversation.{Role, Message, Session, is_system, is_tool}

-- `working_cap_from_env` on the number that the environment holds, if it holds one.
unfoldable pub working_cap : Option ℕ → ℕ
working_cap none = 9
working_cap (some n) = if leb 3 n then n else 9

unfoldable pub priority_score : Message → ℕ
priority_score m = elim m.role [
  | Role.system ↦ 100
  | Role.tool ↦ 50
  | Role.assistant ↦ 30
  | Role.user ↦ 10
]

tool_indices : ℕ → List Message → List ℕ
tool_indices i [] = []
tool_indices i (m ∷ ms) =
    let rest = tool_indices (i + 1) ms in if is_tool m.role then i ∷ rest else rest

-- The indices of the last three outputs of tools.
pub recent_tool_indices : List Message → List ℕ
unfolding tool_indices
recent_tool_indices ms = take 3 (reverse (tool_indices 0 ms))

-- The indices that may be evicted, each with its score.
pub candidates : List ℕ → ℕ → List Message → List (ℕ × ℕ)
candidates recent i [] = []
candidates recent i (m ∷ ms) =
    let rest = candidates recent (i + 1) ms in
    if not (is_system m.role) && not (any (λ j. i == j) recent)
    then (i, priority_score m) ∷ rest
    else rest

-- `a.1.cmp(&b.1).then(a.0.cmp(&b.0))` is not `Greater`.
pub comes_first : ℕ × ℕ → ℕ × ℕ → Bool
comes_first a b = if ltb a.1 b.1 then true else a.1 == b.1 && leb a.0 b.0

pub insert_candidate : ℕ × ℕ → List (ℕ × ℕ) → List (ℕ × ℕ)
insert_candidate x [] = x ∷ []
insert_candidate x (y ∷ ys) =
    let rest = insert_candidate x ys in if comes_first x y then x ∷ y ∷ ys else y ∷ rest

pub sort_candidates : List (ℕ × ℕ) → List (ℕ × ℕ)
sort_candidates [] = []
sort_candidates (x ∷ xs) = insert_candidate x (sort_candidates xs)

abbrev pub has_index : List (ℕ × ℕ) → ℕ → Bool
has_index [] i = false
has_index (x ∷ xs) i = i == x.0 || has_index xs i

-- `filter_map(|(i, m)| (!evict_set.contains(&i)).then_some(m))`.
pub keep_others : List (ℕ × ℕ) → ℕ → List Message → List Message
keep_others evicted i [] = []
keep_others evicted i (m ∷ ms) =
    let rest = keep_others evicted (i + 1) ms in if has_index evicted i then rest else m ∷ rest

pub evictions : ℕ → List Message → List (ℕ × ℕ)
evictions cap ms =
    take (length ms - cap) (sort_candidates (candidates (recent_tool_indices ms) 0 ms))

-- The session and the number of evicted messages.
unfoldable pub cap_session_messages : Bool → ℕ → Session → Session × ℕ
cap_session_messages enabled cap s =
    if not enabled
    then (s, 0)
    else if leb (length s.messages) cap
    then (s, 0)
    else let evict_set = evictions cap s.messages in
      (record s { messages = keep_others evict_set 0 s.messages }, length evict_set)
