-- ===== src/Compaction/Config.antt =====
-- src/agent/compaction.rs: `CompactionConfig`, the token estimate and the budget of the four axes.
-- An `f32` ratio is held as its bit pattern, and `scale total ratio` is the product of the hardware,
-- `(total as f32 * ratio) as usize`.
use bonsai_agent.Prelude.{
  ℕ, ◌+◌, ◌-◌, ◌*◌, ◌/◌, min, max, Bool, Option, none, some, List, [], ◌∷◌, String, len, count,
  ◌==◌, if◌then◌else◌,
}
use bonsai_agent.Conversation.{Message}

pub record BudgetRatios : Type 0 where
  pub recent_buffer : ℕ
  pub conversation_summary : ℕ
  pub relevant_entities : ℕ
  pub knowledge_graph : ℕ

abbrev pub default_ratios : BudgetRatios
default_ratios = record {
  recent_buffer = 0x3e99999a;
  conversation_summary = 0x3e99999a;
  relevant_entities = 0x3e19999a;
  knowledge_graph = 0x3e800000;
}

pub record AllocatedBudget : Type 0 where
  pub total : ℕ
  pub buffer : ℕ
  pub summary : ℕ
  pub entities : ℕ
  pub kg : ℕ

unfoldable pub allocate : (ℕ → ℕ → ℕ) → BudgetRatios → ℕ → AllocatedBudget
allocate scale r total =
    let buffer = scale total r.recent_buffer in
    let summary = scale total r.conversation_summary in
    let entities = scale total r.relevant_entities in
    let kg = scale total r.knowledge_graph in
    record {
      total = total;
      buffer = buffer + (total - (buffer + summary + entities + kg));
      summary = summary;
      entities = entities;
      kg = kg;
    }

pub record CompactionConfig : Type 0 where
  pub large_output_threshold : ℕ
  pub placeholder_keep_recent : ℕ
  pub summary_max_chars : ℕ
  pub emergency_keep : ℕ
  pub max_context_tokens : ℕ
  pub prune_minimum_chars : ℕ
  pub prune_protect_tokens : ℕ
  pub budget_ratios : Option BudgetRatios

abbrev pub default : CompactionConfig
default = record {
  large_output_threshold = 5000;
  placeholder_keep_recent = 6;
  summary_max_chars = 200;
  emergency_keep = 4;
  max_context_tokens = 14000;
  prune_minimum_chars = 50;
  prune_protect_tokens = 4000;
  budget_ratios = none;
}

-- `saturating_mul` on 64 bits does not saturate at `70 * n` for a 32-bit `n`.
unfoldable pub from_n_ctx_budget : Option ℕ → CompactionConfig
from_n_ctx_budget none = default
from_n_ctx_budget (some n_ctx) =
    if n_ctx == 0
    then default
    else let derived = max (n_ctx * 70 / 100) 4 in
      record default { max_context_tokens = derived; prune_protect_tokens = min 4000 (derived / 2) }

-- The environment: `BONSAI_DYNAMIC_BUDGET` with its ratios, `BONSAI_LAB_MAX_CTX` as parsed and
-- in range, and `BONSAI_LAB_SMOKE`.
unfoldable pub with_dynamic_budget :
    Bool → Option BudgetRatios → CompactionConfig → CompactionConfig
with_dynamic_budget enabled ratios c =
    if enabled
    then record c { budget_ratios = some (elim ratios [ none ↦ default_ratios | some r ↦ r ]) }
    else c

unfoldable pub with_smoke_or_env_override : Option ℕ → Bool → CompactionConfig → CompactionConfig
with_smoke_or_env_override lab_max_ctx smoke c =
    let limit : ℕ = elim lab_max_ctx [
      | some n ↦ n
      | none ↦ if smoke then 6000 else c.max_context_tokens
    ] in
    record c {
      max_context_tokens = limit;
      prune_protect_tokens = min c.prune_protect_tokens (limit / 2);
    }

-- `n.div_ceil(k)` for a positive `k`.
abbrev pub div_ceil : ℕ → ℕ → ℕ
div_ceil n k = (n + (k - 1)) / k

unfoldable pub estimate_message_tokens : String → ℕ
estimate_message_tokens content =
    max (max (div_ceil (count content) 3) (div_ceil (len content * 4) 10)) 1

unfoldable pub estimate_tokens : List Message → ℕ
estimate_tokens [] = 0
estimate_tokens (m ∷ ms) = estimate_message_tokens m.content + estimate_tokens ms

unfoldable pub dynamic_budget_for_compaction :
    (ℕ → ℕ → ℕ) → CompactionConfig → Option AllocatedBudget
dynamic_budget_for_compaction scale c = elim c.budget_ratios [
  | none ↦ none
  | some r ↦ some (allocate scale r c.max_context_tokens)
]
