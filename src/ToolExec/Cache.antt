-- ===== src/ToolExec/Cache.antt =====
-- src/tools/mod.rs: `ToolResultCache`. `to_text` is the `Display` text of a JSON value.
pub mod Contents
mod Examples
use bonsai_agent.Prelude.{
  ℕ, ◌+◌, Bool, true, false, not, String, ◌<>◌, Option, none, some, List, [], ◌∷◌, HashMap, lookup,
  insert, starts_with, if◌then◌else◌,
}
use bonsai_agent.ToolExec.Gate.{ToolResult}

pub record ToolResultCache : Type 0 where
  pub cache : HashMap ToolResult
  pub hits : ℕ
  pub misses : ℕ

abbrev pub new : ToolResultCache
new = record { cache = []; hits = 0; misses = 0 }

-- `HashMap::retain` by the key.
unfoldable pub retain {ℓ} : {A : Type ℓ} → (String → Bool) → HashMap A → HashMap A
retain p [] = []
retain p ((k, v) ∷ m) = let rest = retain p m in if p k then (k, v) ∷ rest else rest

counted : ToolResultCache → Option ToolResult → Option ToolResult × ToolResultCache
counted c none = (none, record c { misses = c.misses + 1 })
counted c (some r) = (some r, record c { hits = c.hits + 1 })

module _ {V : Type 0} (to_text : V → String) where
  abbrev pub make_key : String → V → String
  make_key tool_name args = tool_name <> (":" <> to_text args)

  unfoldable pub get : String → V → ToolResultCache → Option ToolResult × ToolResultCache
  unfolding counted
  get tool_name args c = counted c (lookup (make_key tool_name args) c.cache)

  unfoldable pub put : String → V → ToolResult → ToolResultCache → ToolResultCache
  put tool_name args r c = record c { cache = insert (make_key tool_name args) r c.cache }

unfoldable pub invalidate : String → ToolResultCache → ToolResultCache
invalidate tool_name c = record c {
  cache = retain (λ k. not (starts_with k (tool_name <> ":"))) c.cache;
}

unfoldable pub clear : ToolResultCache → ToolResultCache
clear c = record c { cache = [] }
