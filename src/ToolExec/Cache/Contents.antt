-- ===== src/ToolExec/Cache/Contents.antt =====
-- What the cache answers after its operations.
use bonsai_agent.Prelude.{
  Bool, String, ◌<>◌, ◌≡◌, refl, Option, none, some, [], ◌∷◌, HashMap, lookup, arith, eq_iff,
  str_eq, lookup-insert, starts_with, if◌then◌else◌,
}
use bonsai_agent.ToolExec.Gate.{ToolResult}
use bonsai_agent.ToolExec.Cache.{ToolResultCache, retain, make_key, get, put, invalidate, counted}

pub lookup-retain {ℓ} :
    {A : Type ℓ} (p : String → Bool) (k : String) (m : HashMap A)
    → lookup k (retain p m) ≡ (if p k then lookup k m else none)
unfolding lookup retain
lookup-retain p k [] = ground arith
lookup-retain p k ((j, v) ∷ m) = ground (arith, eq_iff j k, lookup-retain p k m)

counted-answer : (c : ToolResultCache) (o : Option ToolResult) → (counted c o).0 ≡ o
unfolding counted
counted-answer c none = refl
counted-answer c (some r) = refl

module _ {V : Type 0} (to_text : V → String) where
  abbrev pub answer : ToolResultCache → String → V → Option ToolResult
  answer c tool args = (get to_text tool args c).0

  pub answer-lookup :
      (c : ToolResultCache) (tool : String) (args : V)
      → answer c tool args ≡ lookup (make_key to_text tool args) c.cache
  unfolding get
  answer-lookup c tool args = counted-answer c (lookup (make_key to_text tool args) c.cache)

  -- A cache answers with what was put under the same key last, and after an invalidation of a tool
  -- with nothing for the keys that start with the tool's name and a colon, and as before for others.
  pub answer_after :
      (c : ToolResultCache) (tool other : String) (args args' : V) (r : ToolResult)
      → (answer (put to_text tool args r c) other args' ≡ (
          if str_eq (make_key to_text tool args) (make_key to_text other args')
          then some r
          else answer c other args'))
        × (answer (invalidate tool c) other args' ≡ (
            if starts_with (make_key to_text other args') (tool <> ":")
            then none
            else answer c other args'))
  unfolding put invalidate
  answer_after c tool other args args' r =
      rw (answer-lookup, answer-lookup, answer-lookup, lookup-insert, lookup-retain)
        (refl, ground arith)
