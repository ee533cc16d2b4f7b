-- ===== src/Compaction/Levels/Systems.antt =====
-- No level loses a system message, and the level that is reported tells what the result fits.
use bonsai_agent.Prelude.{
  ℕ, ◌+◌, ◌-◌, ◌*◌, ◌/◌, Bool, true, false, String, ◌≡◌, inl, inr, refl, ap, sym, ◌∙◌, Option, List,
  [], ◌∷◌, ◌++◌, append-nil, HashMap, arith, length, map, take, drop, ltb, leb, if◌then◌else◌,
  Bool-cases, take-append-drop, take_last,
}
use bonsai_agent.Conversation.{Message, systems}
use bonsai_agent.Compaction.Config.{
  CompactionConfig, AllocatedBudget, estimate_tokens, dynamic_budget_for_compaction,
}
use bonsai_agent.Compaction.Pruning.{compact_level0, compact_level1_with_budget}
use bonsai_agent.Compaction.Pruning.Guarantees.{systems-compact_level1}
use bonsai_agent.Compaction.Levels.{
  summarize, push_to_last_assistant, compact_level2_with_budget, compact_level3, compact_if_needed,
  build_handoff_summary, handoff_list,
}

systems-append : (xs ys : List Message) → systems (xs ++ ys) ≡ systems xs ++ systems ys
systems-append [] ys = refl
systems-append (x ∷ xs) ys = ground (arith, systems-append xs ys)

systems-level0 :
    (hash_hex : String → String) (write : String → String → Bool) (c : CompactionConfig)
    (ms : List Message)
    → systems (compact_level0 hash_hex write c ms).0 ≡ systems ms
unfolding compact_level0
systems-level0 hash_hex write c [] = refl
systems-level0 hash_hex write c (m ∷ ms) = ground (arith, systems-level0 hash_hex write c ms)

systems-summarize : (n : ℕ) (ms : List Message) → systems (map (summarize n) ms) ≡ systems ms
unfolding summarize
systems-summarize n [] = refl
systems-summarize n (m ∷ ms) = ground (arith, systems-summarize n ms)

systems-push :
    (text : String) (ms : List Message) → systems (push_to_last_assistant text ms) ≡ systems ms
unfolding push_to_last_assistant
systems-push text [] = refl
systems-push text (m ∷ ms) = ground (arith, systems-push text ms)

systems-shortened :
    (n : ℕ) (text : String) (no_thinking : Bool) (before : List Message)
    → systems (
        if no_thinking
        then map (summarize n) before
        else push_to_last_assistant text (map (summarize n) before))
      ≡ systems before
systems-shortened n text true before = systems-summarize n before
systems-shortened n text false before =
    systems-push text (map (summarize n) before) ∙ systems-summarize n before

systems-level2 :
    (shorten : ℕ → ℕ) (c : CompactionConfig) (a : Option AllocatedBudget) (ms : List Message)
    → systems (compact_level2_with_budget shorten c a ms) ≡ systems ms
unfolding compact_level2_with_budget
systems-level2 shorten c a ms = elim (Bool-cases (leb (length ms) c.placeholder_keep_recent)) [
  | inl few ↦ rw few
  | inr many ↦
      let b = length ms - c.placeholder_keep_recent in
      rw (many, systems-append, systems-shortened)
        (sym (systems-append (take b ms) (drop b ms)) ∙ ap systems (take-append-drop b ms))
]

systems-systems : (ms : List Message) → systems (systems ms) ≡ systems ms
systems-systems [] = refl
systems-systems (m ∷ ms) = ground (arith, systems-systems ms)

module _ (iteration_order : HashMap ℕ → List (String × ℕ)) where
  -- What the emergency level does to the system messages, on its two branches.
  pub systems-level3 :
      (c : CompactionConfig) (ms : List Message)
      → systems (compact_level3 iteration_order c ms) ≡ (
          if leb (length ms) (c.emergency_keep + 1)
          then systems ms
          else systems ms
            ++ systems (
                handoff_list (build_handoff_summary iteration_order ms c)
                ++ take_last c.emergency_keep ms))
  unfolding compact_level3
  systems-level3 c ms = elim (Bool-cases (leb (length ms) (c.emergency_keep + 1))) [
    | inl short ↦ rw short
    | inr long ↦ rw (long, systems-append, systems-systems)
  ]

  level3_extra :
      (c : CompactionConfig) (ms : List Message)
      → (extra : List Message) × (systems (compact_level3 iteration_order c ms)
          ≡ systems ms ++ extra)
  level3_extra c ms = elim (Bool-cases (leb (length ms) (c.emergency_keep + 1))) [
    | inl short ↦ ([], systems-level3 c ms ∙ rw (short, append-nil))
    | inr long ↦ (
      systems (
          handoff_list (build_handoff_summary iteration_order ms c)
          ++ take_last c.emergency_keep ms),
      systems-level3 c ms ∙ rw long,
    )
  ]

  if_over :
      (over : Bool) (c : CompactionConfig) (ms : List Message) {start : List Message}
      → systems ms ≡ start
      → (extra : List Message) × (systems (if over then compact_level3 iteration_order c ms else ms)
          ≡ start ++ extra)
  if_over true c ms e = let (extra, p) = level3_extra c ms in (extra, p ∙ ap (λ s. s ++ extra) e)
  if_over false c ms e = ([], rw append-nil e)

if_level {ℓ} :
    {A : Type ℓ} (over : Bool) (f : List Message → A) (x y : List Message)
    → f x ≡ f y
    → f (if over then x else y) ≡ f y
if_level true f x y e = e
if_level false f x y e = refl

module _ (iteration_order : HashMap ℕ → List (String × ℕ)) (scale : ℕ → ℕ → ℕ) (shorten : ℕ → ℕ)
    (hash_hex : String → String) (write : String → String → Bool) (c : CompactionConfig)
    (ms : List Message) where
  -- Whatever the levels do, the system messages stay, in their order and unchanged, at the front of
  -- those of the result.
  pub compact_if_needed-systems :
      (extra : List Message) × (systems
          (compact_if_needed iteration_order scale shorten hash_hex write c ms).1
        ≡ systems ms ++ extra)
  unfolding compact_if_needed
  compact_if_needed-systems =
      let a = dynamic_budget_for_compaction scale c in
      let m₀ = (compact_level0 hash_hex write c ms).0 in
      let over₁ = ltb (c.max_context_tokens * 3 / 4) (estimate_tokens m₀) in
      let m₁ = if over₁ then compact_level1_with_budget c a m₀ else m₀ in
      let over₂ = ltb (c.max_context_tokens * 9 / 10) (estimate_tokens m₁) in
      let m₂ = if over₂ then compact_level2_with_budget shorten c a m₁ else m₁ in
      if_over iteration_order (ltb c.max_context_tokens (estimate_tokens m₂)) c m₂ (
        if_level over₂ systems (compact_level2_with_budget shorten c a m₁) m₁
          (systems-level2 shorten c a m₁)
        ∙ if_level over₁ systems (compact_level1_with_budget c a m₀) m₀
            (systems-compact_level1 c a m₀)
        ∙ systems-level0 hash_hex write c ms)
