-- ===== src/Compaction/Pruning/Guarantees.antt =====
-- What level 1 keeps, and what the axes of the budget change in it.
use bonsai_agent.Prelude.{
  ℕ, zero, suc, ◌+◌, ◌<◌, Bool, true, false, ◌≡◌, ◌⊎◌, refl, ◌∙◌, Option, none, some, List, [], ◌∷◌,
  arith, ◌==◌, length, length-take, take, if◌then◌else◌, Bool-cases, leb, inl, inr, get_elem?,
}
use native.Mathlib.Nat.{zero-add}
use bonsai_agent.Conversation.{Message, is_tool, systems}
use bonsai_agent.Compaction.Config.{CompactionConfig, AllocatedBudget}
use bonsai_agent.Compaction.Pruning.{
  prune, boundary_of, candidates, sort_candidates, compact_level1_with_budget, compact_level1,
  prune_all,
}
use bonsai_agent.Compaction.Pruning.Where.{
  prune_where, prune_where-cong, is_candidate, prune_all-where, is_candidate-sort,
  is_candidate-from, is_candidate-free,
}

prune_all-candidates :
    (c : CompactionConfig) (a : Option AllocatedBudget) (ms : List Message)
    → prune_all c (sort_candidates (candidates c a ms)) ms
      ≡ prune_where c (is_candidate (candidates c none ms)) 0 ms
unfolding candidates
prune_all-candidates c a ms =
    prune_all-where c (sort_candidates (candidates c a ms)) ms
    ∙ prune_where-cong c (is_candidate (sort_candidates (candidates c a ms)))
        (is_candidate (candidates c none ms)) 0 ms
        (λ j le.
          is_candidate-sort (candidates c a ms) j
          ∙ is_candidate-from _ _ _ 0 (take (boundary_of c ms) ms) j)

-- Level 1 gives the same messages for every budget and without one: every candidate is pruned, so
-- the order that the axes over their budget bring has no effect.
pub compact_level1-budget_irrelevant :
    (c : CompactionConfig) (a : Option AllocatedBudget) (ms : List Message)
    → compact_level1_with_budget c a ms ≡ compact_level1 c ms
unfolding compact_level1_with_budget
compact_level1-budget_irrelevant c a ms =
    rw (prune_all-candidates c a ms, prune_all-candidates c none ms)

-- Every message keeps its place; it is as before, or it is the output of a tool, more than
-- `prune_minimum_chars` bytes long, before the protected end, and now a placeholder.
abbrev pub Kept : CompactionConfig → ℕ → ℕ → Option Message → Option Message → Type 0
Kept c boundary i none none = Unit
Kept c boundary i (some m) (some m') =
    (m' ≡ m) ⊎ ((m' ≡ prune c m) × (is_tool m.role ≡ true) × (i < boundary))
Kept c boundary i _ _ = ⊥

prune_cases : (c : CompactionConfig) (m : Message) → (prune c m ≡ m) ⊎ (is_tool m.role ≡ true)
unfolding prune
prune_cases c m = ground arith

Kept-one :
    (c : CompactionConfig) (b i : ℕ) (m : Message) (pruned : Bool)
    → (pruned ≡ true → i < b)
    → Kept c b i (some m) (some (if pruned then prune c m else m))
Kept-one c b i m true h = elim (prune_cases c m) [
  | inl same ↦ inl same
  | inr tool ↦ inr (refl, tool, h refl)
]
Kept-one c b i m false h = inl refl

Kept-where :
    (c : CompactionConfig) (b : ℕ) (p : ℕ → Bool) (i : ℕ) (ms : List Message)
    → ((j : ℕ) → p j ≡ true → j < b)
    → (k : ℕ) → Kept c b (k + i) (get_elem? ms k) (get_elem? (prune_where c p i ms) k)
unfolding prune_where
Kept-where c b p i [] h k = tt
Kept-where c b p i (m ∷ ms) h zero = Kept-one c b (zero + i) m (p i) (λ e. rw zero-add (h i e))
Kept-where c b p i (m ∷ ms) h (suc k) =
    let e : suc k + i ≡ k + suc i = omega arith in rw e (Kept-where c b p (suc i) ms h k)

Kept-refl : (c : CompactionConfig) (b i : ℕ) (o : Option Message) → Kept c b i o o
Kept-refl c b i none = tt
Kept-refl c b i (some m) = inl refl

candidate_before :
    (c : CompactionConfig) (ms : List Message) (j : ℕ)
    → is_candidate (candidates c none ms) j ≡ true
    → j < boundary_of c ms
unfolding candidates
candidate_before c ms j h =
    let (free, before) = is_candidate-free _ _ 0 (take (boundary_of c ms) ms) j h in
    omega (arith, length-take (boundary_of c ms) ms)

-- At every index level 1 leaves the message as it was, or makes a placeholder of the output of a
-- tool before the protected end; it adds, removes and moves none.
pub compact_level1_keeps :
    (c : CompactionConfig) (ms : List Message) (i : ℕ)
    → Kept c (boundary_of c ms) i (get_elem? ms i) (get_elem? (compact_level1 c ms) i)
unfolding compact_level1_with_budget
compact_level1_keeps c ms i = elim (Bool-cases (leb (length ms) c.placeholder_keep_recent)) [
  | inl few ↦ rw few (Kept-refl c (boundary_of c ms) i (get_elem? ms i))
  | inr many ↦ elim (Bool-cases (boundary_of c ms == 0)) [
    | inl closed ↦ rw (many, closed) (Kept-refl c (boundary_of c ms) i (get_elem? ms i))
    | inr opened ↦
        let e : i + 0 ≡ i = omega arith in
        rw (many, opened, prune_all-candidates)
          (rw e at (
            Kept-where c (boundary_of c ms) (is_candidate (candidates c none ms)) 0 ms
              (candidate_before c ms) i))
  ]
]

systems-where :
    (c : CompactionConfig) (p : ℕ → Bool) (i : ℕ) (ms : List Message)
    → systems (prune_where c p i ms) ≡ systems ms
unfolding prune_where prune
systems-where c p i [] = refl
systems-where c p i (m ∷ ms) = ground (arith, systems-where c p (suc i) ms)

pub systems-compact_level1 :
    (c : CompactionConfig) (a : Option AllocatedBudget) (ms : List Message)
    → systems (compact_level1_with_budget c a ms) ≡ systems ms
unfolding compact_level1_with_budget
systems-compact_level1 c a ms =
    ground (
      arith,
      prune_all-candidates c a ms,
      systems-where c (is_candidate (candidates c none ms)) 0 ms,
    )
