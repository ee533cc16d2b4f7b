-- ===== src/Compaction/Pruning/Where.antt =====
-- `prune_all` in one pass: what is pruned depends on the set of the candidates, not on their order.
use bonsai_agent.Prelude.{
  ℕ, zero, suc, ◌+◌, ◌≤◌, ◌<◌, Bool, true, false, ◌||◌, ◌≡◌, refl, ap, ap₂, sym, ◌∙◌, List, [], ◌∷◌,
  arith, ◌==◌, length, if◌then◌else◌, Bool-cases, inl, inr,
}
use bonsai_agent.Conversation.{Message}
use bonsai_agent.Compaction.Config.{CompactionConfig}
use bonsai_agent.Compaction.Pruning.{
  Candidate, prune, prune_at, prune_all, comes_first, insert_candidate, sort_candidates,
  candidates_from,
}

-- Prunes the messages whose index, counted from `i`, satisfies `p`.
unfoldable pub prune_where : CompactionConfig → (ℕ → Bool) → ℕ → List Message → List Message
prune_where c p i [] = []
prune_where c p i (m ∷ ms) = (if p i then prune c m else m) ∷ prune_where c p (suc i) ms

pub is_candidate : List Candidate → ℕ → Bool
is_candidate [] i = false
is_candidate (x ∷ xs) i = i == x.index || is_candidate xs i

prune_where-none :
    (c : CompactionConfig) (i : ℕ) (ms : List Message) → prune_where c (λ _. false) i ms ≡ ms
unfolding prune_where
prune_where-none c i [] = refl
prune_where-none c i (m ∷ ms) = ap (λ t. m ∷ t) (prune_where-none c (suc i) ms)

prune-prune : (c : CompactionConfig) (m : Message) → prune c (prune c m) ≡ prune c m
unfolding prune
prune-prune c m = ground arith

pub prune_where-cong :
    (c : CompactionConfig) (p q : ℕ → Bool) (i : ℕ) (ms : List Message)
    → ((j : ℕ) → i ≤ j → p j ≡ q j)
    → prune_where c p i ms ≡ prune_where c q i ms
unfolding prune_where
prune_where-cong c p q i [] h = refl
prune_where-cong c p q i (m ∷ ms) h =
    ap₂ (λ (b : Bool) t. (if b then prune c m else m) ∷ t) (h i (omega arith))
      (prune_where-cong c p q (suc i) ms (λ j le. h j (omega arith)))

prune_at-where :
    (c : CompactionConfig) (p : ℕ → Bool) (k i : ℕ) (ms : List Message)
    → prune_at c k (prune_where c p i ms) ≡ prune_where c (λ j. j == k + i || p j) i ms
unfolding prune_at prune_where
prune_at-where c p k i [] = refl
prune_at-where c p zero i (m ∷ ms) =
    ap₂ (λ (x : Message) t. x ∷ t) (ground (arith, prune-prune c m))
      (prune_where-cong c p (λ j. j == zero + i || p j) (suc i) ms (λ j le. ground arith))
prune_at-where c p (suc k) i (m ∷ ms) =
    ap₂ (λ (x : Message) t. x ∷ t) (ground arith)
      (prune_at-where c p k (suc i) ms
        ∙ prune_where-cong c (λ j. j == k + suc i || p j) (λ j. j == suc k + i || p j) (suc i) ms
            (λ j le. ground arith))

prune_all-from :
    (c : CompactionConfig) (p : ℕ → Bool) (xs : List Candidate) (ms : List Message)
    → prune_all c xs (prune_where c p 0 ms) ≡ prune_where c (λ j. is_candidate xs j || p j) 0 ms
unfolding prune_all is_candidate
prune_all-from c p [] ms = refl
prune_all-from c p (x ∷ xs) ms =
    ap (prune_all c xs) (prune_at-where c p x.index 0 ms)
    ∙ prune_all-from c (λ j. j == x.index + 0 || p j) xs ms
    ∙ prune_where-cong c (λ j. is_candidate xs j || (j == x.index + 0 || p j))
        (λ j. (j == x.index || is_candidate xs j) || p j) 0 ms (λ j le. ground arith)

pub prune_all-where :
    (c : CompactionConfig) (xs : List Candidate) (ms : List Message)
    → prune_all c xs ms ≡ prune_where c (is_candidate xs) 0 ms
prune_all-where c xs ms =
    ap (prune_all c xs) (sym (prune_where-none c 0 ms))
    ∙ prune_all-from c (λ _. false) xs ms
    ∙ prune_where-cong c (λ j. is_candidate xs j || false) (is_candidate xs) 0 ms
        (λ j le. ground arith)

is_candidate-insert :
    (x : Candidate) (xs : List Candidate) (j : ℕ)
    → is_candidate (insert_candidate x xs) j ≡ (j == x.index || is_candidate xs j)
unfolding is_candidate insert_candidate
is_candidate-insert x [] j = refl
is_candidate-insert x (y ∷ ys) j = elim (Bool-cases (comes_first x y)) [
  | inl first ↦ rw first
  | inr later ↦ rw later (ground (arith, is_candidate-insert x ys j))
]

pub is_candidate-sort :
    (xs : List Candidate) (j : ℕ) → is_candidate (sort_candidates xs) j ≡ is_candidate xs j
unfolding is_candidate sort_candidates
is_candidate-sort [] j = refl
is_candidate-sort (x ∷ xs) j =
    is_candidate-insert x (sort_candidates xs) j
    ∙ ap (λ b. j == x.index || b) (is_candidate-sort xs j)

-- Which indices are candidates does not depend on what counts as overflowing.
pub is_candidate-from :
    (is_free : ℕ → Bool) (over over' : Message → ℕ → Bool) (i : ℕ) (ms : List Message) (j : ℕ)
    → is_candidate (candidates_from is_free over i ms) j
      ≡ is_candidate (candidates_from is_free over' i ms) j
unfolding is_candidate candidates_from
is_candidate-from is_free over over' i [] j = refl
is_candidate-from is_free over over' i (m ∷ ms) j =
    ground (arith, is_candidate-from is_free over over' (i + 1) ms j)

-- A candidate is free, and its index lies among the messages that are open to pruning.
pub is_candidate-free :
    (is_free : ℕ → Bool) (over : Message → ℕ → Bool) (i : ℕ) (ms : List Message) (j : ℕ)
    → is_candidate (candidates_from is_free over i ms) j ≡ true
    → (is_free j ≡ true) × (j < i + length ms)
unfolding is_candidate candidates_from
is_candidate-free is_free over i [] j h = cc
is_candidate-free is_free over i (m ∷ ms) j h =
    ground (arith, is_candidate-free is_free over (i + 1) ms j)
