-- ===== src/WorkingMemory/Protected.antt =====
-- What the cap protects.
use bonsai_agent.Prelude.{
  ℕ, zero, suc, ◌+◌, ◌-◌, ◌≤◌, Bool, true, false, ◌||◌, ◌≡◌, refl, sym, ap, ◌∙◌, List, [], ◌∷◌,
  arith, ◌==◌, length, any, take, length-take, Bool-cases, inl, inr,
}
use bonsai_agent.Conversation.{Message, Session, systems, is_system}
use bonsai_agent.WorkingMemory.{
  candidates, comes_first, insert_candidate, sort_candidates, has_index, keep_others, evictions,
  recent_tool_indices, cap_session_messages,
}

has_index-insert :
    (x : ℕ × ℕ) (xs : List (ℕ × ℕ)) (j : ℕ)
    → has_index (insert_candidate x xs) j ≡ (j == x.0 || has_index xs j)
unfolding insert_candidate
has_index-insert x [] j = refl
has_index-insert x (y ∷ ys) j = elim (Bool-cases (comes_first x y)) [
  | inl first ↦ rw first refl
  | inr later ↦ rw later (ground (arith, has_index-insert x ys j))
]

has_index-sort : (xs : List (ℕ × ℕ)) (j : ℕ) → has_index (sort_candidates xs) j ≡ has_index xs j
unfolding sort_candidates
has_index-sort [] j = refl
has_index-sort (x ∷ xs) j =
    has_index-insert x (sort_candidates xs) j ∙ ap (λ b. j == x.0 || b) (has_index-sort xs j)

has_index-take :
    (n : ℕ) (xs : List (ℕ × ℕ)) (j : ℕ) → has_index (take n xs) j ≡ true → has_index xs j ≡ true
has_index-take zero xs j h = ground arith
has_index-take (suc n) [] j h = h
has_index-take (suc n) (x ∷ xs) j h = ground (arith, has_index-take n xs j)

candidates-later :
    (recent : List ℕ) (i : ℕ) (ms : List Message) (j : ℕ)
    → has_index (candidates recent i ms) j ≡ true
    → i ≤ j
unfolding candidates
candidates-later recent i [] j h = cc
candidates-later recent i (m ∷ ms) j h = ground (arith, candidates-later recent (i + 1) ms j)

candidates-head :
    (recent : List ℕ) (i : ℕ) (m : Message) (ms : List Message)
    → has_index (candidates recent i (m ∷ ms)) i ≡ true
    → is_system m.role ≡ false
unfolding candidates
candidates-head recent i m ms h = ground (arith, candidates-later recent (i + 1) ms i)

candidates-tail :
    (recent : List ℕ) (i : ℕ) (m : Message) (ms : List Message) (j : ℕ)
    → i + 1 ≤ j
    → has_index (candidates recent i (m ∷ ms)) j ≡ true
    → has_index (candidates recent (i + 1) ms) j ≡ true
unfolding candidates
candidates-tail recent i m ms j le h = ground arith

systems-keep :
    (recent : List ℕ) (evicted : List (ℕ × ℕ)) (i : ℕ) (ms : List Message)
    → ((j : ℕ) → i ≤ j → has_index evicted j ≡ true → has_index (candidates recent i ms) j ≡ true)
    → systems (keep_others evicted i ms) ≡ systems ms
unfolding keep_others
systems-keep recent evicted i [] h = refl
systems-keep recent evicted i (m ∷ ms) h =
    let rest =
      systems-keep recent evicted (i + 1) ms
        (λ j le e. candidates-tail recent i m ms j le (h j (omega arith) e)) in
    elim (Bool-cases (has_index evicted i)) [
      | inl out ↦ rw (out, candidates-head recent i m ms (h i (omega arith) out)) rest
      | inr stays ↦ rw (stays, rest) refl
    ]

candidates-free :
    (recent : List ℕ) (i : ℕ) (ms : List Message) (j : ℕ)
    → has_index (candidates recent i ms) j ≡ true
    → any (λ k. j == k) recent ≡ false
unfolding candidates
candidates-free recent i [] j h = cc
candidates-free recent i (m ∷ ms) j h = ground (arith, candidates-free recent (i + 1) ms j)

evictions-candidates :
    (cap : ℕ) (ms : List Message) (j : ℕ)
    → has_index (evictions cap ms) j ≡ true
    → has_index (candidates (recent_tool_indices ms) 0 ms) j ≡ true
unfolding evictions
evictions-candidates cap ms j e =
    let found = candidates (recent_tool_indices ms) 0 ms in
    sym (has_index-sort found j) ∙ has_index-take (length ms - cap) (sort_candidates found) j e

length-evictions : (cap : ℕ) (ms : List Message) → length (evictions cap ms) ≤ length ms - cap
unfolding evictions
length-evictions cap ms = omega (
  arith,
  length-take (length ms - cap) (sort_candidates (candidates (recent_tool_indices ms) 0 ms)),
)

-- The cap takes no system message and changes no order among them, evicts none of the last three
-- outputs of tools and at most the messages over the cap, and leaves a session within the cap, or
-- any session while it is not enabled, as it is.
pub cap_session_messages-protects :
    (enabled : Bool) (cap : ℕ) (s : Session)
    → let (s', evicted) = cap_session_messages enabled cap s in
      (systems s'.messages ≡ systems s.messages)
      × ((i : ℕ)
          → any (λ k. i == k) (recent_tool_indices s.messages) ≡ true
          → has_index (evictions cap s.messages) i ≡ false)
      × (evicted ≤ length s.messages - cap)
      × (length s.messages ≤ cap → s' ≡ s)
      × (enabled ≡ false → s' ≡ s)
unfolding cap_session_messages
cap_session_messages-protects enabled cap s =
    let kept =
      systems-keep (recent_tool_indices s.messages) (evictions cap s.messages) 0 s.messages
        (λ j le e. evictions-candidates cap s.messages j e) in
    (
      ground (arith, kept),
      λ i recent. ground (
        arith,
        evictions-candidates cap s.messages i,
        candidates-free (recent_tool_indices s.messages) 0 s.messages i,
      ),
      ground (arith, length-evictions cap s.messages),
      ground arith,
      ground arith,
    )
