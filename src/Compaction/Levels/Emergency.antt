-- ===== src/Compaction/Levels/Emergency.antt =====
-- The emergency level: what it keeps, and how long its result is.
use bonsai_agent.Prelude.{
  ℕ, ◌+◌, ◌-◌, ◌<◌, true, String, ◌≡◌, refl, List, [], ◌∷◌, ◌++◌, append_assoc, HashMap, arith,
  length, length-append, length-drop, take, take_last, take_last-append, take-length-append, all,
  zero, suc,
}
use bonsai_agent.Conversation.{Message, systems, is_system}
use bonsai_agent.Compaction.Config.{CompactionConfig}
use bonsai_agent.Compaction.Extract.{resolved_previews}
use bonsai_agent.Compaction.Levels.{compact_level3, build_handoff_summary, handoff_list}

length-systems-all :
    (ms : List Message) → all (λ m. is_system m.role) ms ≡ true → length (systems ms) ≡ length ms
length-systems-all [] h = refl
length-systems-all (m ∷ ms) h = ground (arith, length-systems-all ms)

resolved-systems :
    (n : ℕ) (ms : List Message)
    → all (λ m. is_system m.role) ms ≡ true
    → resolved_previews (take n ms) ≡ []
unfolding resolved_previews
resolved-systems zero ms h = refl
resolved-systems (suc n) [] h = refl
resolved-systems (suc n) (m ∷ ms) h = ground (arith, resolved-systems n ms)

module _ (iteration_order : HashMap ℕ → List (String × ℕ)) where
  long_form :
      (c : CompactionConfig) (ms : List Message)
      → c.emergency_keep + 1 < length ms
      → compact_level3 iteration_order c ms
        ≡ systems ms
          ++ (handoff_list (build_handoff_summary iteration_order ms c)
              ++ take_last c.emergency_keep ms)
  unfolding compact_level3
  long_form c ms long = ground arith

  -- A conversation longer than `emergency_keep + 1` becomes all its system messages, the handoff if
  -- there is one, and its last `emergency_keep` messages as they were; a shorter one is unchanged. A
  -- system message among the last ones is in the result twice.
  pub compact_level3_shape :
      (c : CompactionConfig) (ms : List Message)
      → c.emergency_keep + 1 < length ms
      → (length (compact_level3 iteration_order c ms)
          ≡ length (systems ms)
            + length (handoff_list (build_handoff_summary iteration_order ms c))
            + c.emergency_keep)
        × (take_last c.emergency_keep (compact_level3 iteration_order c ms)
            ≡ take_last c.emergency_keep ms)
        × (take (length (systems ms)) (compact_level3 iteration_order c ms) ≡ systems ms)
  compact_level3_shape c ms long =
      let handoff = handoff_list (build_handoff_summary iteration_order ms c) in
      let recent = take_last c.emergency_keep ms in
      let kept : length recent ≡ c.emergency_keep =
        omega (arith, length-drop (length ms - c.emergency_keep) ms) in
      let end : take_last c.emergency_keep ((systems ms ++ handoff) ++ recent) ≡ recent =
        rw kept at (take_last-append (systems ms ++ handoff) recent) in
      rw (long_form c ms long) (
        omega (arith, length-append (systems ms) (handoff ++ recent), length-append handoff recent),
        rw (append_assoc (systems ms) handoff recent) at end,
        take-length-append (systems ms) (handoff ++ recent),
      )

  -- Of a conversation of system messages alone, longer than `emergency_keep + 1`, the result is
  -- longer by `emergency_keep` messages: the emergency level lets it grow.
  pub compact_level3_grows :
      (c : CompactionConfig) (ms : List Message)
      → c.emergency_keep + 1 < length ms
      → all (λ m. is_system m.role) ms ≡ true
      → length (compact_level3 iteration_order c ms) ≡ length ms + c.emergency_keep
  unfolding build_handoff_summary
  compact_level3_grows c ms long only = ground (
    arith,
    (compact_level3_shape c ms long).0,
    length-systems-all ms,
    resolved-systems (length ms - c.emergency_keep) ms,
  )
