-- ===== src/Parsing/Fuel.antt =====
-- src/agent/parse.rs: the loop of `parse_assistant_output` ends.
use text.Mathlib.TextLemmas
use bonsai_agent.Prelude.{
  ℕ, zero, suc, ◌+◌, ◌<◌, true, String, ◌<>◌, count, ◌≡◌, refl, Option, ◌⊎◌, inl, inr, arith,
  split_at, is_some, Option-cases,
}
use bonsai_agent.Compaction.Extract.Fuel.{found-Within}
use bonsai_agent.Parsing.{
  ToolCall, ParseResult, Collected, thought, called, collected_call, with_text, with_thinking,
  with_call, parse_from, parse_assistant_output, sanitize_tool_call_json,
}

module _ {V : Type 0} (read_call : String → ToolCall V ⊎ String) where
  -- The rest of the loop ends on every text shorter than `n`.
  abbrev Halting : (String → Collected V → Option (ParseResult V)) → ℕ → Type 0
  Halting later n = (s : String) (x : Collected V) → count s < n → is_some (later s x) ≡ true

  thought-ends :
      (later : String → Collected V → Option (ParseResult V)) (after : String) (x : Collected V)
      → Halting later (count after + 1)
      → is_some (thought later after x) ≡ true
  unfolding thought
  thought-ends later after x ends = elim (Option-cases (split_at "</think>" after)) [
    | inr ((content, rest), e) ↦
        rw (e, thought)
          (ends rest (with_thinking content x)
            (omega (arith, found-Within "</think>" after content rest e)))
    | inl absent ↦ elim (Option-cases (split_at "<tool_call>" after)) [
      | inr ((content, rest), e) ↦
          let tagged : count ("<tool_call>" <> rest) ≡ 11 + count rest =
            TextLemmas.length-append "<tool_call>" rest in
          rw (absent, e, thought)
            (ends ("<tool_call>" <> rest) (with_thinking content x)
              (omega (arith, tagged, found-Within "<tool_call>" after content rest e)))
      | inl absent' ↦ rw (absent, absent', thought) (ends "" (with_thinking after x) (omega arith))
    ]
  ]

  collected_call-ends :
      (later : Collected V → Option (ParseResult V)) (content : String) (read : ToolCall V ⊎ String)
      (x : Collected V)
      → ((y : Collected V) → is_some (later y) ≡ true)
      → is_some (collected_call read_call later content read x) ≡ true
  unfolding collected_call
  collected_call-ends later content (inl call) x ends = ends (with_call call x)
  collected_call-ends later content (inr e) x ends = refl

  called-ends :
      (later : String → Collected V → Option (ParseResult V)) (after : String) (x : Collected V)
      → Halting later (count after + 1)
      → is_some (called read_call later after x) ≡ true
  unfolding called
  called-ends later after x ends = elim (Option-cases (split_at "</tool_call>" after)) [
    | inl absent ↦ rw (absent, called) refl
    | inr ((content, rest), e) ↦
        rw (e, called)
          (collected_call-ends (later rest) content (read_call (sanitize_tool_call_json content)) x
            (λ y. ends rest y (omega (arith, found-Within "</tool_call>" after content rest e))))
  ]

  parse_from-ends :
      (fuel : ℕ) (s : String) (x : Collected V)
      → count s < fuel
      → is_some (parse_from read_call fuel s x) ≡ true
  unfolding parse_from
  parse_from-ends zero s x enough = absurd (omega arith)
  parse_from-ends (suc fuel) s x enough = elim (Option-cases (split_at "<think>" s)) [
    | inr ((before, after), e) ↦
        rw (e, parse_from)
          (thought-ends (λ t y. parse_from read_call fuel t y) after (with_text before x)
            (λ t y shorter.
              parse_from-ends fuel t y (omega (arith, found-Within "<think>" s before after e))))
    | inl absent ↦ elim (Option-cases (split_at "<tool_call>" s)) [
      | inr ((before, after), e) ↦
          rw (absent, e, parse_from)
            (called-ends (λ t y. parse_from read_call fuel t y) after (with_text before x)
              (λ t y shorter.
                parse_from-ends fuel t y
                  (omega (arith, found-Within "<tool_call>" s before after e))))
      | inl absent' ↦ rw (absent, absent', parse_from) refl
    ]
  ]

  -- The parser ends on every text, with an output or an error.
  pub parse_assistant_output-ends :
      (normalize : String → String) (xml : String → Option (ParseResult V)) (raw : String)
      → is_some (parse_assistant_output read_call normalize xml raw) ≡ true
  unfolding parse_assistant_output
  parse_assistant_output-ends normalize xml raw = elim (Option-cases (xml (normalize raw))) [
    | inr (result, e) ↦ rw (e, parse_assistant_output) refl
    | inl absent ↦
        rw (absent, parse_assistant_output)
          (parse_from-ends (suc (count (normalize raw))) (normalize raw) _ (omega arith))
  ]
