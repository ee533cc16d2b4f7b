-- ===== src/Parsing/Blocks.antt =====
-- src/agent/parse.rs: what the parser makes of a thought, tool calls and an answer that follow each
-- other.
use text.Mathlib.TextLemmas
use Prim.Native.Char.{Char, code}
use bonsai_agent.Prelude.{
  ℕ, zero, suc, ◌<◌, ◌≤◌, Bool, true, ◌&&◌, String, ◌<>◌, count, ◌≡◌, refl, ap, ◌∙◌, Option, none,
  some, List, [], ◌∷◌, ◌++◌, append_assoc, append-nil, ◌⊎◌, inl, inr, arith, split_at, strip_prefix,
  trim_text, trim_start, trim_end, Bool-cases, length, str_eq, ◌==◌, if◌then◌else◌,
}
use bonsai_agent.Parsing.{
  ToolCall, ParsedOutput, ParseResult, parsed, Collected, nothing_yet, output, thought, called,
  collected_call, with_text, with_thinking, with_call, parse_from, parse_assistant_output,
  sanitize_tool_call_json,
}
use bonsai_agent.Parsing.Tags.{plain, differs, clear, clear-found, plain-clear, lacks-clear}

-- `<tool_call>`, `j` and `</tool_call>` for each `j` of `js`, then `answer`.
unfoldable pub render_calls : List String → String → String
render_calls [] answer = answer
render_calls (j ∷ js) answer = "<tool_call>" <> (j <> ("</tool_call>" <> render_calls js answer))

unfoldable pub render : String → List String → String → String
render thinking js answer = "<think>" <> (thinking <> ("</think>" <> render_calls js answer))

lacks-plain :
    (c : Char) (p a : String)
    → (code c == b'<') ≡ true
    → plain a ≡ true
    → split_at (String.◌∷◌ c p) a ≡ none
unfolding split_at strip_prefix
lacks-plain c p a tag h =
    rw (TextLemmas.append-nil a) at
      (lacks-clear (String.◌∷◌ c p) a "" (plain-clear c p a tag h) refl)

render_calls-length : (js : List String) (a : String) → length js ≤ count (render_calls js a)
unfolding render_calls
render_calls-length [] a = omega arith
render_calls-length (j ∷ js) a = omega (
  arith,
  render_calls-length js a,
  TextLemmas.length-append "<tool_call>" (j <> ("</tool_call>" <> render_calls js a)),
  TextLemmas.length-append j ("</tool_call>" <> render_calls js a),
  TextLemmas.length-append "</tool_call>" (render_calls js a),
)

all_plain : List String → Bool
unfolding plain
all_plain [] = true
all_plain (j ∷ js) = plain j && all_plain js

lacks-render_calls :
    (js : List String) (a : String)
    → all_plain js ≡ true
    → plain a ≡ true
    → split_at "<think>" (render_calls js a) ≡ none
unfolding render_calls clear all_plain differs
lacks-render_calls [] a h k = lacks-plain "<" "think>" a refl k
lacks-render_calls (j ∷ js) a h k =
    lacks-clear "<think>" "<tool_call>" (j <> ("</tool_call>" <> render_calls js a)) refl (
      lacks-clear "<think>" j ("</tool_call>" <> render_calls js a)
        (plain-clear "<" "think>" j refl (ground (arith, h)))
        (lacks-clear "<think>" "</tool_call>" (render_calls js a) refl
          (lacks-render_calls js a (ground (arith, h)) k)))

tag-found :
    (c : Char) (p s : String) → split_at (String.◌∷◌ c p) (String.◌∷◌ c p <> s) ≡ some ("", s)
unfolding clear
tag-found c p s = rw (TextLemmas.nil-append (String.◌∷◌ c p <> s)) at (clear-found c p "" s refl)

-- Each text is the JSON of the call beside it, and opens no tag.
pub data Readable {V : Type 0} (read_call : String → ToolCall V ⊎ String)
    : List String → List (ToolCall V) → Type 0 where
  none_left : Readable read_call [] []
  readable :
      {j : String} {call : ToolCall V} {js : List String} {calls : List (ToolCall V)}
      → plain j ≡ true
      → read_call (sanitize_tool_call_json j) ≡ inl call
      → Readable read_call js calls
      → Readable read_call (j ∷ js) (call ∷ calls)

render-length :
    (thinking : String) (js : List String) (a : String) → length js < count (render thinking js a)
unfolding render
render-length thinking js a = omega (
  arith,
  render_calls-length js a,
  TextLemmas.length-append "<think>" (thinking <> ("</think>" <> render_calls js a)),
  TextLemmas.length-append thinking ("</think>" <> render_calls js a),
  TextLemmas.length-append "</think>" (render_calls js a),
)

with_text-empty : {V : Type 0} (x : Collected V) → with_text "" x ≡ x
unfolding with_text trim_text trim_start trim_end
with_text-empty x = refl

module _ {V : Type 0} (read_call : String → ToolCall V ⊎ String) where
  Readable-plain :
      {js : List String} {calls : List (ToolCall V)}
      → Readable read_call js calls
      → all_plain js ≡ true
  unfolding all_plain
  Readable-plain none_left = refl
  Readable-plain (readable h e rest) = ground (arith, h, Readable-plain rest)

  abbrev with_calls : List (ToolCall V) → Collected V → Collected V
  with_calls calls x = record x { tool_calls = x.tool_calls ++ calls }

  parse_from-calls :
      (fuel : ℕ) {js : List String} {calls : List (ToolCall V)} (a : String) (x : Collected V)
      → length js < fuel
      → plain a ≡ true
      → Readable read_call js calls
      → parse_from read_call fuel (render_calls js a) x
        ≡ some (parsed (output (with_text a (with_calls calls x))))
  unfolding parse_from render_calls
  parse_from-calls zero a x enough h r = absurd (omega arith)
  parse_from-calls (suc fuel) a x enough h none_left =
      rw
        (
          lacks-plain "<" "think>" a refl h,
          lacks-plain "<" "tool_call>" a refl h,
          append-nil,
          parse_from,
        )
        refl
  parse_from-calls (suc fuel) a x enough h (readable {j} {call} {js} {calls} p e rest) =
      let after = j <> ("</tool_call>" <> render_calls js a) in
      let no_think = lacks-render_calls (j ∷ js) a (Readable-plain (readable p e rest)) h in
      let opened = tag-found "<" "tool_call>" after in
      let closed =
        clear-found "<" "/tool_call>" j (render_calls js a)
          (plain-clear "<" "/tool_call>" j refl p) in
      let later = parse_from-calls fuel a (with_call call x) (omega arith) h rest in
      let tail = append_assoc x.tool_calls (call ∷ []) calls in
      rw (no_think, opened, parse_from, called, closed, e, collected_call, with_text-empty x)
        (later
          ∙ ap (λ cs. some (parsed (output (with_text a (record x { tool_calls = cs }))))) tail)

  expected : String → List (ToolCall V) → String → ParsedOutput V
  expected thinking calls answer = record {
    thinking = some (trim_text thinking);
    tool_calls = calls;
    text = if str_eq (trim_text answer) "" then none else some (trim_text answer);
  }

  output-expected :
      (thinking answer : String) (calls : List (ToolCall V))
      → output (with_text answer (with_calls calls (with_thinking thinking (nothing_yet {V = V}))))
        ≡ expected thinking calls answer
  unfolding output with_text expected
  output-expected thinking answer calls = elim (Bool-cases (str_eq (trim_text answer) "")) [
    | inl e ↦ rw e refl
    | inr e ↦ rw e refl
  ]

  parse_from-render :
      (fuel : ℕ) (thinking answer : String) {js : List String} {calls : List (ToolCall V)}
      → length js < fuel
      → plain thinking ≡ true
      → plain answer ≡ true
      → Readable read_call js calls
      → parse_from read_call (suc fuel) (render thinking js answer) nothing_yet
        ≡ some (parsed (expected thinking calls answer))
  unfolding parse_from render
  parse_from-render fuel thinking answer {js} {calls} enough t a r =
      let opened = tag-found "<" "think>" (thinking <> ("</think>" <> render_calls js answer)) in
      let closed =
        clear-found "<" "/think>" thinking (render_calls js answer)
          (plain-clear "<" "/think>" thinking refl t) in
      rw (opened, parse_from, thought, closed, with_text-empty (nothing_yet {V = V}))
        (parse_from-calls fuel answer (with_thinking thinking nothing_yet) enough a r
          ∙ ap (λ p. some (parsed p)) (output-expected thinking answer calls))

  -- A thought, the JSON of tool calls and an answer that follow each other are read back, where none
  -- of them opens a tag: the thought trimmed, the calls in their order, and the answer trimmed,
  -- or no answer if that is empty. The text is normalized, and the reader of XML calls does not apply.
  pub parse_assistant_output-render :
      (normalize : String → String) (xml : String → Option (ParseResult V))
      (thinking answer : String) {js : List String} {calls : List (ToolCall V)}
      → plain thinking ≡ true
      → plain answer ≡ true
      → Readable read_call js calls
      → normalize (render thinking js answer) ≡ render thinking js answer
      → xml (render thinking js answer) ≡ none
      → parse_assistant_output read_call normalize xml (render thinking js answer)
        ≡ some (
            parsed (record {
              thinking = some (trim_text thinking);
              tool_calls = calls;
              text = if str_eq (trim_text answer) "" then none else some (trim_text answer);
            }))
  unfolding parse_assistant_output expected
  parse_assistant_output-render normalize xml thinking answer {js} t a r same off =
      rw (parse_assistant_output, same, off, same)
        (parse_from-render (count (render thinking js answer)) thinking answer
          (render-length thinking js answer) t a r)
