-- ===== src/Parsing.antt =====
-- src/agent/parse.rs: `parse_assistant_output` and the repair of the JSON of a tool call. serde_json
-- (`read_call`) and the regular expression of `normalize_special_tags` are parameters, and so is the
-- reader of XML calls, which answers `none` where it is off or does not apply.
pub mod Fuel
pub mod Tags
pub mod Blocks
mod Examples
use Prim.Native.Char.{code}
use bonsai_agent.Prelude.{
  ℕ, zero, suc, ◌+◌, Bool, true, false, not, ◌&&◌, ◌||◌, String, ◌<>◌, count, Option, none, some,
  List, [], ◌∷◌, ◌++◌, ◌⊎◌, inl, inr, str_eq, split_at, strip_prefix, trim_text, trim_start,
  trim_end, join, is_empty, ◌==◌, is_whitespace, if◌then◌else◌,
}

pub record ToolCall (V : Type 0) : Type 0 where
  pub name : String
  pub arguments : V

pub record ParsedOutput (V : Type 0) : Type 0 where
  pub thinking : Option String
  pub tool_calls : List (ToolCall V)
  pub text : Option String

pub data ParseResult (V : Type 0) : Type 0 where
  parsed : ParsedOutput V → ParseResult V
  failed : String → ParseResult V

-- `s.strip_suffix(p).unwrap_or(s)`.
without_suffix : String → String → String
without_suffix p String.[] = String.[]
without_suffix p (String.◌∷◌ c s) =
    let rest = without_suffix p s in
    if str_eq (String.◌∷◌ c s) p then String.[] else String.◌∷◌ c rest

-- Whether the next character that is not white space closes an object or an array.
closes_next : String → Bool
closes_next String.[] = false
closes_next (String.◌∷◌ c s) =
    let rest = closes_next s in
    if is_whitespace (code c) then rest else code c == b'}' || code c == b']'

-- The loop over the characters, with `in_string` and `escape`.
without_trailing_commas : Bool → Bool → String → String
unfolding closes_next
without_trailing_commas in_string escape String.[] = String.[]
without_trailing_commas true true (String.◌∷◌ c s) =
    String.◌∷◌ c (without_trailing_commas true false s)
without_trailing_commas true false (String.◌∷◌ c s) =
    let quoted = without_trailing_commas true (code c == 0x5c) s in
    let outside = without_trailing_commas false false s in
    String.◌∷◌ c (if code c == 0x22 then outside else quoted)
without_trailing_commas false escape (String.◌∷◌ c s) =
    let quoted = without_trailing_commas true false s in
    let outside = without_trailing_commas false false s in
    if code c == 0x22
    then String.◌∷◌ c quoted
    else if code c == b',' && closes_next s
    then outside
    else String.◌∷◌ c outside

without_fence : String → String
without_fence s = elim (strip_prefix "```json" s) [
  | some rest ↦ trim_start rest
  | none ↦ elim (strip_prefix "```" s) [ some rest ↦ trim_start rest | none ↦ s ]
]

without_end_fence : String → String
unfolding without_suffix
without_end_fence s =
    let rest = without_suffix "```" s in if str_eq rest s then s else trim_end rest

unfoldable pub sanitize_tool_call_json : String → String
unfolding without_trailing_commas closes_next without_fence without_end_fence without_suffix
sanitize_tool_call_json raw =
    without_trailing_commas false false (without_end_fence (without_fence (trim_text raw)))

-- What the loop has collected.
pub record Collected (V : Type 0) : Type 0 where
  pub thinking : Option String
  pub tool_calls : List (ToolCall V)
  pub text_parts : List String

abbrev pub nothing_yet : {V : Type 0} → Collected V
nothing_yet = record { thinking = none; tool_calls = []; text_parts = [] }

module _ {V : Type 0} where
  pub with_text : String → Collected V → Collected V
  with_text s x =
      let t = trim_text s in
      if str_eq t "" then x else record x { text_parts = x.text_parts ++ t ∷ [] }

  abbrev pub with_thinking : String → Collected V → Collected V
  with_thinking s x = record x { thinking = some (trim_text s) }

  abbrev pub with_call : ToolCall V → Collected V → Collected V
  with_call call x = record x { tool_calls = x.tool_calls ++ call ∷ [] }

  unfoldable pub output : Collected V → ParsedOutput V
  output x = record {
    thinking = x.thinking;
    tool_calls = x.tool_calls;
    text = if is_empty x.text_parts then none else some (join "\n" x.text_parts);
  }

  -- After `<think>`. `later` is the rest of the loop.
  pub thought :
      (String → Collected V → Option (ParseResult V))
      → String
      → Collected V
      → Option (ParseResult V)
  thought later after x = elim (split_at "</think>" after) [
    | some (content, rest) ↦ later rest (with_thinking content x)
    | none ↦ elim (split_at "<tool_call>" after) [
      | some (content, rest) ↦ later ("<tool_call>" <> rest) (with_thinking content x)
      | none ↦ later "" (with_thinking after x)
    ]
  ]

  module _ (read_call : String → ToolCall V ⊎ String) where
    pub collected_call :
        (Collected V → Option (ParseResult V))
        → String
        → ToolCall V ⊎ String
        → Collected V
        → Option (ParseResult V)
    collected_call later content (inl call) x = later (with_call call x)
    collected_call later content (inr e) x =
        some (failed ("tool_callのJSONパースに失敗: " <> (e <> ("。内容: " <> trim_text content))))

    -- After `<tool_call>`.
    pub called :
        (String → Collected V → Option (ParseResult V))
        → String
        → Collected V
        → Option (ParseResult V)
    unfolding collected_call
    called later after x = elim (split_at "</tool_call>" after) [
      | none ↦ some (failed "</tool_call> 閉じタグが見つかりません")
      | some (content, rest) ↦
          collected_call (later rest) content (read_call (sanitize_tool_call_json content)) x
    ]

    -- The loop over what remains, with `fuel` rounds; `none` is a lack of fuel.
    unfoldable pub parse_from : ℕ → String → Collected V → Option (ParseResult V)
    unfolding thought called collected_call with_text
    parse_from zero remaining x = none
    parse_from (suc fuel) remaining x =
        let untagged = some (parsed (output (with_text remaining x))) in
        elim (split_at "<think>" remaining) [
          | some (before, after) ↦ thought (λ s y. parse_from fuel s y) after (with_text before x)
          | none ↦ elim (split_at "<tool_call>" remaining) [
            | some (before, after) ↦ called (λ s y. parse_from fuel s y) after (with_text before x)
            | none ↦ untagged
          ]
        ]

    unfoldable pub parse_assistant_output :
        (String → String) → (String → Option (ParseResult V)) → String → Option (ParseResult V)
    parse_assistant_output normalize xml raw =
        let normalized = normalize raw in
        elim (xml normalized) [
          | some result ↦ some result
          | none ↦ parse_from (suc (count normalized)) normalized nothing_yet
        ]
