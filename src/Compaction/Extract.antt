-- ===== src/Compaction/Extract.antt =====
-- src/agent/compaction.rs: what the compactions extract from the messages that they shrink.
pub mod Fuel
mod Examples
use Prim.Native.Char.{code}
use bonsai_agent.Prelude.{
  ℕ, zero, suc, ◌+◌, Bool, ◌&&◌, ◌||◌, String, ◌<>◌, len, count, Option, none, some, List, [], ◌∷◌,
  ◌++◌, HashMap, insert, lookup, str_eq, starts_with, ltb, leb, ◌==◌, length, any, take, take_chars,
  split_at, strip_prefix, trim_start, trim_text, if◌then◌else◌,
}
use mathlib.Core.List.{reverse}
use bonsai_agent.Conversation.{Message, is_assistant, is_tool}
use bonsai_agent.Recovery.StuckGuard.{or_zero}

-- The blocks between an opening and a closing tag, in order, up to the first tag that is not closed:
-- the `while let Some(start) = remaining.find(..)` loop. Every round consumes a tag, so a text has
-- fewer rounds than characters.
pub blocks_fuel : ℕ → String → String → String → List String
blocks_fuel zero opening closing s = []
blocks_fuel (suc f) opening closing s = elim (split_at opening s) [
  | none ↦ []
  | some (before, after_tag) ↦ elim (split_at closing after_tag) [
    | none ↦ []
    | some (block, rest) ↦ block ∷ blocks_fuel f opening closing rest
  ]
]

unfoldable pub blocks : String → String → String → List String
unfolding blocks_fuel
blocks opening closing s = blocks_fuel (suc (count s)) opening closing s

-- A value that opens with a quotation mark, up to the next one.
quoted : String → Option String
quoted s = elim (strip_prefix "\"" s) [
  | none ↦ none
  | some value ↦ elim (split_at "\"" value) [ none ↦ none | some (name, rest) ↦ some name ]
]

unfoldable pub extract_name_from_json : String → Option String
unfolding quoted
extract_name_from_json json_str = elim (split_at "\"name\"" json_str) [
  | none ↦ none
  | some (before, after_key) ↦ elim (split_at ":" after_key) [
    | none ↦ none
    | some (gap, after_colon) ↦ quoted (trim_start after_colon)
  ]
]

-- `*counts.entry(name).or_insert(0) += 1` for each block that names a tool.
count_names : HashMap ℕ → List String → HashMap ℕ
count_names counts [] = counts
count_names counts (block ∷ rest) =
    count_names
      (elim (extract_name_from_json block) [
        | none ↦ counts
        | some name ↦ insert name (or_zero (lookup name counts) + 1) counts
      ])
      rest

unfoldable pub summarize_tool_usage_from : HashMap ℕ → List Message → HashMap ℕ
unfolding count_names
summarize_tool_usage_from counts [] = counts
summarize_tool_usage_from counts (m ∷ ms) =
    summarize_tool_usage_from
      (if is_assistant m.role
        then count_names counts (blocks "<tool_call>" "</tool_call>" m.content)
        else counts)
      ms

abbrev pub summarize_tool_usage : List Message → HashMap ℕ
summarize_tool_usage = summarize_tool_usage_from []

-- The pieces of a text between line feeds.
lines_from : String → String → List String
lines_from line String.[] = line ∷ []
lines_from line (String.◌∷◌ c s) =
    let next = lines_from (if code c == 10 then "" else line <> String.◌∷◌ c String.[]) s in
    if code c == 10 then line ∷ next else next

last_or : String → List String → String
last_or d [] = d
last_or d (x ∷ xs) = last_or x xs

non_blank : List String → List String
non_blank [] = []
non_blank (l ∷ ls) = let rest = non_blank ls in if str_eq (trim_text l) "" then rest else l ∷ rest

-- A final `\r` of a line needs no care: the line is trimmed.
unfoldable pub extract_last_sentence : String → String
unfolding lines_from last_or non_blank
extract_last_sentence block = trim_text (last_or block (non_blank (lines_from "" block)))

-- The conclusions of the blocks that have one.
conclusions : List String → List String
unfolding extract_last_sentence
conclusions [] = []
conclusions (b ∷ bs) =
    let rest = conclusions bs in
    let last_sentence = extract_last_sentence (trim_text b) in
    if str_eq (trim_text b) "" || str_eq last_sentence ""
    then rest
    else take_chars 200 last_sentence ∷ rest

all_conclusions : List Message → List String
unfolding conclusions
all_conclusions [] = []
all_conclusions (m ∷ ms) =
    (if is_assistant m.role then conclusions (blocks "<think>" "</think>" m.content) else [])
    ++ all_conclusions ms

-- The search stops at the third.
unfoldable pub extract_thinking_summary : List Message → List String
unfolding all_conclusions
extract_thinking_summary messages = take 3 (all_conclusions messages)

pub strip_fuel : ℕ → String → String
strip_fuel zero s = s
strip_fuel (suc f) s = elim (split_at "<think>" s) [
  | none ↦ s
  | some (before, after_tag) ↦ elim (split_at "</think>" after_tag) [
    | none ↦ before
    | some (block, rest) ↦ before <> strip_fuel f rest
  ]
]

-- The closing tag is looked for from the opening one on, which holds none.
unfoldable pub strip_think_tags : String → String
unfolding strip_fuel
strip_think_tags s = strip_fuel (suc (count s)) s

-- `.iter().rev().find(..)`.
abbrev pub find_last : (Message → Bool) → Option Message → List Message → Option Message
find_last p found [] = found
find_last p found (m ∷ ms) = find_last p (if p m then some m else found) ms

outcome_of : (String → String) → Option Message → Option String
outcome_of clean none = none
outcome_of clean (some m) =
    let trimmed = trim_text (clean m.content) in
    if str_eq trimmed "" then none else some (take_chars 200 trimmed)

unfoldable pub extract_last_outcome : List Message → Option String
unfolding outcome_of
extract_last_outcome messages =
    elim (outcome_of strip_think_tags (find_last (λ m. is_assistant m.role) none messages)) [
      | some outcome ↦ some outcome
      | none ↦ outcome_of (λ s. s) (find_last (λ m. is_tool m.role) none messages)
    ]

unfoldable pub is_tool_error_message : String → Bool
is_tool_error_message content =
    let trimmed = trim_start content in
    starts_with trimmed "ツール実行エラー"
    || starts_with trimmed "Error:"
    || starts_with trimmed "[Tool error]"

-- The loop of `collect_unresolved`, over the messages from the last one on.
unresolved_from : List String → List Message → List String
unresolved_from errors [] = errors
unresolved_from errors (m ∷ ms) =
    let preview = take_chars 100 m.content in
    let errors' =
      if is_tool m.role && is_tool_error_message m.content
      then (if any (str_eq preview) errors then errors else errors ++ preview ∷ [])
      else errors in
    let rest = unresolved_from errors' ms in
    if is_tool m.role && is_tool_error_message m.content && leb 3 (length errors')
    then errors'
    else rest

unfoldable pub collect_unresolved : List Message → ℕ → List String
unfolding unresolved_from
collect_unresolved messages boundary =
    reverse (unresolved_from [] (reverse (take boundary messages)))

-- The previews of the longer answers.
unfoldable pub resolved_previews : List Message → List String
resolved_previews [] = []
resolved_previews (m ∷ ms) =
    let rest = resolved_previews ms in
    if is_assistant m.role && ltb 20 (len m.content) then take_chars 80 m.content ∷ rest else rest
