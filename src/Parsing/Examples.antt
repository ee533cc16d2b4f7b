-- ===== src/Parsing/Examples.antt =====
-- A reader of calls that knows one text, and outputs of a model.
use bonsai_agent.Prelude.{
  true, String, Option, none, some, [], ◌∷◌, ◌⊎◌, inl, inr, ◌≡◌, refl, str_eq, is_some, split_at,
  strip_prefix, trim_text, trim_start, trim_end, if◌then◌else◌,
}
use bonsai_agent.Parsing.{
  ToolCall, ParseResult, parsed, parse_assistant_output, parse_from, output,
  sanitize_tool_call_json,
}
use bonsai_agent.Parsing.Fuel.{parse_assistant_output-ends}
use bonsai_agent.Parsing.Tags.{plain}
use bonsai_agent.Parsing.Blocks.{none_left, readable, render, parse_assistant_output-render}

abbrev git : ToolCall String
git = record { name = "git"; arguments = "{}" }

abbrev read_git : String → ToolCall String ⊎ String
read_git s = if str_eq s "{\"name\":\"git\"}" then inl git else inr "expected value"

abbrev as_is : String → String
as_is s = s

abbrev off : String → Option (ParseResult String)
off s = none

sanitize-fence : sanitize_tool_call_json "```json\n{\"name\":\"git\",}```" ≡ "{\"name\":\"git\"}"
unfolding sanitize_tool_call_json trim_text trim_start trim_end strip_prefix
sanitize-fence = refl

parse_assistant_output-ends_example :
    is_some (parse_assistant_output read_git as_is off "<think>no end") ≡ true
parse_assistant_output-ends_example = parse_assistant_output-ends read_git as_is off "<think>no end"

parse_assistant_output-render_example :
    parse_assistant_output read_git as_is off
      (render " look " ("{\"name\":\"git\",}" ∷ "{\"name\":\"git\"}" ∷ []) "done")
    ≡ some (
        parsed (record { thinking = some "look"; tool_calls = git ∷ git ∷ []; text = some "done" }))
unfolding plain sanitize_tool_call_json trim_text trim_start trim_end strip_prefix
parse_assistant_output-render_example =
    parse_assistant_output-render read_git as_is off " look " "done" refl refl
      (readable refl refl (readable refl refl none_left)) refl refl

-- A call before a thought is taken for text, and is not made.
call_before_thought :
    parse_assistant_output read_git as_is off
      "<tool_call>{\"name\":\"git\"}</tool_call><think>done</think>"
    ≡ some (
        parsed (record {
          thinking = some "done";
          tool_calls = [];
          text = some "<tool_call>{\"name\":\"git\"}</tool_call>";
        }))
unfolding parse_assistant_output parse_from output split_at strip_prefix trim_text trim_start
    trim_end
call_before_thought = refl
