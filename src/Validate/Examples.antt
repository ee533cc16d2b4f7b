-- ===== src/Validate/Examples.antt =====
-- Calls of tools with the default list of denied paths, and one pattern.
use bonsai_agent.Prelude.{
  Bool, false, some, ◌&&◌, ◌≡◌, refl, String, none, List, [], ◌∷◌, contains, all,
}
use bonsai_agent.Parsing.{ToolCall}
use bonsai_agent.PathGuard.{
  Files, default_deny_list, components, split_chars, pop, normalize_onto, normalize_path,
  has_prefix, matches_candidate, matches_denied_resolved, absolute_of, is_denied_name, is_denied,
  expand_tilde, reversed_onto,
}
use bonsai_agent.Validate.{
  Value, string, array, object, cons, nil, field, end, validate_tool_call, check_name,
  check_command, check_paths_in_value, check_dangerous_patterns, check_patterns, walk, is_known,
  shell_command,
}
use bonsai_agent.Validate.Suggest.{
  chars, row_from, last_row, first_row, edit_distance, closest, suggest_similar_tool,
}
use bonsai_agent.Validate.Distance.{IsDistance, edit_distance-least}
use bonsai_agent.Validate.Strings.{
  strings_of, path_ok, command_ok, no_match, validate_tool_call-valid,
}

abbrev files : Files
files = record { canonicalize = λ path. none; current_dir = none; home = none }

abbrev tools : List String
tools = "file_read" ∷ []

abbrev patterns : List (String → Bool)
patterns = (λ s. contains s "sudo") ∷ []

-- A denied path within a list within an object.
abbrev call : ToolCall Value
call = record {
  name = "file_read";
  arguments = object (field "paths" (array (cons (string "/etc/./passwd") nil)) end);
}

refused : (validate_tool_call files tools default_deny_list patterns call).is_valid ≡ false
unfolding default_deny_list components split_chars pop normalize_onto normalize_path has_prefix
    matches_candidate matches_denied_resolved absolute_of is_denied_name is_denied expand_tilde
    validate_tool_call check_name check_command check_paths_in_value check_dangerous_patterns
    check_patterns walk
refused = refl

validate_tool_call-valid_example :
    (validate_tool_call files tools default_deny_list patterns call).is_valid ≡ (
      is_known files tools default_deny_list patterns call.name
      && all (path_ok (is_denied files default_deny_list)) (strings_of call.arguments)
      && command_ok files default_deny_list
          (shell_command files tools default_deny_list patterns call)
      && all (no_match patterns) (strings_of call.arguments))
validate_tool_call-valid_example =
    validate_tool_call-valid files tools default_deny_list patterns call

kitten : edit_distance "kitten" "sitting" ≡ 3
unfolding row_from last_row first_row edit_distance
kitten = refl

-- A name that is close to a known one.
suggested : suggest_similar_tool "fil_read" ("shell" ∷ "file_read" ∷ []) ≡ some "file_read"
unfolding row_from last_row first_row edit_distance closest suggest_similar_tool
suggested = refl

edit_distance-least_example :
    IsDistance
      (reversed_onto (chars "shel") [])
      (reversed_onto (chars "shell") [])
      (edit_distance "shel" "shell")
edit_distance-least_example = edit_distance-least "shel" "shell"
