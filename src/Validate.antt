-- ===== src/Validate.antt =====
-- src/agent/validate.rs: whether a call of a tool may be executed. A pattern is a function on texts,
-- and the file system is a parameter.
pub mod Distance
pub mod Strings
pub mod Suggest
mod Examples
use bonsai_agent.Prelude.{
  Bool, true, false, ◌&&◌, ◌||◌, not, String, ◌<>◌, Option, none, some, List, [], ◌∷◌, ◌++◌, str_eq,
  starts_with, any, if◌then◌else◌,
}
use bonsai_agent.Parsing.{ToolCall}
use bonsai_agent.PathGuard.{PathGuard, Files, is_denied}
use bonsai_agent.Validate.Suggest.{suggest_similar_tool}
use bonsai_agent.PathGuard.Command.{find_denied_paths_in_command}

-- A value of JSON; a number is its text.
mutual
  pub data Value : Type 0 where
    null : Value
    bool : Bool → Value
    number : String → Value
    string : String → Value
    array : Items → Value
    object : Fields → Value

  pub data Items : Type 0 where
    nil : Items
    cons : Value → Items → Items

  pub data Fields : Type 0 where
    end : Fields
    field : String → Value → Fields → Fields

pub data Severity : Type 0 where
  block warn : Severity

pub record ValidationIssue : Type 0 where
  pub severity : Severity
  pub message : String

pub record ValidationResult : Type 0 where
  pub is_valid : Bool
  pub issues : List ValidationIssue

abbrev pub add_block : String → List ValidationIssue → List ValidationIssue
add_block message issues = issues ++ record { severity = block; message = message } ∷ []

abbrev pub is_block : ValidationIssue → Bool
is_block i = elim i.severity [ block ↦ true | warn ↦ false ]

-- What the two walks over a value do with a text.
abbrev pub Visit : Type 0
Visit = String → List ValidationIssue → List ValidationIssue

abbrev pub check_path : (String → Bool) → Visit
check_path denied s issues =
    if (starts_with s "/" || starts_with s "~/") && denied s
    then add_block ("禁止パスへのアクセス: '" <> (s <> "'")) issues
    else issues

unfoldable pub check_patterns : List (String → Bool) → Visit
check_patterns [] s issues = issues
check_patterns (is_match ∷ patterns) s issues =
    check_patterns patterns s
      (if is_match s then add_block ("危険なコマンドパターン検出: '" <> (s <> "'")) issues else issues)

unfoldable mutual
  pub walk : Visit → Value → List ValidationIssue → List ValidationIssue
  walk visit (string s) issues = visit s issues
  walk visit (object fs) issues = walk_fields visit fs issues
  walk visit (array vs) issues = walk_items visit vs issues
  walk visit null issues = issues
  walk visit (bool b) issues = issues
  walk visit (number n) issues = issues

  pub walk_items : Visit → Items → List ValidationIssue → List ValidationIssue
  walk_items visit nil issues = issues
  walk_items visit (cons v vs) issues = walk_items visit vs (walk visit v issues)

  pub walk_fields : Visit → Fields → List ValidationIssue → List ValidationIssue
  walk_fields visit end issues = issues
  walk_fields visit (field k v fs) issues = walk_fields visit fs (walk visit v issues)

unfoldable pub check_paths_in_value :
    (String → Bool) → Value → List ValidationIssue → List ValidationIssue
check_paths_in_value denied = walk (check_path denied)

unfoldable pub check_dangerous_patterns :
    List (String → Bool) → Value → List ValidationIssue → List ValidationIssue
check_dangerous_patterns patterns = walk (check_patterns patterns)

-- `arguments.get("command").and_then(|c| c.as_str())`.
abbrev pub as_str : Value → Option String
as_str (string s) = some s
as_str _ = none

abbrev pub get_field : String → Fields → Option String
get_field key end = none
get_field key (field k v fs) =
    let rest = get_field key fs in if str_eq k key then as_str v else rest

abbrev pub get_text : String → Value → Option String
get_text key (object fs) = get_field key fs
get_text key _ = none

abbrev pub add_blocks : List String → List ValidationIssue → List ValidationIssue
add_blocks [] issues = issues
add_blocks (p ∷ ps) issues =
    add_blocks ps (add_block ("シェルコマンド内の禁止パスへのアクセス: '" <> (p <> "'")) issues)

module _ (f : Files) (known_tools : List String) (g : PathGuard)
    (patterns : List (String → Bool)) where
  abbrev pub is_known : String → Bool
  is_known name = any (λ t. str_eq t name) known_tools

  abbrev unknown_message : String → Option String → String
  unknown_message name none = "不明なツール: '" <> (name <> "'")
  unknown_message name (some s) = "不明なツール: '" <> (name <> ("'。もしかして: '" <> (s <> "'")))

  unfoldable pub check_name : String → List ValidationIssue
  check_name name =
      if is_known name
      then []
      else add_block (unknown_message name (suggest_similar_tool name known_tools)) []

  unfoldable pub check_command : Option String → List ValidationIssue → List ValidationIssue
  check_command none issues = issues
  check_command (some command) issues = add_blocks (find_denied_paths_in_command f g command) issues

  abbrev pub shell_command : ToolCall Value → Option String
  shell_command call = if str_eq call.name "shell" then get_text "command" call.arguments else none

  unfoldable pub validate_tool_call : ToolCall Value → ValidationResult
  validate_tool_call call =
      let named = check_name call.name in
      let paths = check_paths_in_value (is_denied f g) call.arguments named in
      let commands = check_command (shell_command call) paths in
      let issues = check_dangerous_patterns patterns call.arguments commands in
      record { is_valid = not (any is_block issues); issues = issues }
