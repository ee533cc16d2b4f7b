-- ===== src/Validate/Strings.antt =====
-- src/agent/validate.rs: a valid call, by the texts in its arguments.
use bonsai_agent.Prelude.{
  Bool, true, false, ◌&&◌, ◌||◌, not, ◌≡◌, refl, ap, ◌∙◌, String, ◌<>◌, Option, none, some, List,
  [], ◌∷◌, ◌++◌, str_eq, starts_with, any, all, is_empty, arith,
}
use bonsai_agent.Parsing.{ToolCall}
use bonsai_agent.PathGuard.{PathGuard, Files, is_denied}
use bonsai_agent.PathGuard.Command.{
  extract_shell_tokens, extract_candidates_from_token, add_denied, denied_in_tokens,
  find_denied_paths_in_command,
}
use bonsai_agent.Validate.{
  Value, null, bool, number, string, array, object, Items, nil, cons, Fields, end, field,
  ValidationIssue, add_block, is_block, Visit, check_path, check_patterns, walk, walk_items,
  walk_fields, check_paths_in_value, check_dangerous_patterns, add_blocks, is_known, check_name,
  check_command, shell_command, validate_tool_call,
}

-- The texts in a value, wherever they stand.
unfoldable mutual
  pub strings_of : Value → List String
  strings_of (string s) = s ∷ []
  strings_of (object fs) = strings_of_fields fs
  strings_of (array vs) = strings_of_items vs
  strings_of null = []
  strings_of (bool b) = []
  strings_of (number n) = []

  pub strings_of_items : Items → List String
  strings_of_items nil = []
  strings_of_items (cons v vs) = strings_of v ++ strings_of_items vs

  pub strings_of_fields : Fields → List String
  strings_of_fields end = []
  strings_of_fields (field k v fs) = strings_of v ++ strings_of_fields fs

abbrev pub free : List ValidationIssue → Bool
free issues = not (any is_block issues)

free-add_block :
    (message : String) (issues : List ValidationIssue) → free (add_block message issues) ≡ false
free-add_block message [] = refl
free-add_block message (i ∷ issues) = ground (arith, free-add_block message issues)

all-append : (p : String → Bool) (xs ys : List String) → all p (xs ++ ys) ≡ (all p xs && all p ys)
all-append p [] ys = refl
all-append p (x ∷ xs) ys = ground (arith, all-append p xs ys)

-- A visit that blocks the texts that `ok` does not pass.
module _ (visit : Visit) (ok : String → Bool)
    (visits : (s : String) (issues : List ValidationIssue)
      → free (visit s issues) ≡ (free issues && ok s)) where
  mutual
    unfolding walk walk_items walk_fields strings_of strings_of_items strings_of_fields

    free-walk :
        (v : Value) (issues : List ValidationIssue)
        → free (walk visit v issues) ≡ (free issues && all ok (strings_of v))
    free-walk (string s) issues = ground (arith, visits s issues)
    free-walk (object fs) issues = free-walk_fields fs issues
    free-walk (array vs) issues = free-walk_items vs issues
    free-walk null issues = ground arith
    free-walk (bool b) issues = ground arith
    free-walk (number n) issues = ground arith

    free-walk_items :
        (vs : Items) (issues : List ValidationIssue)
        → free (walk_items visit vs issues) ≡ (free issues && all ok (strings_of_items vs))
    free-walk_items nil issues = ground arith
    free-walk_items (cons v vs) issues = ground (
      arith,
      free-walk_items vs (walk visit v issues),
      free-walk v issues,
      all-append ok (strings_of v) (strings_of_items vs),
    )

    free-walk_fields :
        (fs : Fields) (issues : List ValidationIssue)
        → free (walk_fields visit fs issues) ≡ (free issues && all ok (strings_of_fields fs))
    free-walk_fields end issues = ground arith
    free-walk_fields (field k v fs) issues = ground (
      arith,
      free-walk_fields fs (walk visit v issues),
      free-walk v issues,
      all-append ok (strings_of v) (strings_of_fields fs),
    )

abbrev pub path_ok : (String → Bool) → String → Bool
path_ok denied s = not ((starts_with s "/" || starts_with s "~/") && denied s)

check_path-visits :
    (denied : String → Bool) (s : String) (issues : List ValidationIssue)
    → free (check_path denied s issues) ≡ (free issues && path_ok denied s)
check_path-visits denied s issues =
    ground (arith, free-add_block ("禁止パスへのアクセス: '" <> (s <> "'")) issues)

abbrev pub no_match : List (String → Bool) → String → Bool
no_match [] s = true
no_match (is_match ∷ patterns) s = not (is_match s) && no_match patterns s

check_patterns-visits :
    (patterns : List (String → Bool)) (s : String) (issues : List ValidationIssue)
    → free (check_patterns patterns s issues) ≡ (free issues && no_match patterns s)
unfolding check_patterns
check_patterns-visits [] s issues = ground arith
check_patterns-visits (is_match ∷ patterns) s issues =
    let message = "危険なコマンドパターン検出: '" <> (s <> "'") in
    ground (
      arith,
      check_patterns-visits patterns s (add_block message issues),
      check_patterns-visits patterns s issues,
      free-add_block message issues,
    )

module _ (f : Files) (g : PathGuard) where
  abbrev pub allowed : String → Bool
  allowed c = not (is_denied f g c)

  abbrev pub candidates_ok : String → Bool
  candidates_ok token = all allowed (extract_candidates_from_token token)

  is_empty-append : (xs : List String) (x : String) → is_empty (xs ++ x ∷ []) ≡ false
  is_empty-append [] x = refl
  is_empty-append (y ∷ xs) x = refl

  is_empty-any : (p : String → Bool) (xs : List String) → any p xs ≡ true → is_empty xs ≡ false
  is_empty-any p [] h = cc
  is_empty-any p (x ∷ xs) h = refl

  add_denied-empty :
      (cs found : List String)
      → is_empty (add_denied f g cs found) ≡ (is_empty found && all allowed cs)
  unfolding add_denied
  add_denied-empty [] found = ground arith
  add_denied-empty (c ∷ cs) found = ground (
    arith,
    add_denied-empty cs found,
    add_denied-empty cs (found ++ c ∷ []),
    is_empty-append found c,
    is_empty-any (λ t. str_eq t c) found,
  )

  denied_in_tokens-empty :
      (ts found : List String)
      → is_empty (denied_in_tokens f g ts found) ≡ (is_empty found && all candidates_ok ts)
  unfolding denied_in_tokens
  denied_in_tokens-empty [] found = ground arith
  denied_in_tokens-empty (t ∷ ts) found =
      let candidates = extract_candidates_from_token t in
      ground (
        arith,
        denied_in_tokens-empty ts (add_denied f g candidates found),
        add_denied-empty candidates found,
      )

  -- No word of the command, and nothing that is taken from one, is a denied path.
  abbrev pub command_ok : Option String → Bool
  command_ok none = true
  command_ok (some command) = all candidates_ok (extract_shell_tokens command)

  find_denied-empty :
      (command : String)
      → is_empty (find_denied_paths_in_command f g command) ≡ command_ok (some command)
  unfolding find_denied_paths_in_command
  find_denied-empty command = denied_in_tokens-empty (extract_shell_tokens command) []

free-add_blocks :
    (ps : List String) (issues : List ValidationIssue)
    → free (add_blocks ps issues) ≡ (free issues && is_empty ps)
free-add_blocks [] issues = ground arith
free-add_blocks (p ∷ ps) issues =
    let message = "シェルコマンド内の禁止パスへのアクセス: '" <> (p <> "'") in
    ground (arith, free-add_blocks ps (add_block message issues), free-add_block message issues)

module _ (f : Files) (known_tools : List String) (g : PathGuard)
    (patterns : List (String → Bool)) where
  free-check_name :
      (name : String)
      → free (check_name f known_tools g patterns name) ≡ is_known f known_tools g patterns name
  unfolding check_name
  free-check_name name = ground (arith, free-add_block _ [])

  free-check_command :
      (command : Option String) (issues : List ValidationIssue)
      → free (check_command f known_tools g patterns command issues)
        ≡ (free issues && command_ok f g command)
  unfolding check_command
  free-check_command none issues = ground arith
  free-check_command (some command) issues =
      let found = find_denied_paths_in_command f g command in
      free-add_blocks found issues ∙ ap (λ b. free issues && b) (find_denied-empty f g command)

  -- A call is valid exactly when its tool is known, no text in its arguments, however deep, is a
  -- denied path that starts at the root or at home, no word of a command of the shell is a denied
  -- path, and no text in its arguments matches a dangerous pattern.
  pub validate_tool_call-valid :
      (call : ToolCall Value)
      → (validate_tool_call f known_tools g patterns call).is_valid ≡ (
          is_known f known_tools g patterns call.name
          && all (path_ok (is_denied f g)) (strings_of call.arguments)
          && command_ok f g (shell_command f known_tools g patterns call)
          && all (no_match patterns) (strings_of call.arguments))
  unfolding validate_tool_call check_paths_in_value check_dangerous_patterns
  validate_tool_call-valid call =
      let denied = is_denied f g in
      let named = check_name f known_tools g patterns call.name in
      let paths = walk (check_path denied) call.arguments named in
      let command = shell_command f known_tools g patterns call in
      let commands = check_command f known_tools g patterns command paths in
      rw
        (
          free-walk (check_patterns patterns) (no_match patterns) (check_patterns-visits patterns)
              call.arguments commands,
          free-check_command command paths,
          free-walk (check_path denied) (path_ok denied) (check_path-visits denied) call.arguments
              named,
          free-check_name call.name,
        )
        refl
