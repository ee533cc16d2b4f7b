-- ===== src/PathGuard/Command.antt =====
-- src/safety/path_guard.rs: the denied paths in a command of the shell.
use Prim.Native.Char.{Char, code}
use bonsai_agent.Prelude.{
  ℕ, Bool, false, ◌&&◌, ◌||◌, not, String, ◌<>◌, Option, none, some, List, [], ◌∷◌, ◌++◌, str_eq,
  starts_with, contains, any, ◌==◌, is_whitespace, split_at, if◌then◌else◌,
}
use bonsai_agent.PathGuard.Ansic.{unescape_ansic}
use bonsai_agent.PathGuard.{split_chars, PathGuard, Files, is_denied}

-- The state of the loop over the characters.
pub record Scan : Type 0 where
  pub tokens : List String
  pub current : String
  pub in_single_quote : Bool
  pub in_double_quote : Bool
  pub skipping : Bool

abbrev pub with_token : Scan → List String
with_token s = if str_eq s.current "" then s.tokens else s.tokens ++ s.current ∷ []

abbrev pub cut : Scan → Scan
cut s = record s { tokens = with_token s; current = "" }

abbrev pub is_space : ℕ → Bool
is_space c = c == b' ' || c == 9 || c == 13 || c == 10

abbrev pub is_separator : ℕ → Bool
is_separator c = c == b'|' || c == b';' || c == b'&' || c == b'(' || c == b')' || c == b'`'

abbrev pub begins_with : ℕ → String → Bool
begins_with c String.[] = false
begins_with c (String.◌∷◌ d s) = code d == c

-- One character, with the text after it. A second `>` is skipped.
unfoldable pub scan_char : Char → String → Scan → Scan
scan_char ch rest s =
    let c = code ch in
    if s.skipping
    then record s { skipping = false }
    else if c == 39 && not s.in_double_quote
    then record s { in_single_quote = not s.in_single_quote }
    else if c == 34 && not s.in_single_quote
    then record s { in_double_quote = not s.in_double_quote }
    else if s.in_single_quote || s.in_double_quote
    then record s { current = s.current <> String.◌∷◌ ch String.[] }
    else if is_space c || is_separator c
    then cut s
    else if c == b'>' || c == b'<'
    then record (cut s) { skipping = begins_with b'>' rest }
    else record s { current = s.current <> String.◌∷◌ ch String.[] }

unfoldable pub scan : String → Scan → Scan
scan String.[] s = s
scan (String.◌∷◌ c rest) s = scan rest (scan_char c rest s)

unfoldable pub extract_shell_tokens : String → List String
extract_shell_tokens command = with_token (
    scan command (record {
      tokens = [];
      current = "";
      in_single_quote = false;
      in_double_quote = false;
      skipping = false;
    }))

-- `['\'', '"', '(', ')', '[', ']', '{', '}', ';', ',', '`']`.
abbrev pub is_wrapping : ℕ → Bool
is_wrapping c =
    c == 39
    || c == 34
    || c == b'('
    || c == b')'
    || c == b'['
    || c == b']'
    || c == b'{'
    || c == b'}'
    || c == b';'
    || c == b','
    || c == b'`'

abbrev pub is_quote : ℕ → Bool
is_quote c = c == 39 || c == 34 || c == b'`'

unfoldable pub trim_start_chars : (ℕ → Bool) → String → String
trim_start_chars p String.[] = ""
trim_start_chars p (String.◌∷◌ c s) =
    let rest = trim_start_chars p s in if p (code c) then rest else String.◌∷◌ c s

unfoldable pub trim_end_chars : (ℕ → Bool) → String → String
trim_end_chars p String.[] = ""
trim_end_chars p (String.◌∷◌ c s) =
    let rest = trim_end_chars p s in if p (code c) && str_eq rest "" then "" else String.◌∷◌ c rest

abbrev pub trim_matches : (ℕ → Bool) → String → String
trim_matches p s = trim_end_chars p (trim_start_chars p s)

-- A candidate is added once, and an empty one never.
abbrev pub add_candidate : String → List String → List String
add_candidate s found =
    if str_eq s "" || any (λ t. str_eq t s) found then found else found ++ s ∷ []

abbrev pub strip_dollar : String → String
strip_dollar s = trim_matches is_quote (trim_start_chars (λ c. c == b'$') s)

abbrev pub add_stripped : String → List String → List String
add_stripped s found = if starts_with s "$" then add_candidate (strip_dollar s) found else found

abbrev pub add_words : List String → List String → List String
add_words [] found = found
add_words (w ∷ ws) found =
    let cleaned = trim_matches is_wrapping w in
    add_words ws (add_stripped cleaned (add_candidate cleaned found))

abbrev pub not_empty : List String → List String
not_empty [] = []
not_empty (s ∷ ss) = let rest = not_empty ss in if str_eq s "" then rest else s ∷ rest

-- `str::split_whitespace`.
abbrev pub split_whitespace : String → List String
split_whitespace s = not_empty (split_chars is_whitespace s)

abbrev pub add_some : Option String → List String → List String
add_some none found = found
add_some (some s) found = add_candidate s found

-- The text behind `$`, and with its escapes replaced.
abbrev pub add_unescaped : String → List String → List String
add_unescaped s found =
    let stripped = strip_dollar s in
    let found' = add_candidate stripped found in
    if not (starts_with s "$")
    then found
    else if contains stripped "\\"
    then add_some (unescape_ansic stripped) found'
    else found'

abbrev pub add_value : Option (String × String) → List String → List String
add_value none found = found
add_value (some (key, val)) found =
    let cleaned = trim_matches is_wrapping val in
    add_unescaped cleaned (add_candidate cleaned found)

unfoldable pub extract_candidates_from_token : String → List String
unfolding split_at
extract_candidates_from_token token =
    let cleaned = trim_matches is_wrapping token in
    let found = add_unescaped cleaned (add_candidate cleaned []) in
    let found' = add_value (split_at "=" cleaned) found in
    let words =
      if contains token " " || contains token "\t"
      then add_words (split_whitespace token) found'
      else found' in
    if contains token "'" || contains token "\"" || contains token "`"
    then add_words (split_chars is_quote token) words
    else words

module _ (f : Files) (g : PathGuard) where
  unfoldable pub add_denied : List String → List String → List String
  add_denied [] found = found
  add_denied (c ∷ cs) found =
      add_denied cs
        (if is_denied f g c && not (any (λ t. str_eq t c) found) then found ++ c ∷ [] else found)

  unfoldable pub denied_in_tokens : List String → List String → List String
  denied_in_tokens [] found = found
  denied_in_tokens (t ∷ ts) found =
      denied_in_tokens ts (add_denied (extract_candidates_from_token t) found)

  unfoldable pub find_denied_paths_in_command : String → List String
  find_denied_paths_in_command command = denied_in_tokens (extract_shell_tokens command) []
