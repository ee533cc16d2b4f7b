-- ===== src/PathGuard.antt =====
-- src/safety/path_guard.rs: the paths that the agent may not touch. A path is its components, as
-- `Path::components` gives them; the file system, the directories and the home are parameters.
pub mod Ansic
pub mod Command
pub mod Inside
mod Examples
use Prim.Native.Char.{code}
use bonsai_agent.Prelude.{
  ℕ, Bool, true, false, ◌&&◌, ◌||◌, not, String, ◌<>◌, Option, none, some, List, [], ◌∷◌, ◌++◌,
  str_eq, starts_with, contains, is_empty, any, ◌==◌, if◌then◌else◌,
}

pub data Component : Type 0 where
  root_dir cur_dir parent_dir : Component
  normal : String → Component

abbrev pub FilePath : Type 0
FilePath = List Component

-- The pieces between the characters that `p` accepts.
abbrev pub add_to_first : String → List String → List String
add_to_first c [] = c ∷ []
add_to_first c (s ∷ ss) = (c <> s) ∷ ss

unfoldable pub split_chars : (ℕ → Bool) → String → List String
split_chars p String.[] = "" ∷ []
split_chars p (String.◌∷◌ c s) =
    let rest = split_chars p s in
    if p (code c) then "" ∷ rest else add_to_first (String.◌∷◌ c String.[]) rest

-- A piece of a path; a full stop counts only where a relative path begins.
abbrev pub component_of : Bool → String → List Component
component_of first piece =
    if str_eq piece ""
    then []
    else if str_eq piece "."
    then (if first then cur_dir ∷ [] else [])
    else if str_eq piece ".."
    then parent_dir ∷ []
    else normal piece ∷ []

abbrev pub components_of : List String → List Component
components_of [] = []
components_of (piece ∷ pieces) = component_of false piece ++ components_of pieces

abbrev pub relative_components : List String → List Component
relative_components [] = []
relative_components (piece ∷ pieces) = component_of true piece ++ components_of pieces

-- `Path::components`.
unfoldable pub components : String → FilePath
unfolding split_chars
components path =
    let pieces = split_chars (λ c. c == b'/') path in
    if starts_with path "/" then root_dir ∷ components_of pieces else relative_components pieces

abbrev pub is_absolute : FilePath → Bool
is_absolute (root_dir ∷ cs) = true
is_absolute _ = false

-- `PathBuf::pop` on the components from the last to the first.
unfoldable pub pop : List Component → List Component
pop [] = []
pop (root_dir ∷ cs) = root_dir ∷ cs
pop (c ∷ cs) = cs

-- The loop, on the components so far, from the last to the first; a push of the root replaces them.
unfoldable pub normalize_onto : List Component → FilePath → List Component
normalize_onto done [] = done
normalize_onto done (root_dir ∷ cs) = normalize_onto (root_dir ∷ []) cs
normalize_onto done (cur_dir ∷ cs) = normalize_onto done cs
normalize_onto done (parent_dir ∷ cs) = normalize_onto (pop done) cs
normalize_onto done (normal c ∷ cs) = normalize_onto (normal c ∷ done) cs

abbrev pub reversed_onto : {A : Type 0} → List A → List A → List A
reversed_onto [] ys = ys
reversed_onto (x ∷ xs) ys = reversed_onto xs (x ∷ ys)

unfoldable pub normalize_path : FilePath → FilePath
normalize_path path = reversed_onto (normalize_onto [] path) []

abbrev pub same_component : Component → Component → Bool
same_component root_dir root_dir = true
same_component cur_dir cur_dir = true
same_component parent_dir parent_dir = true
same_component (normal a) (normal b) = str_eq a b
same_component _ _ = false

-- `Path::starts_with`.
unfoldable pub has_prefix : FilePath → FilePath → Bool
has_prefix path [] = true
has_prefix [] (c ∷ cs) = false
has_prefix (p ∷ ps) (c ∷ cs) = same_component p c && has_prefix ps cs

abbrev pub same_path : FilePath → FilePath → Bool
same_path [] [] = true
same_path (p ∷ ps) (c ∷ cs) = same_component p c && same_path ps cs
same_path _ _ = false

abbrev pub file_name : FilePath → Option String
file_name [] = none
file_name (normal c ∷ []) = some c
file_name (c ∷ []) = none
file_name (c ∷ d ∷ cs) = file_name (d ∷ cs)

pub record Files : Type 0 where
  pub canonicalize : FilePath → Option FilePath
  pub current_dir : Option FilePath
  pub home : Option String

pub record PathGuard : Type 0 where
  pub deny_paths : List String

unfoldable pub default_deny_list : PathGuard
default_deny_list = record {
  deny_paths =
      "~/.ssh" ∷ "~/.gnupg" ∷ "~/.aws" ∷ "/etc/shadow" ∷ "/etc/passwd" ∷ ".env" ∷ ".env.local"
      ∷ ".env.production" ∷ "id_rsa" ∷ "id_ed25519" ∷ [];
}

abbrev pub tail_of : String → String
tail_of String.[] = ""
tail_of (String.◌∷◌ c s) = s

unfoldable pub expand_tilde : Option String → String → String
expand_tilde none path = path
expand_tilde (some home) path =
    if str_eq path "~" then home else if starts_with path "~/" then home <> tail_of path else path

abbrev pub same_name : Option String → Option String → Bool
same_name (some a) (some b) = str_eq a b
same_name _ _ = false

-- One of the forms of a denied path.
unfoldable pub matches_candidate : FilePath → String → FilePath → Bool
matches_candidate check_path deny candidate =
    has_prefix check_path candidate
    || same_path check_path candidate
    || (same_name (file_name candidate) (file_name check_path)
        && (not (contains deny "/") || same_path check_path candidate))

abbrev pub accepted_by : (FilePath → Bool) → Option FilePath → Bool
accepted_by p none = false
accepted_by p (some path) = p path

-- Whether the name of a file alone is denied.
unfoldable pub is_denied_name : List String → Option String → Bool
is_denied_name denies none = false
is_denied_name denies (some name) =
    any
      (λ deny.
        (not (contains deny "/") && str_eq name deny)
        || (starts_with deny ".env" && starts_with name ".env"))
      denies

module _ (f : Files) where
  unfoldable pub matches_denied_resolved : PathGuard → FilePath → Bool
  matches_denied_resolved g check_path =
      any
        (λ deny.
          let deny_path = components (expand_tilde f.home deny) in
          matches_candidate check_path deny (normalize_path deny_path)
          || accepted_by (matches_candidate check_path deny) (f.canonicalize deny_path))
        g.deny_paths

  -- `cwd.join(path)`, where a full stop at the start of `path` no longer counts.
  abbrev pub joined : Option FilePath → FilePath → FilePath
  joined none path = path
  joined (some cwd) (cur_dir ∷ path) = cwd ++ path
  joined (some cwd) path = cwd ++ path

  unfoldable pub absolute_of : FilePath → FilePath
  absolute_of path = if is_absolute path then path else joined f.current_dir path

  unfoldable pub is_denied : PathGuard → String → Bool
  is_denied g path_str =
      let path = components (expand_tilde f.home path_str) in
      let absolute_path = absolute_of path in
      let matches = matches_denied_resolved g in
      accepted_by matches (f.canonicalize path)
      || accepted_by matches (f.canonicalize absolute_path)
      || matches (normalize_path absolute_path)
      || matches (normalize_path path)
      || is_denied_name g.deny_paths (file_name path)
