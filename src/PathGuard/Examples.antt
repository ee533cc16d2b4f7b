-- ===== src/PathGuard/Examples.antt =====
-- Paths and commands of a user whose home is /home/u, in /work, without links.
use bonsai_agent.Prelude.{true, ◌≡◌, refl, String, none, some, List, [], ◌∷◌}
use bonsai_agent.PathGuard.{
  root_dir, parent_dir, normal, Files, default_deny_list, components, split_chars, pop,
  normalize_onto, normalize_path, has_prefix, matches_candidate, matches_denied_resolved,
  absolute_of, is_denied_name, is_denied, expand_tilde,
}
use bonsai_agent.PathGuard.Ansic.{read_all, unescape_ansic}
use bonsai_agent.PathGuard.Inside.{arrive, leave, enter, is_denied-inside}
use bonsai_agent.PathGuard.Command.{
  scan_char, scan, extract_shell_tokens, trim_start_chars, trim_end_chars,
  extract_candidates_from_token, add_denied, denied_in_tokens, find_denied_paths_in_command,
}

unfoldable pub files : Files
files = record {
  canonicalize = λ path. none;
  current_dir = some (root_dir ∷ normal "work" ∷ []);
  home = some "/home/u";
}

-- Out of the current directory, into the denied one, and in and out of another.
is_denied-inside_example :
    is_denied files default_deny_list "../home/u/.aws/x/../credentials" ≡ true
unfolding files default_deny_list components split_chars pop normalize_onto normalize_path
    absolute_of expand_tilde
is_denied-inside_example =
    is_denied-inside files default_deny_list "../home/u/.aws/x/../credentials"
      ("~/.ssh" ∷ "~/.gnupg" ∷ []) "~/.aws"
      ("/etc/shadow" ∷ "/etc/passwd" ∷ ".env" ∷ ".env.local" ∷ ".env.production" ∷ "id_rsa"
        ∷ "id_ed25519" ∷ [])
      ("home" ∷ "u" ∷ ".aws" ∷ []) ("credentials" ∷ [])
      (normal "work"
        ∷ parent_dir
        ∷ normal "home"
        ∷ normal "u"
        ∷ normal ".aws"
        ∷ normal "x"
        ∷ parent_dir
        ∷ normal "credentials"
        ∷ [])
      ("credentials" ∷ ".aws" ∷ "u" ∷ "home" ∷ []) refl refl refl
      (enter (leave (enter (enter (enter (enter (leave (enter arrive)))))))) refl

denied_in : String → List String
unfolding files default_deny_list components split_chars pop normalize_onto normalize_path
    absolute_of expand_tilde has_prefix matches_candidate matches_denied_resolved is_denied_name
    is_denied scan_char scan extract_shell_tokens trim_start_chars trim_end_chars
    extract_candidates_from_token add_denied denied_in_tokens find_denied_paths_in_command
denied_in = find_denied_paths_in_command files default_deny_list

through_home : denied_in "cat '~/.aws/credentials' > x" ≡ "~/.aws/credentials" ∷ []
unfolding denied_in
through_home = refl

-- The variable of the shell for the home is not replaced.
through_variable : denied_in "cat $HOME/.aws/credentials" ≡ []
unfolding denied_in
through_variable = refl

-- Neither is a directory that the command itself goes to.
through_cd : denied_in "cd ~ && cat .aws/credentials" ≡ []
unfolding denied_in
through_cd = refl

unescaped : unescape_ansic "\\x2fetc\\057sha\\144ow\\q\\" ≡ some "/etc/shadowq\\"
unfolding unescape_ansic read_all
unescaped = refl

no_digits : unescape_ansic "a\\xg\\777\\x414" ≡ some "agA4"
unfolding unescape_ansic read_all
no_digits = refl

-- The escapes do not hide a path.
through_escapes : denied_in "cat $'\\x2fetc\\057passwd'" ≡ "/etc/passwd" ∷ []
unfolding denied_in unescape_ansic read_all
through_escapes = refl
