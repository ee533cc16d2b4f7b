-- ===== src/PathGuard/Inside.antt =====
-- src/safety/path_guard.rs: what lies in a denied directory is denied, whatever way leads there.
use bonsai_agent.Prelude.{
  Bool, true, ◌≡◌, refl, ap, ◌∙◌, String, List, [], ◌∷◌, ◌++◌, map, eq_refl, any, or-true_left,
  or-true_right,
}
use bonsai_agent.PathGuard.{
  Component, root_dir, cur_dir, parent_dir, normal, FilePath, components, pop, normalize_onto,
  reversed_onto, normalize_path, has_prefix, matches_candidate, matches_denied_resolved, Files,
  PathGuard, expand_tilde, absolute_of, is_denied, accepted_by,
}

-- A way through directories without links, from the one directory to the other. A directory is its
-- names, from the last to the first.
pub data Walk : List String → FilePath → List String → Type 0 where
  arrive : {at : List String} → Walk at [] at
  restart : {at goal : List String} {cs : FilePath} → Walk [] cs goal → Walk at (root_dir ∷ cs) goal
  stay : {at goal : List String} {cs : FilePath} → Walk at cs goal → Walk at (cur_dir ∷ cs) goal
  leave :
      {at goal : List String} {c : String} {cs : FilePath}
      → Walk at cs goal
      → Walk (c ∷ at) (parent_dir ∷ cs) goal
  leave_root :
      {goal : List String} {cs : FilePath} → Walk [] cs goal → Walk [] (parent_dir ∷ cs) goal
  enter :
      {at goal : List String} {c : String} {cs : FilePath}
      → Walk (c ∷ at) cs goal
      → Walk at (normal c ∷ cs) goal

-- The components of a directory, from the last to the root.
abbrev below_root : List String → List Component
below_root [] = root_dir ∷ []
below_root (c ∷ at) = normal c ∷ below_root at

normalize_onto-Walk :
    {at goal : List String} {cs : FilePath}
    → Walk at cs goal
    → normalize_onto (below_root at) cs ≡ below_root goal
unfolding normalize_onto pop
normalize_onto-Walk arrive = refl
normalize_onto-Walk (restart w) = normalize_onto-Walk w
normalize_onto-Walk (stay w) = normalize_onto-Walk w
normalize_onto-Walk (leave w) = normalize_onto-Walk w
normalize_onto-Walk (leave_root w) = normalize_onto-Walk w
normalize_onto-Walk (enter w) = normalize_onto-Walk w

-- The components of a directory, from the root.
abbrev pub from_root : List String → FilePath
from_root names = root_dir ∷ map normal names

reversed-below_root :
    (at : List String) (names : List String)
    → reversed_onto (below_root at) (map normal names) ≡ from_root (reversed_onto at names)
reversed-below_root [] names = refl
reversed-below_root (c ∷ at) names = reversed-below_root at (c ∷ names)

normalize_path-Walk :
    {goal : List String} (cs : FilePath)
    → Walk [] cs goal
    → normalize_path (root_dir ∷ cs) ≡ from_root (reversed_onto goal [])
unfolding normalize_path normalize_onto
normalize_path-Walk {goal} cs w =
    ap (λ done. reversed_onto done []) (normalize_onto-Walk w) ∙ reversed-below_root goal []

has_prefix-normal :
    (ds more : List String) → has_prefix (map normal (ds ++ more)) (map normal ds) ≡ true
unfolding has_prefix
has_prefix-normal [] more = refl
has_prefix-normal (d ∷ ds) more = rw (eq_refl d) (has_prefix-normal ds more)

any-at :
    (p : String → Bool) (before : List String) (d : String) (after : List String)
    → p d ≡ true
    → any p (before ++ d ∷ after) ≡ true
any-at p [] d after h = or-true_left (p d) (any p after) h
any-at p (b ∷ before) d after h =
    or-true_right (p b) (any p (before ++ d ∷ after)) (any-at p before d after h)

matches-inside :
    (f : Files) (g : PathGuard) (before : List String) (d : String) (after ds more : List String)
    → g.deny_paths ≡ before ++ d ∷ after
    → normalize_path (components (expand_tilde f.home d)) ≡ from_root ds
    → matches_denied_resolved f g (from_root (ds ++ more)) ≡ true
unfolding matches_denied_resolved matches_candidate has_prefix
matches-inside f g before d after ds more among denied =
    let path = from_root (ds ++ more) in
    let deny_path = components (expand_tilde f.home d) in
    let prefix : has_prefix path (normalize_path deny_path) ≡ true =
      rw denied (has_prefix-normal ds more) in
    rw among (
      any-at _ before d after (
        or-true_left (matches_candidate path d (normalize_path deny_path))
          (accepted_by (matches_candidate path d) (f.canonicalize deny_path))
          (or-true_left _ _ (or-true_left _ _ prefix))))

-- Where a denied path is a directory and a path leads, from the root or from the current directory,
-- into it or to something below it, whatever directories it enters and leaves on the way, the path
-- is denied. The way is one without links.
pub is_denied-inside :
    (f : Files) (g : PathGuard) (path_str : String) (before : List String) (d : String)
    (after ds more : List String) (cs : FilePath) (goal : List String)
    → g.deny_paths ≡ before ++ d ∷ after
    → normalize_path (components (expand_tilde f.home d)) ≡ from_root ds
    → absolute_of f (components (expand_tilde f.home path_str)) ≡ root_dir ∷ cs
    → Walk [] cs goal
    → reversed_onto goal [] ≡ ds ++ more
    → is_denied f g path_str ≡ true
unfolding is_denied
is_denied-inside f g path_str before d after ds more cs goal among denied absolute walk below =
    let matched : matches_denied_resolved f g (normalize_path (root_dir ∷ cs)) ≡ true =
      rw (normalize_path-Walk cs walk, below)
        (matches-inside f g before d after ds more among denied) in
    rw absolute (or-true_left _ _ (or-true_left _ _ (or-true_right _ _ matched)))
