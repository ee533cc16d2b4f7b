-- ===== src/Spill.antt =====
-- src/agent/tool_spill.rs: the store of the outputs that are spilled to files, over a directory that
-- is the list of its files. A file that cannot be written is taken to leave the directory as it was,
-- what a reading lists and which files can be removed are parameters, and the name of a file, which
-- is made of a hash, is an argument. Log lines are left out.
pub mod Limits
mod Examples
use bonsai_agent.Prelude.{
  ℕ, suc, ◌+◌, ◌%◌, Bool, true, false, ◌&&◌, not, String, Option, none, some, List, [], ◌∷◌, str_eq,
  ltb, leb, length, any, if◌then◌else◌,
}

pub record SpillEntry : Type 0 where
  pub path : String
  pub modified : ℕ
  pub size : ℕ

pub record SpillStore : Type 0 where
  pub enabled : Bool
  pub max_files : ℕ
  pub max_total_bytes : ℕ

abbrev pub max_u64 : ℕ
max_u64 = 18446744073709551615

unfoldable pub saturating_add : ℕ → ℕ → ℕ
saturating_add a b = if ltb max_u64 (a + b) then max_u64 else a + b

-- `Some(path) == Some(e.path)`.
abbrev pub is_kept : Option String → SpillEntry → Bool
is_kept none e = false
is_kept (some p) e = str_eq p e.path

abbrev pub kept : Option String → List SpillEntry → List SpillEntry
kept keep [] = []
kept keep (e ∷ es) = let rest = kept keep es in if is_kept keep e then e ∷ rest else rest

abbrev pub others : Option String → List SpillEntry → List SpillEntry
others keep [] = []
others keep (e ∷ es) = let rest = others keep es in if is_kept keep e then rest else e ∷ rest

-- `sort_by_key` of `Reverse(modified)`: the newest first, and a stable sort.
unfoldable pub insert_entry : SpillEntry → List SpillEntry → List SpillEntry
insert_entry e [] = e ∷ []
insert_entry e (x ∷ xs) =
    let rest = insert_entry e xs in if leb x.modified e.modified then e ∷ x ∷ xs else x ∷ rest

unfoldable pub sort_entries : List SpillEntry → List SpillEntry
sort_entries [] = []
sort_entries (e ∷ es) = insert_entry e (sort_entries es)

abbrev pub bytes : List SpillEntry → ℕ
bytes [] = 0
bytes (e ∷ es) = e.size + bytes es

-- The loop over the candidates.
unfoldable pub evict_from : ℕ → ℕ → ℕ → ℕ → List SpillEntry → List String
evict_from max_files max_total_bytes count total_bytes [] = []
evict_from max_files max_total_bytes count total_bytes (e ∷ es) =
    let fits = ltb count max_files && leb (saturating_add total_bytes e.size) max_total_bytes in
    let count' = if fits then count + 1 else count in
    let total' = if fits then (total_bytes + e.size) % (max_u64 + 1) else total_bytes in
    let rest = evict_from max_files max_total_bytes count' total' es in
    if fits then rest else e.path ∷ rest

abbrev pub keep_count : Option String → ℕ
keep_count none = 0
keep_count (some p) = 1

unfoldable pub select_evictions : List SpillEntry → ℕ → ℕ → Option String → List String
select_evictions entries max_files max_total_bytes keep =
    evict_from max_files max_total_bytes (keep_count keep)
      (bytes (kept keep entries) % (max_u64 + 1)) (sort_entries (others keep entries))

-- What the file system answers: whether `read_dir` succeeds, whether it lists a file with its
-- metadata, and whether `remove_file` removes a path.
pub record Directory : Type 0 where
  pub is_readable : Bool
  pub lists : SpillEntry → Bool
  pub removes : String → Bool

abbrev pub listed : Directory → List SpillEntry → List SpillEntry
listed d [] = []
listed d (e ∷ es) = let rest = listed d es in if d.lists e then e ∷ rest else rest

-- A file that cannot be removed stays.
abbrev pub remove_files : Directory → List String → List SpillEntry → List SpillEntry
remove_files d paths [] = []
remove_files d paths (e ∷ es) =
    let rest = remove_files d paths es in
    if any (str_eq e.path) paths && d.removes e.path then rest else e ∷ rest

-- The directory and the number of files that were to be removed.
unfoldable pub enforce_limits :
    Directory → SpillStore → Option String → List SpillEntry → List SpillEntry × ℕ
enforce_limits d s keep entries =
    let to_remove = select_evictions (listed d entries) s.max_files s.max_total_bytes keep in
    if d.is_readable then (remove_files d to_remove entries, length to_remove) else (entries, 0)

-- At the time `now`, and with the answers of `ensure_dir` and of `write_file`.
unfoldable pub write :
    Directory
    → SpillStore
    → Bool
    → Bool
    → ℕ
    → String
    → ℕ
    → List SpillEntry
    → Option String × List SpillEntry
write d s ready written now path size entries =
    let entry : SpillEntry = record { path = path; modified = now; size = size } in
    if not s.enabled
    then (none, entries)
    else if not ready
    then (none, entries)
    else if not written
    then (none, entries)
    else (some path, (enforce_limits d s (some path) (entry ∷ others (some path) entries)).0)
