-- ===== src/Recovery/EditCycle.antt =====
-- src/agent/error_recovery.rs: `MultiFileEditCycleDetector`. `file_name` is `Path::file_name` as a
-- text, and `keys_of` the order in which the hash map of counts is walked.
pub mod Firing
mod Examples
use bonsai_agent.Prelude.{
  ℕ, suc, ◌+◌, Bool, true, false, ◌&&◌, ◌||◌, String, ◌<>◌, Option, none, some, List, [], ◌∷◌, map,
  HashMap, insert, lookup, ltb, leb, length, all, join, push_capped, if◌then◌else◌,
}
use bonsai_agent.Recovery.StuckGuard.{or_zero}

pub record MultiFileEditCycleDetector : Type 0 where
  pub recent_paths : List String
  pub window : ℕ
  pub min_files : ℕ
  pub max_files : ℕ
  pub nudge_fire_count : ℕ

abbrev pub new : ℕ → MultiFileEditCycleDetector
new window = record {
  recent_paths = [];
  window = window;
  min_files = 2;
  max_files = 3;
  nudge_fire_count = 0;
}

abbrev pub default : MultiFileEditCycleDetector
default = new 6

-- `*counts.entry(p).or_default() += 1` over the window.
count_paths : HashMap ℕ → List String → HashMap ℕ
unfolding lookup insert
count_paths counts [] = counts
count_paths counts (p ∷ ps) = count_paths (insert p (or_zero (lookup p counts) + 1) counts) ps

-- Two or three files, each edited at least twice, in at least four edits.
unfoldable pub is_cycle : MultiFileEditCycleDetector → List String → Bool
unfolding count_paths
is_cycle d paths =
    let counts = count_paths [] paths in
    let unique = length counts in
    if ltb (length paths) 4
    then false
    else if ltb unique d.min_files || ltb d.max_files unique
    then false
    else all (λ entry. leb 2 entry.1) counts

module _ (file_name : String → String) (keys_of : HashMap ℕ → List String) where
  nudge_text : HashMap ℕ → String
  nudge_text counts =
      "[edit-cycle] ファイル "
      <> (join ", " (map file_name (keys_of counts))
          <> (" を交互に編集しています — 進捗が見られません。\n"
              <> ("ステップバック: 全ファイルを再読込 → 全体計画を立てる → 一括編集してください。\n"
                  <> "まだ衝突する場合は、より大きな構造変更が必要かもしれません。")))

  unfoldable pub record_and_check :
      MultiFileEditCycleDetector → String → MultiFileEditCycleDetector × Option String
  unfolding nudge_text count_paths
  record_and_check d path =
      let paths = push_capped d.window d.recent_paths path in
      if is_cycle d paths
      then (
        record d { recent_paths = []; nudge_fire_count = d.nudge_fire_count + 1 },
        some (nudge_text (count_paths [] paths)),
      )
      else (record d { recent_paths = paths }, none)

unfoldable pub reset : MultiFileEditCycleDetector → MultiFileEditCycleDetector
reset d = record d { recent_paths = [] }
