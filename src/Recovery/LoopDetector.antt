-- ===== src/Recovery/LoopDetector.antt =====
-- src/agent/error_recovery.rs: `LoopDetector`. serde_json and the hasher of the standard library
-- are parameters: `json_keys` gives the top-level keys of a text that is a JSON object, and `hash`
-- the `DefaultHasher` value of a text.
pub mod History
pub mod Repeats
mod Examples
use Prim.Native.Char.{code}
use Prim.Native.Nat.{Ordering}
use Prim.Native.String.{compare}
use bonsai_agent.Prelude.{
  ℕ, suc, ◌+◌, ◌-◌, Bool, true, false, ◌&&◌, ◌||◌, not, String, ◌<>◌, Option, none, some, List, [],
  ◌∷◌, str_eq, ltb, leb, ◌==◌, length, all, take_last, join, push_capped, if◌then◌else◌,
}

pub record LoopDetector : Type 0 where
  pub recent_actions : List String
  pub recent_hashes : List ℕ
  pub action_frequency : ℕ → ℕ
  pub max_history : ℕ
  pub repeat_threshold : ℕ
  pub frequency_threshold : ℕ

abbrev pub new : ℕ → ℕ → LoopDetector
new max_history repeat_threshold = record {
  recent_actions = [];
  recent_hashes = [];
  action_frequency = λ _. 0;
  max_history = max_history;
  repeat_threshold = repeat_threshold;
  frequency_threshold = 30;
}

abbrev pub default : LoopDetector
default = new 10 3

unfoldable pub with_frequency_threshold : LoopDetector → ℕ → LoopDetector
with_frequency_threshold d threshold = record d { frequency_threshold = threshold }

-- `action.split_once(':')`.
prepend : String → Option (String × String) → Option (String × String)
prepend c none = none
prepend c (some (a, b)) = some (c <> a, b)

split_colon : String → Option (String × String)
unfolding prepend
split_colon String.[] = none
split_colon (String.◌∷◌ c s) =
    let rest = prepend (String.◌∷◌ c String.[]) (split_colon s) in
    if code c == b':' then some ("", s) else rest

-- `keys.sort()`.
insert_sorted : String → List String → List String
insert_sorted k [] = k ∷ []
insert_sorted k (j ∷ js) = elim (compare k j) [
  | Ordering.gt ↦ j ∷ insert_sorted k js
  | _ ↦ k ∷ j ∷ js
]

sort_keys : List String → List String
unfolding insert_sorted
sort_keys [] = []
sort_keys (k ∷ ks) = insert_sorted k (sort_keys ks)

-- `last_n.iter().all(|a| a == &last_n[0])`, which holds of an empty slice.
abbrev pub all_same_texts : List String → Bool
all_same_texts [] = true
all_same_texts (x ∷ xs) = all (λ a. str_eq a x) xs

abbrev pub all_same_hashes : List ℕ → Bool
all_same_hashes [] = true
all_same_hashes (x ∷ xs) = all (λ a. a == x) xs

-- `[a, b, a, b]` with two different hashes.
abbrev pub is_alternating : List ℕ → Bool
is_alternating (a ∷ b ∷ c ∷ d ∷ []) = a == c && (b == d && not (a == b))
is_alternating _ = false

-- The hashes are `[.., a, b, a, b]`.
unfoldable pub detect_cycle : List ℕ → Bool
detect_cycle hashes = if ltb (length hashes) 4 then false else is_alternating (take_last 4 hashes)

-- The four tests on the histories after a push, in the order of their early returns.
pub is_loop : ℕ → ℕ → List String → List ℕ → ℕ → Bool
is_loop repeat_threshold frequency_threshold actions hashes freq_count =
    if leb repeat_threshold (length actions) && all_same_texts (take_last repeat_threshold actions)
    then true
    else if leb repeat_threshold (length hashes)
        && all_same_hashes (take_last repeat_threshold hashes)
    then true
    else if detect_cycle hashes
    then true
    else if leb frequency_threshold freq_count
    then true
    else false

module _ (json_keys : String → Option (List String)) (hash : String → ℕ) where
  with_keys : String → Option (List String) → String
  unfolding sort_keys
  with_keys tool none = tool
  with_keys tool (some keys) = tool <> ":" <> join "," (sort_keys keys)

  normalized : String → Option (String × String) → String
  unfolding with_keys
  normalized action none = action
  normalized action (some (tool, args)) = with_keys tool (json_keys args)

  unfoldable pub salient_hash : String → ℕ
  unfolding normalized split_colon
  salient_hash action = hash (normalized action (split_colon action))

  unfoldable pub record_and_check : LoopDetector → String → LoopDetector × Bool
  unfolding is_loop
  record_and_check d action =
      let h = salient_hash action in
      let actions = push_capped d.max_history d.recent_actions action in
      let hashes = push_capped d.max_history d.recent_hashes h in
      let freq_count = d.action_frequency h + 1 in
      (
        record d {
          recent_actions = actions;
          recent_hashes = hashes;
          action_frequency = λ k. if k == h then freq_count else d.action_frequency k;
        },
        is_loop d.repeat_threshold d.frequency_threshold actions hashes freq_count,
      )

unfoldable pub reset : LoopDetector → LoopDetector
reset d = record d { recent_actions = []; recent_hashes = []; action_frequency = λ _. 0 }
