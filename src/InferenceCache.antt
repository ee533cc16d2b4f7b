-- ===== src/InferenceCache.antt =====
-- src/runtime/cache.rs: InferenceCache and CachedBackend. `finish` is the hasher of the standard
-- library on what is written to it, `hex` its number as a text, and `iteration_order` the order in
-- which the hash map is walked. A float is its bits. The lock is never poisoned: nothing panics
-- under it.
pub mod Answers
pub mod Repeated
pub mod Size
mod Examples
use bonsai_agent.Prelude.{
  ℕ, ◌+◌, ◌*◌, ◌%◌, Bool, true, false, ◌&&◌, ◌||◌, not, String, Option, none, some, List, [], ◌∷◌,
  ◌++◌, ◌⊎◌, inl, inr, length, ltb, leb, is_some, ◌==◌, if◌then◌else◌,
}
use bonsai_agent.Conversation.{Role, system, user, assistant, tool, Message}

pub record CacheEntry : Type 0 where
  pub response : String
  pub access_count : ℕ

abbrev pub Entries : Type 0
Entries = List (ℕ × CacheEntry)

pub record InferenceCache : Type 0 where
  pub cache : Entries
  pub max_entries : ℕ

-- `HashMap::get`, `insert` and `remove` on the entries.
unfoldable pub find : ℕ → Entries → Option CacheEntry
find key [] = none
find key ((k, e) ∷ es) = let later = find key es in if k == key then some e else later

unfoldable pub set : ℕ → CacheEntry → Entries → Entries
set key new [] = (key, new) ∷ []
set key new ((k, e) ∷ es) =
    let later = set key new es in if k == key then (key, new) ∷ es else (k, e) ∷ later

unfoldable pub delete : ℕ → Entries → Entries
delete key [] = []
delete key ((k, e) ∷ es) = let later = delete key es in if k == key then es else (k, e) ∷ later

abbrev pub new : ℕ → InferenceCache
new max_entries = record { cache = []; max_entries = max_entries }

-- The count is a `u32`.
abbrev pub touched : ℕ → InferenceCache → Option CacheEntry → Option String × InferenceCache
touched key c none = (none, c)
touched key c (some e) = (
  some e.response,
  record c {
    cache = set key (record e { access_count = (e.access_count + 1) % 4294967296 }) c.cache;
  },
)

unfoldable pub get : ℕ → InferenceCache → Option String × InferenceCache
get key c = touched key c (find key c.cache)

-- `min_by_key` by the count: the first of the least.
unfoldable pub least_used : ℕ × CacheEntry → Entries → ℕ × CacheEntry
least_used best [] = best
least_used best (e ∷ es) =
    least_used (if ltb (e.1).access_count (best.1).access_count then e else best) es

abbrev pub without_least : Entries → Entries → Entries
without_least [] es = es
without_least (first ∷ others) es = delete (least_used first others).0 es

module _ (iteration_order : Entries → Entries) where
  unfoldable pub evict_least_used : InferenceCache → InferenceCache
  evict_least_used c = record c { cache = without_least (iteration_order c.cache) c.cache }

  unfoldable pub put : ℕ → String → InferenceCache → InferenceCache
  put key response c =
      let full = leb c.max_entries (length c.cache) && not (is_some (find key c.cache)) in
      let c' = if full then evict_least_used c else c in
      record c' { cache = set key (record { response = response; access_count = 0 }) c'.cache }

unfoldable pub clear : InferenceCache → InferenceCache
clear c = record c { cache = [] }

-- What is written to a hasher.
pub data Piece : Type 0 where
  text : String → Piece
  bits : ℕ → Piece

pub record ToolSchema (V : Type 0) : Type 0 where
  pub name : String
  pub description : String
  pub parameters : V

-- A float is its bits.
pub record InferenceParams : Type 0 where
  pub temperature : ℕ
  pub top_p : ℕ
  pub top_k : ℕ
  pub min_p : ℕ
  pub max_tokens : ℕ
  pub repeat_penalty : ℕ

pub record TokenUsage : Type 0 where
  pub prompt_tokens : ℕ
  pub completion_tokens : ℕ
  pub duration : ℕ

pub record GenerateResult : Type 0 where
  pub text : String
  pub usage : TokenUsage
  pub model_id : String

-- The `Debug` text of a role.
abbrev pub debug_role : Role → String
debug_role system = "System"
debug_role user = "User"
debug_role assistant = "Assistant"
debug_role tool = "Tool"

abbrev pub message_pieces : List Message → List Piece
message_pieces [] = []
message_pieces (m ∷ ms) = text (debug_role m.role) ∷ text m.content ∷ message_pieces ms

abbrev pub tool_pieces : {V : Type 0} → List (ToolSchema V) → List Piece
tool_pieces [] = []
tool_pieces (t ∷ ts) = text t.name ∷ tool_pieces ts

module _ (finish : List Piece → ℕ) (hex : ℕ → String) where
  unfoldable pub compute_key : String → String → ℕ
  compute_key model_id prompt_hash = finish (text model_id ∷ text prompt_hash ∷ [])

  unfoldable pub compute_prompt_hash : {V : Type 0} → List Message → List (ToolSchema V) → String
  compute_prompt_hash messages tools = hex (finish (message_pieces messages ++ tool_pieces tools))

  unfoldable pub compute_prompt_hash_with_params :
      {V : Type 0} → List Message → List (ToolSchema V) → InferenceParams → String
  compute_prompt_hash_with_params messages tools params = hex (
      finish (
        text (compute_prompt_hash messages tools)
        ∷ bits params.temperature
        ∷ bits params.top_p
        ∷ bits params.top_k
        ∷ bits params.min_p
        ∷ bits params.max_tokens
        ∷ bits params.repeat_penalty
        ∷ []))

-- A result or an error, and the tokens that were passed on.
abbrev pub Reply : Type 0
Reply = (GenerateResult ⊎ String) × List String

-- The backend within, over a world that it may change.
pub record LlmBackend (V W : Type 0) : Type 0 where
  pub model_id : String
  pub generate : List Message → List (ToolSchema V) → W → Reply × W
  pub generate_with_params : List Message → List (ToolSchema V) → InferenceParams → W → Reply × W

-- What the code around the hash map uses.
pub record Hashing : Type 0 where
  pub finish : List Piece → ℕ
  pub hex : ℕ → String
  pub iteration_order : Entries → Entries

module _ {V W : Type 0} (h : Hashing) (inner : LlmBackend V W) where
  abbrev pub stored : ℕ → InferenceCache → Reply × W → Reply × InferenceCache × W
  stored key c ((inl r, tokens), w) = ((inl r, tokens), put h.iteration_order key r.text c, w)
  stored key c ((inr e, tokens), w) = ((inr e, tokens), c, w)

  abbrev pub cached_result : String → GenerateResult
  cached_result cached = record {
    text = cached;
    usage = record { prompt_tokens = 0; completion_tokens = 0; duration = 0 };
    model_id = inner.model_id;
  }

  abbrev pub answered :
      ℕ → (W → Reply × W) → Option String × InferenceCache → W → Reply × InferenceCache × W
  answered key ask (some cached, c) w = ((inl (cached_result cached), cached ∷ []), c, w)
  answered key ask (none, c) w = stored key c (ask w)

  -- The body that the two methods share.
  unfoldable pub answer : ℕ → (W → Reply × W) → InferenceCache → W → Reply × InferenceCache × W
  answer key ask c w = answered key ask (get key c) w

  unfoldable pub generate :
      List Message → List (ToolSchema V) → InferenceCache → W → Reply × InferenceCache × W
  generate messages tools =
      let prompt_hash = compute_prompt_hash h.finish h.hex messages tools in
      answer (compute_key h.finish h.hex inner.model_id prompt_hash) (inner.generate messages tools)

  unfoldable pub generate_with_params :
      List Message
      → List (ToolSchema V)
      → InferenceParams
      → InferenceCache
      → W
      → Reply × InferenceCache × W
  generate_with_params messages tools params =
      let prompt_hash = compute_prompt_hash_with_params h.finish h.hex messages tools params in
      answer (compute_key h.finish h.hex inner.model_id prompt_hash)
        (inner.generate_with_params messages tools params)
