-- ===== src/InferenceCache/Answers.antt =====
-- src/runtime/cache.rs: what the answers of CachedBackend are.
use mathlib.Core.Path.{subst}
use bonsai_agent.Prelude.{
  ℕ, not, ◌&&◌, ◌≡◌, refl, String, Option, none, some, List, [], ◌∷◌, inl, inr, arith, length, leb,
  is_some, Bool-cases, ◌==◌,
}
use bonsai_agent.Conversation.{Message}
use bonsai_agent.InferenceCache.{
  CacheEntry, Entries, InferenceCache, find, set, delete, touched, get, least_used, without_least,
  evict_least_used, put, ToolSchema, InferenceParams, compute_key, compute_prompt_hash,
  compute_prompt_hash_with_params, Reply, LlmBackend, Hashing, stored, answered, answer, generate,
  generate_with_params,
}

pub data Request (V : Type 0) : Type 0 where
  plain : List Message → List (ToolSchema V) → Request V
  tuned : List Message → List (ToolSchema V) → InferenceParams → Request V

module _ {V W : Type 0} (h : Hashing) (inner : LlmBackend V W) where
  unfoldable pub serve : Request V → InferenceCache → W → Reply × InferenceCache × W
  serve (plain messages tools) = generate h inner messages tools
  serve (tuned messages tools params) = generate_with_params h inner messages tools params

  -- What the backend within answers to a request, and the key of a request.
  abbrev pub ask : Request V → W → Reply × W
  ask (plain messages tools) = inner.generate messages tools
  ask (tuned messages tools params) = inner.generate_with_params messages tools params

  abbrev pub prompt_hash : Request V → String
  prompt_hash (plain messages tools) = compute_prompt_hash h.finish h.hex messages tools
  prompt_hash (tuned messages tools params) =
      compute_prompt_hash_with_params h.finish h.hex messages tools params

  abbrev pub key_of : Request V → ℕ
  key_of q = compute_key h.finish h.hex inner.model_id (prompt_hash q)

  -- The replies to requests, one after the other, each with its key.
  unfoldable pub serve_all : List (Request V) → InferenceCache → W → List (ℕ × Reply)
  serve_all [] c w = []
  serve_all (q ∷ qs) c w =
      let (reply, c', w') = serve q c w in (key_of q, reply) ∷ serve_all qs c' w'

  -- The cache after requests, one after the other.
  unfoldable pub cache_after : List (Request V) → InferenceCache → W → InferenceCache
  cache_after [] c w = c
  cache_after (q ∷ qs) c w = let (reply, c', w') = serve q c w in cache_after qs c' w'

  pub serve-answer :
      (q : Request V) (c : InferenceCache) (w : W)
      → serve q c w ≡ answer h inner (key_of q) (ask q) c w
  unfolding serve generate generate_with_params
  serve-answer (plain messages tools) c w = refl
  serve-answer (tuned messages tools params) c w = refl

module _ (P : ℕ → String → Type 0) where
  abbrev pub ReplyHolds : ℕ → Reply → Type 0
  ReplyHolds key (inl r, tokens) = P key r.text
  ReplyHolds key (inr e, tokens) = Unit

  abbrev pub RepliesHold : List (ℕ × Reply) → Type 0
  RepliesHold [] = Unit
  RepliesHold ((key, reply) ∷ replies) = ReplyHolds key reply × RepliesHold replies

  abbrev pub EntriesHold : Entries → Type 0
  EntriesHold [] = Unit
  EntriesHold ((key, e) ∷ es) = P key e.response × EntriesHold es

  abbrev FoundHolds : ℕ → Option CacheEntry → Type 0
  FoundHolds key none = Unit
  FoundHolds key (some e) = P key e.response

  find-Holds : (key : ℕ) (es : Entries) → EntriesHold es → FoundHolds key (find key es)
  unfolding find
  find-Holds key [] all = tt
  find-Holds key ((k, e) ∷ es) (holds, all) = elim (Bool-cases (k == key)) [
    | inl same ↦
        let same' : k ≡ key = ground arith in rw same (subst (λ n. P n e.response) same' holds)
    | inr other ↦ rw other (find-Holds key es all)
  ]

  set-Holds :
      (key : ℕ) (new : CacheEntry) (es : Entries)
      → P key new.response
      → EntriesHold es
      → EntriesHold (set key new es)
  unfolding set
  set-Holds key new [] p all = (p, tt)
  set-Holds key new ((k, e) ∷ es) p (holds, all) = elim (Bool-cases (k == key)) [
    | inl same ↦ rw same (p, all)
    | inr other ↦ rw other (holds, set-Holds key new es p all)
  ]

  delete-Holds : (key : ℕ) (es : Entries) → EntriesHold es → EntriesHold (delete key es)
  unfolding delete
  delete-Holds key [] all = tt
  delete-Holds key ((k, e) ∷ es) (holds, all) = elim (Bool-cases (k == key)) [
    | inl same ↦ rw same all
    | inr other ↦ rw other (holds, delete-Holds key es all)
  ]

  without_least-Holds :
      (walked es : Entries) → EntriesHold es → EntriesHold (without_least walked es)
  without_least-Holds [] es all = all
  without_least-Holds (first ∷ others) es all = delete-Holds (least_used first others).0 es all

  put-Holds :
      (order : Entries → Entries) (key : ℕ) (response : String) (c : InferenceCache)
      → P key response
      → EntriesHold c.cache
      → EntriesHold (put order key response c).cache
  unfolding put evict_least_used
  put-Holds order key response c p all =
      let new : CacheEntry = record { response = response; access_count = 0 } in
      let full = leb c.max_entries (length c.cache) && not (is_some (find key c.cache)) in
      elim (Bool-cases full) [
        | inl h ↦ rw h (
            set-Holds key new (without_least (order c.cache) c.cache) p
              (without_least-Holds (order c.cache) c.cache all))
        | inr h ↦ rw h (set-Holds key new c.cache p all)
      ]

  module _ {V W : Type 0} (h : Hashing) (inner : LlmBackend V W) where
    abbrev Kept : ℕ → Reply × InferenceCache × W → Type 0
    Kept key (reply, c, w) = ReplyHolds key reply × EntriesHold c.cache

    stored-Kept :
        (key : ℕ) (c : InferenceCache) (x : Reply × W)
        → EntriesHold c.cache
        → ReplyHolds key x.0
        → Kept key (stored h inner key c x)
    stored-Kept key c ((inl r, tokens), w) all p =
        (p, put-Holds h.iteration_order key r.text c p all)
    stored-Kept key c ((inr e, tokens), w) all p = (tt, all)

    answered-Kept :
        (key : ℕ) (asked : W → Reply × W) (c : InferenceCache) (found : Option CacheEntry) (w : W)
        → EntriesHold c.cache
        → FoundHolds key found
        → ReplyHolds key (asked w).0
        → Kept key (answered h inner key asked (touched key c found) w)
    answered-Kept key asked c none w all p q = stored-Kept key c (asked w) all q
    answered-Kept key asked c (some e) w all p q = (p, set-Holds key _ c.cache p all)

    serve-Kept :
        (q : Request V) (c : InferenceCache) (w : W)
        → EntriesHold c.cache
        → ReplyHolds (key_of h inner q) (ask h inner q w).0
        → Kept (key_of h inner q) (serve h inner q c w)
    unfolding answer get
    serve-Kept q c w all p =
        let key = key_of h inner q in
        rw (serve-answer h inner q c w) (
          answered-Kept key (ask h inner q) c (find key c.cache) w all (find-Holds key c.cache all)
            p)

    -- Whatever holds of the key of a request and of every text that the backend within answers to
    -- it, holds of the replies of the cache to any requests, when it holds of the entries of the
    -- cache before them: no reply is the text of another key.
    pub serve_all-Hold :
        (qs : List (Request V)) (c : InferenceCache) (w : W)
        → ((q : Request V) (v : W) → ReplyHolds (key_of h inner q) (ask h inner q v).0)
        → EntriesHold c.cache
        → RepliesHold (serve_all h inner qs c w)
    unfolding serve_all
    serve_all-Hold [] c w holds all = tt
    serve_all-Hold (q ∷ qs) c w holds all =
        let (p, all') = serve-Kept q c w all (holds q w) in (p, serve_all-Hold qs _ _ holds all')
