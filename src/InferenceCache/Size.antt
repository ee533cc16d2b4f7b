-- ===== src/InferenceCache/Size.antt =====
-- src/runtime/cache.rs: how many entries the cache has.
use bonsai_agent.Prelude.{
  ℕ, suc, ◌+◌, ◌-◌, ◌%◌, ◌≤◌, max, Bool, true, false, not, ◌&&◌, ◌≡◌, String, refl, sym, ◌∙◌,
  Option, none, some, List, [], ◌∷◌, inl, inr, arith, length, leb, is_some, Bool-cases, ==_refl,
  if◌then◌else◌,
}
use bonsai_agent.InferenceCache.{
  CacheEntry, Entries, InferenceCache, find, set, delete, touched, get, least_used, without_least,
  evict_least_used, put, Reply, LlmBackend, Hashing, stored, answered, answer,
}
use bonsai_agent.InferenceCache.Answers.{Request, serve, ask, key_of, cache_after, serve-answer}

abbrev pub has : ℕ → Entries → Bool
has key es = is_some (find key es)

length-set :
    (key : ℕ) (e : CacheEntry) (es : Entries)
    → length (set key e es) ≡ (if has key es then length es else suc (length es))
unfolding set find
length-set key e [] = refl
length-set key e ((k, old) ∷ es) = ground (arith, length-set key e es)

length-delete :
    (key : ℕ) (es : Entries) → has key es ≡ true → length (delete key es) + 1 ≡ length es
unfolding delete find
length-delete key [] h = cc
length-delete key ((k, old) ∷ es) h = ground (arith, length-delete key es)

least_used-has :
    (best : ℕ × CacheEntry) (es : Entries) → has (least_used best es).0 (best ∷ es) ≡ true
unfolding least_used find
least_used-has (k, e) [] = ground (arith, ==_refl k)
least_used-has (k, e) ((k', e') ∷ es) =
    ground (arith, least_used-has (k, e) es, least_used-has (k', e') es)

-- An order in which the map is walked visits the keys that it has, and no others.
abbrev pub Visits : (Entries → Entries) → Type 0
Visits order = (es : Entries) (key : ℕ) → has key (order es) ≡ has key es

length-without_least :
    (walked es : Entries)
    → ((key : ℕ) → has key walked ≡ has key es)
    → length (without_least walked es) ≤ length es - 1
unfolding find delete
length-without_least [] [] same = omega arith
length-without_least (first ∷ others) [] same = omega arith
length-without_least [] ((k, e) ∷ es) same = absurd (ground (arith, same k, ==_refl k))
length-without_least (first ∷ others) (e ∷ es) same =
    let key = (least_used first others).0 in
    let found : has key (e ∷ es) ≡ true = sym (same key) ∙ least_used-has first others in
    omega (arith, length-delete key (e ∷ es) found)

abbrev pub Within : InferenceCache → Type 0
Within c = length c.cache ≤ max 1 c.max_entries

set-Within :
    (key : ℕ) (new : CacheEntry) (c : InferenceCache)
    → Within c
    → (leb c.max_entries (length c.cache) && not (has key c.cache)) ≡ false
    → length (set key new c.cache) ≤ max 1 c.max_entries
set-Within key new c within h = ground (arith, length-set key new c.cache)

set_after :
    (key : ℕ) (new : CacheEntry) (c : InferenceCache) (kept : Entries)
    → Within c
    → length kept ≤ length c.cache - 1
    → length (set key new kept) ≤ max 1 c.max_entries
set_after key new c kept within shorter = ground (arith, length-set key new kept)

module _ (order : Entries → Entries) (visits : Visits order) where
  put-Within :
      (key : ℕ) (response : String) (c : InferenceCache)
      → Within c
      → Within (put order key response c)
  unfolding put evict_least_used
  put-Within key response c within =
      let new : CacheEntry = record { response = response; access_count = 0 } in
      let full = leb c.max_entries (length c.cache) && not (has key c.cache) in
      let kept = without_least (order c.cache) c.cache in
      elim (Bool-cases full) [
        | inl h ↦ rw h (
            set_after key new c kept within
              (length-without_least (order c.cache) c.cache (visits c.cache)))
        | inr h ↦ rw h (set-Within key new c within h)
      ]

  touched-Within :
      (key : ℕ) (c : InferenceCache) (found : Option CacheEntry)
      → find key c.cache ≡ found
      → Within c
      → Within (touched key c found).1
  touched-Within key c none eq within = within
  touched-Within key c (some e) eq within = ground (
    arith,
    length-set key (record e { access_count = (e.access_count + 1) % 4294967296 }) c.cache,
  )

module _ {V W : Type 0} (h : Hashing) (visits : Visits h.iteration_order)
    (inner : LlmBackend V W) where
  stored-Within :
      (key : ℕ) (c : InferenceCache) (x : Reply × W) → Within c → Within (stored h inner key c x).1
  stored-Within key c ((inl r, tokens), w) within =
      put-Within h.iteration_order visits key r.text c within
  stored-Within key c ((inr e, tokens), w) within = within

  answered-Within :
      (key : ℕ) (asked : W → Reply × W) (x : Option String × InferenceCache) (w : W)
      → Within x.1
      → Within (answered h inner key asked x w).1
  answered-Within key asked (none, c) w within = stored-Within key c (asked w) within
  answered-Within key asked (some cached, c) w within = within

  serve-Within :
      (q : Request V) (c : InferenceCache) (w : W) → Within c → Within (serve h inner q c w).1
  unfolding answer get
  serve-Within q c w within =
      let key = key_of h inner q in
      rw (serve-answer h inner q c w) (
        answered-Within key (ask h inner q) (get key c) w
          (touched-Within h.iteration_order visits key c (find key c.cache) refl within))

  -- Whatever requests come, the cache has at most as many entries as its limit says, or one where the
  -- limit is zero.
  pub cache_after-Within :
      (qs : List (Request V)) (c : InferenceCache) (w : W)
      → Within c
      → Within (cache_after h inner qs c w)
  unfolding cache_after
  cache_after-Within [] c w within = within
  cache_after-Within (q ∷ qs) c w within = cache_after-Within qs _ _ (serve-Within q c w within)
