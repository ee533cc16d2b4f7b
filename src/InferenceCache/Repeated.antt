-- ===== src/InferenceCache/Repeated.antt =====
-- src/runtime/cache.rs: a request that was answered is answered from the cache when it comes again.
use mathlib.Core.Path.{subst}
use bonsai_agent.Prelude.{
  ℕ, ◌≡◌, refl, ap, ◌∙◌, String, Option, none, some, List, [], ◌∷◌, inl, inr, ==_refl, Bool-cases,
  ◌==◌,
}
use bonsai_agent.InferenceCache.{
  CacheEntry, Entries, InferenceCache, find, set, touched, get, put, GenerateResult, Reply,
  LlmBackend, Hashing, stored, cached_result, answered, answer,
}
use bonsai_agent.InferenceCache.Answers.{Request, serve, ask, key_of, serve-answer}

find-set : (key : ℕ) (e : CacheEntry) (es : Entries) → find key (set key e es) ≡ some e
unfolding find set
find-set key e [] = rw (==_refl key) refl
find-set key e ((k, old) ∷ es) = elim (Bool-cases (k == key)) [
  | inl same ↦ rw (same, ==_refl key) refl
  | inr other ↦ rw (other, other) (find-set key e es)
]

get-find :
    (key : ℕ) (c : InferenceCache) (e : CacheEntry)
    → find key c.cache ≡ some e
    → (get key c).0 ≡ some e.response
unfolding get
get-find key c e found = ap (λ f. (touched key c f).0) found

get-put :
    (order : Entries → Entries) (key : ℕ) (response : String) (c : InferenceCache)
    → (get key (put order key response c)).0 ≡ some response
unfolding put
get-put order key response c =
    get-find key _ (record { response = response; access_count = 0 }) (find-set key _ _)

module _ {V W : Type 0} (h : Hashing) (inner : LlmBackend V W) where
  -- The cache holds the text of a reply that is no error.
  abbrev Holds : ℕ → Reply × InferenceCache × W → Type 0
  Holds key ((inl r, tokens), c, w) = (get key c).0 ≡ some r.text
  Holds key ((inr e, tokens), c, w) = Unit

  stored-Holds : (key : ℕ) (c : InferenceCache) (x : Reply × W) → Holds key (stored h inner key c x)
  stored-Holds key c ((inl r, tokens), w) = get-put h.iteration_order key r.text c
  stored-Holds key c ((inr e, tokens), w) = tt

  answered-Holds :
      (key : ℕ) (asked : W → Reply × W) (c : InferenceCache) (found : Option CacheEntry) (w : W)
      → Holds key (answered h inner key asked (touched key c found) w)
  answered-Holds key asked c none w = stored-Holds key c (asked w)
  answered-Holds key asked c (some e) w = get-find key _ _ (find-set key _ c.cache)

  serve-Holds :
      (q : Request V) (c : InferenceCache) (w : W) → Holds (key_of h inner q) (serve h inner q c w)
  unfolding answer get
  serve-Holds q c w =
      let key = key_of h inner q in
      rw (serve-answer h inner q c w) (answered-Holds key (ask h inner q) c (find key c.cache) w)

  answered-some :
      (key : ℕ) (asked : W → Reply × W) (x : Option String × InferenceCache) (w : W) (s : String)
      → x.0 ≡ some s
      → answered h inner key asked x w ≡ ((inl (cached_result h inner s), s ∷ []), x.1, w)
  answered-some key asked (found, c) w s eq = ap (λ o. answered h inner key asked (o, c) w) eq

  -- When a request has been answered and comes again at once, the reply is the same text, in one
  -- piece, with no use of tokens, and the backend within is not asked: its world stays as it is.
  pub serve_twice :
      (q : Request V) (c c' : InferenceCache) (w w' : W) (r : GenerateResult) (tokens : List String)
      → serve h inner q c w ≡ ((inl r, tokens), c', w')
      → ((serve h inner q c' w').0 ≡ (inl (cached_result h inner r.text), r.text ∷ []))
        × ((serve h inner q c' w').2 ≡ w')
  unfolding answer
  serve_twice q c c' w w' r tokens first =
      let key = key_of h inner q in
      let held : (get key c').0 ≡ some r.text =
        subst (λ x. Holds key x) first (serve-Holds q c w) in
      let again =
        serve-answer h inner q c' w'
        ∙ answered-some key (ask h inner q) (get key c') w' r.text held in
      (ap (λ x. x.0) again, ap (λ x. x.2) again)
