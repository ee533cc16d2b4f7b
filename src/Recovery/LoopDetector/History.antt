-- ===== src/Recovery/LoopDetector/History.antt =====
-- `LoopDetector` against the list of the actions that were recorded in it, oldest first.
use bonsai_agent.Prelude.{
  ==_refl, ℕ, suc, ◌+◌, Bool, ◌&&◌, ◌||◌, String, ◌≡◌, refl, sym, ap, ◌∙◌, Option, List, [], ◌∷◌,
  ◌++◌, map, arith, leb, ◌==◌, length, take_last, length-take_last, push_capped,
  push_capped-eq-take_last, take_last-push, take_last-nil, if◌then◌else◌,
}
use mathlib.Core.List.{map-append}
use bonsai_agent.Recovery.LoopDetector.{
  LoopDetector, new, salient_hash, record_and_check, reset, is_loop, all_same_texts,
  all_same_hashes, detect_cycle,
}

-- How often a number occurs.
abbrev pub occurrences : ℕ → List ℕ → ℕ
occurrences k [] = 0
occurrences k (x ∷ xs) = let n = occurrences k xs in if k == x then suc n else n

occurrences-snoc :
    (k : ℕ) (xs : List ℕ) (x : ℕ)
    → occurrences k (xs ++ x ∷ []) ≡ (if k == x then occurrences k xs + 1 else occurrences k xs)
occurrences-snoc k [] x = ground arith
occurrences-snoc k (y ∷ ys) x = ground (arith, occurrences-snoc k ys x)

-- The last `n` entries are there and alike.
abbrev pub ends_alike_texts : ℕ → List String → Bool
ends_alike_texts n xs = leb n (length xs) && all_same_texts (take_last n xs)

abbrev pub ends_alike_hashes : ℕ → List ℕ → Bool
ends_alike_hashes n xs = leb n (length xs) && all_same_hashes (take_last n xs)

-- How often the last entry occurs.
abbrev pub last_count_from : ℕ → List ℕ → List ℕ → ℕ
last_count_from x [] all_of = occurrences x all_of
last_count_from x (y ∷ ys) all_of = last_count_from y ys all_of

abbrev pub last_count : List ℕ → ℕ
last_count [] = 0
last_count (x ∷ xs) = last_count_from x xs (x ∷ xs)

last_count_from-snoc :
    (x : ℕ) (xs : List ℕ) (y : ℕ) (all_of : List ℕ)
    → last_count_from x (xs ++ y ∷ []) all_of ≡ occurrences y all_of
last_count_from-snoc x [] y all_of = refl
last_count_from-snoc x (z ∷ zs) y all_of = last_count_from-snoc z zs y all_of

last_count-snoc : (xs : List ℕ) (y : ℕ) → last_count (xs ++ y ∷ []) ≡ occurrences y (xs ++ y ∷ [])
last_count-snoc [] y = refl
last_count-snoc (x ∷ xs) y = last_count_from-snoc x xs y (x ∷ xs ++ y ∷ [])

is_loop-or :
    (r f : ℕ) (actions : List String) (hashes : List ℕ) (n : ℕ)
    → is_loop r f actions hashes n
      ≡ (ends_alike_texts r actions || ends_alike_hashes r hashes || detect_cycle hashes || leb f n)
unfolding is_loop
is_loop-or r f actions hashes n = ground arith

module _ (json_keys : String → Option (List String)) (hash : String → ℕ) where
  abbrev pub hashes_of : List String → List ℕ
  hashes_of = map (salient_hash json_keys hash)

  -- The detector holds the end of the history, and the counts of all of it.
  pub record Tracks (d : LoopDetector) (h : List String) : Type 0 where
    pub actions : d.recent_actions ≡ take_last d.max_history h
    pub hashes : d.recent_hashes ≡ take_last d.max_history (hashes_of h)
    pub counts : (k : ℕ) → d.action_frequency k ≡ occurrences k (hashes_of h)

  -- A loop by one of the four tests, on the end of the whole history.
  abbrev pub has_loop : LoopDetector → List String → Bool
  has_loop d h =
      let actions = take_last d.max_history h in
      let hashes = take_last d.max_history (hashes_of h) in
      ends_alike_texts d.repeat_threshold actions
      || ends_alike_hashes d.repeat_threshold hashes
      || detect_cycle hashes
      || leb d.frequency_threshold (last_count (hashes_of h))

  push-tracked {ℓ} :
      {A : Type ℓ} (n : ℕ) {xs : List A} (h : List A) (x : A)
      → xs ≡ take_last n h
      → push_capped n xs x ≡ take_last n (h ++ x ∷ [])
  push-tracked n h x e =
      rw e
        (push_capped-eq-take_last n (take_last n h) x (length-take_last n h) ∙ take_last-push n h x)

  pub new-Tracks : (max_history repeat_threshold : ℕ) → Tracks (new max_history repeat_threshold) []
  new-Tracks m r = record {
    actions = sym (take_last-nil m);
    hashes = sym (take_last-nil m);
    counts = λ k. refl;
  }

  pub reset-Tracks : (d : LoopDetector) → Tracks (reset d) []
  unfolding reset
  reset-Tracks d = record {
    actions = sym (take_last-nil d.max_history);
    hashes = sym (take_last-nil d.max_history);
    counts = λ k. refl;
  }

  hashes_of-snoc :
      (h : List String) (action : String)
      → hashes_of (h ++ action ∷ []) ≡ hashes_of h ++ salient_hash json_keys hash action ∷ []
  hashes_of-snoc h action = map-append (salient_hash json_keys hash) h (action ∷ [])

  pushed_hashes :
      (d : LoopDetector) (h : List String) (action : String)
      → Tracks d h
      → push_capped d.max_history d.recent_hashes (salient_hash json_keys hash action)
        ≡ take_last d.max_history (hashes_of (h ++ action ∷ []))
  pushed_hashes d h action t =
      rw hashes_of-snoc (push-tracked d.max_history (hashes_of h) _ t.hashes)

  pushed_count :
      (d : LoopDetector) (h : List String) (action : String)
      → Tracks d h
      → (k : ℕ)
      → (if k == salient_hash json_keys hash action
          then d.action_frequency (salient_hash json_keys hash action) + 1
          else d.action_frequency k)
        ≡ occurrences k (hashes_of (h ++ action ∷ []))
  pushed_count d h action t k =
      rw (hashes_of-snoc, occurrences-snoc)
        (ground (arith, t.counts k, t.counts (salient_hash json_keys hash action)))

  last_is_action :
      (d : LoopDetector) (h : List String) (action : String)
      → Tracks d h
      → d.action_frequency (salient_hash json_keys hash action) + 1
        ≡ last_count (hashes_of (h ++ action ∷ []))
  last_is_action d h action t =
      let k = salient_hash json_keys hash action in
      rw (hashes_of-snoc, last_count-snoc, occurrences-snoc, ==_refl k, t.counts k) refl

  is_loop-has_loop :
      (d : LoopDetector) (h : List String) (action : String)
      → Tracks d h
      → (record_and_check json_keys hash d action).1 ≡ has_loop d (h ++ action ∷ [])
  unfolding record_and_check
  is_loop-has_loop d h action t =
      rw (push-tracked d.max_history h action t.actions, pushed_hashes d h action t, is_loop-or)
        (ap
          (λ n.
            let hashes = take_last d.max_history (hashes_of (h ++ action ∷ [])) in
            ends_alike_texts d.repeat_threshold (take_last d.max_history (h ++ action ∷ []))
            || ends_alike_hashes d.repeat_threshold hashes
            || detect_cycle hashes
            || leb d.frequency_threshold n)
          (last_is_action d h action t))

  -- Every action keeps the detector in step with the history, and is reported exactly when the
  -- history has a loop.
  pub record_and_check-Tracks :
      (d : LoopDetector) (h : List String) (action : String)
      → Tracks d h
      → Tracks (record_and_check json_keys hash d action).0 (h ++ action ∷ [])
        × ((record_and_check json_keys hash d action).1 ≡ has_loop d (h ++ action ∷ []))
  record_and_check-Tracks d h action t = (
    unfold record_and_check in
        record {
          actions = push-tracked d.max_history h action t.actions;
          hashes = pushed_hashes d h action t;
          counts = pushed_count d h action t;
        },
    is_loop-has_loop d h action t,
  )
