-- ===== src/Recovery/LoopDetector/Repeats.antt =====
-- What `LoopDetector` is for: repeated and alternating actions are reported.
use bonsai_agent.Prelude.{
  ℕ, zero, suc, ◌≤◌, ◌-◌, true, ◌||◌, String, ◌≡◌, ◌≢◌, refl, sym, ap, ◌∙◌, Option, List, [], ◌∷◌,
  ◌++◌, arith, leb, length, take_last, take_last-take_last, take_last-append, replicate, eq_refl,
  str_eq, all, and-true, or-true_left, or-true_right, le→leb, append_assoc, length-append,
  length-drop, length-replicate,
}
use mathlib.Core.List.{map-append}
use bonsai_agent.Recovery.LoopDetector.{
  LoopDetector, salient_hash, record_and_check, all_same_texts, detect_cycle,
}
use bonsai_agent.Recovery.LoopDetector.History.{
  hashes_of, Tracks, has_loop, record_and_check-Tracks, ends_alike_texts, ends_alike_hashes,
  last_count,
}

replicate-snoc {ℓ} : {A : Type ℓ} (n : ℕ) (a : A) → replicate n a ++ a ∷ [] ≡ a ∷ replicate n a
replicate-snoc zero a = refl
replicate-snoc (suc n) a = ap (λ t. a ∷ t) (replicate-snoc n a)

all-replicate : (n : ℕ) (a : String) → all (λ x. str_eq x a) (replicate n a) ≡ true
all-replicate zero a = refl
all-replicate (suc n) a = rw eq_refl (all-replicate n a)

-- The end of a window that is at least as long is the end of the history.
end_of_window {ℓ} :
    {A : Type ℓ} (m : ℕ) (xs ys : List A)
    → length ys ≤ m
    → take_last (length ys) (take_last m (xs ++ ys)) ≡ ys
end_of_window m xs ys h = take_last-take_last (length ys) m (xs ++ ys) h ∙ take_last-append xs ys

length_of_window {ℓ} :
    {A : Type ℓ} (m : ℕ) (xs ys : List A)
    → length ys ≤ m
    → length ys ≤ length (take_last m (xs ++ ys))
length_of_window m xs ys h =
    omega (arith, length-drop (length (xs ++ ys) - m) (xs ++ ys), length-append xs ys)

ends_alike_repeated :
    (m n k : ℕ) (h : List String) (a : String)
    → n ≡ suc k
    → n ≤ m
    → ends_alike_texts n (take_last m (h ++ a ∷ replicate k a)) ≡ true
ends_alike_repeated m n k h a e fits =
    let l : length (a ∷ replicate k a) ≡ n = ap suc (length-replicate k a) ∙ sym e in
    let window = take_last m (h ++ a ∷ replicate k a) in
    let long : n ≤ length window =
      omega (arith, length_of_window m h (a ∷ replicate k a) (omega arith)) in
    let end : take_last n window ≡ a ∷ replicate k a =
      rw l at (end_of_window m h (a ∷ replicate k a) (omega arith)) in
    and-true (leb n (length window)) (all_same_texts (take_last n window))
      (le→leb n (length window) long) (rw end (all-replicate k a))

module _ (json_keys : String → Option (List String)) (hash : String → ℕ) where
  has_loop_of_repeat :
      (d : LoopDetector) (h : List String)
      → ends_alike_texts d.repeat_threshold (take_last d.max_history h) ≡ true
      → has_loop json_keys hash d h ≡ true
  has_loop_of_repeat d h e = rw e

  has_loop_of_cycle :
      (d : LoopDetector) (h : List String)
      → detect_cycle (take_last d.max_history (hashes_of json_keys hash h)) ≡ true
      → has_loop json_keys hash d h ≡ true
  has_loop_of_cycle d h e =
      let hashes = take_last d.max_history (hashes_of json_keys hash h) in
      let rest = leb d.frequency_threshold (last_count (hashes_of json_keys hash h)) in
      let repeats =
        ends_alike_texts d.repeat_threshold (take_last d.max_history h)
        || ends_alike_hashes d.repeat_threshold hashes in
      or-true_left (repeats || detect_cycle hashes) rest
        (or-true_right repeats (detect_cycle hashes) e)

  detect_cycle_alternating :
      (m : ℕ) (h : List String) (a b : String)
      → salient_hash json_keys hash a ≢ salient_hash json_keys hash b
      → 4 ≤ m
      → detect_cycle (take_last m (hashes_of json_keys hash (h ++ a ∷ b ∷ a ∷ b ∷ []))) ≡ true
  unfolding detect_cycle
  detect_cycle_alternating m h a b ne fits =
      let x = salient_hash json_keys hash a in
      let y = salient_hash json_keys hash b in
      let split = map-append (salient_hash json_keys hash) h (a ∷ b ∷ a ∷ b ∷ []) in
      let end = end_of_window m (hashes_of json_keys hash h) (x ∷ y ∷ x ∷ y ∷ []) fits in
      let long = length_of_window m (hashes_of json_keys hash h) (x ∷ y ∷ x ∷ y ∷ []) fits in
      rw split (ground (arith, end, long))

  -- The same action, recorded `repeat_threshold` times in a row after any history, is reported at
  -- the last time, where the window of the detector holds that many.
  pub repeats_reported :
      (d : LoopDetector) (h : List String) (k : ℕ) (a : String)
      → Tracks json_keys hash d (h ++ replicate k a)
      → d.repeat_threshold ≡ suc k
      → d.repeat_threshold ≤ d.max_history
      → (record_and_check json_keys hash d a).1 ≡ true
  repeats_reported d h k a t e fits =
      let together : (h ++ replicate k a) ++ a ∷ [] ≡ h ++ a ∷ replicate k a =
        append_assoc h (replicate k a) (a ∷ []) ∙ ap (λ s. h ++ s) (replicate-snoc k a) in
      (record_and_check-Tracks json_keys hash d (h ++ replicate k a) a t).1
      ∙ rw together (
          has_loop_of_repeat d (h ++ a ∷ replicate k a)
            (ends_alike_repeated d.max_history d.repeat_threshold k h a e fits))

  -- Two actions with different hashes, recorded in turn twice after any history, are reported at
  -- the fourth, where the window of the detector holds four.
  pub alternation_reported :
      (d : LoopDetector) (h : List String) (a b : String)
      → Tracks json_keys hash d (h ++ a ∷ b ∷ a ∷ [])
      → salient_hash json_keys hash a ≢ salient_hash json_keys hash b
      → 4 ≤ d.max_history
      → (record_and_check json_keys hash d b).1 ≡ true
  alternation_reported d h a b t ne fits =
      let together = append_assoc h (a ∷ b ∷ a ∷ []) (b ∷ []) in
      (record_and_check-Tracks json_keys hash d (h ++ a ∷ b ∷ a ∷ []) b t).1
      ∙ rw together (
          has_loop_of_cycle d (h ++ a ∷ b ∷ a ∷ b ∷ [])
            (detect_cycle_alternating d.max_history h a b ne fits))
