-- ===== src/Prelude/Window.antt =====
-- A bounded history: `xs.push(x); if xs.len() > n { xs.remove(0) }`, the idiom of every detector,
-- and its `while` form. Either keeps the last `n` of what was pushed.
use Prim.Native.Nat.{ℕ, zero, suc, ◌+◌, ◌-◌, ◌≤◌}
use mathlib.Core.Path.{◌≡◌, refl, ap}
use mathlib.Core.Logic.{inl, inr}
use mathlib.Core.Bool.{true, false}
use mathlib.Core.List.{List, [], ◌∷◌, ◌++◌}
use native.Mathlib.Omega.{arith}
use native.Mathlib.Nat.{add-zero, zero-add, add-suc, zero-sub}
use bonsai_agent.Prelude.Tests.{ltb, if◌then◌else◌, Bool-cases}
use bonsai_agent.Prelude.Lists.{
  length, drop, take_last, length-append, length-drop, drop-length-append,
}

module _ {ℓ} {A : Type ℓ} where
  -- `xs.remove(0)` on a list that is not empty.
  abbrev pub remove_first : List A → List A
  remove_first [] = []
  remove_first (x ∷ xs) = xs

  unfoldable pub push_capped : ℕ → List A → A → List A
  push_capped n xs x = let ys = xs ++ x ∷ [] in if ltb n (length ys) then remove_first ys else ys

  -- `while xs.len() > n { xs.remove(0) }`.
  unfoldable pub trim : ℕ → List A → List A
  trim n [] = []
  trim n (x ∷ xs) = elim (ltb n (suc (length xs))) [ true ↦ trim n xs | false ↦ x ∷ xs ]

  remove_first-eq-drop : (xs : List A) → remove_first xs ≡ drop 1 xs
  remove_first-eq-drop [] = refl
  remove_first-eq-drop (x ∷ xs) = refl

  drop_all : (n : ℕ) (xs : List A) → length xs ≤ n → drop n xs ≡ []
  drop_all zero [] h = refl
  drop_all zero (x ∷ xs) h = absurd (omega arith)
  drop_all (suc n) [] h = refl
  drop_all (suc n) (x ∷ xs) h = drop_all n xs (omega arith)

  drop-append : (k : ℕ) (xs ys : List A) → k ≤ length xs → drop k (xs ++ ys) ≡ drop k xs ++ ys
  drop-append zero xs ys h = refl
  drop-append (suc k) [] ys h = absurd (omega arith)
  drop-append (suc k) (x ∷ xs) ys h = drop-append k xs ys (omega arith)

  drop-drop : (a b : ℕ) (xs : List A) → drop a (drop b xs) ≡ drop (a + b) xs
  drop-drop a zero xs = rw add-zero
  drop-drop zero (suc b) [] = rw zero-add
  drop-drop (suc a) (suc b) [] = rw add-suc
  drop-drop a (suc b) (x ∷ xs) = rw add-suc (drop-drop a b xs)

  pub trim-eq-take_last : (n : ℕ) (xs : List A) → trim n xs ≡ take_last n xs
  unfolding trim
  trim-eq-take_last n [] = rw zero-sub
  trim-eq-take_last n (x ∷ xs) = elim (Bool-cases (ltb n (suc (length xs)))) [
    | inl long ↦
        let e : suc (length xs) - n ≡ suc (length xs - n) = ground arith in
        rw (long, trim, e) (trim-eq-take_last n xs)
    | inr short ↦ let e : suc (length xs) - n ≡ 0 = ground arith in rw (short, trim, e)
  ]

  pub length-push_capped-le :
      (n : ℕ) (xs : List A) (x : A) → length (push_capped n xs x) ≤ length xs + 1
  unfolding push_capped
  length-push_capped-le n xs x = ground (
    arith,
    length-append xs (x ∷ []),
    remove_first-eq-drop (xs ++ x ∷ []),
    length-drop 1 (xs ++ x ∷ []),
  )

  pub take_last-nil : (n : ℕ) → take_last {A = A} n [] ≡ []
  take_last-nil n = rw zero-sub

  pub length-take_last : (n : ℕ) (xs : List A) → length (take_last n xs) ≤ n
  length-take_last n xs = omega (arith, length-drop (length xs - n) xs)

  pub push_capped-eq-take_last :
      (n : ℕ) (xs : List A) (x : A)
      → length xs ≤ n
      → push_capped n xs x ≡ take_last n (xs ++ x ∷ [])
  unfolding push_capped
  push_capped-eq-take_last n xs x h =
      ground (arith, length-append xs (x ∷ []), remove_first-eq-drop (xs ++ x ∷ []))

  -- Dropping in two rounds, with a push between them, is dropping once.
  pub take_last-push :
      (n : ℕ) (xs : List A) (x : A)
      → take_last n (take_last n xs ++ x ∷ []) ≡ take_last n (xs ++ x ∷ [])
  take_last-push n xs x =
      let k = length xs - n in
      rw (← drop-append k xs (x ∷ []) (omega arith), drop-drop)
        (ap (λ j. drop j (xs ++ x ∷ []))
          (omega (arith, length-drop k (xs ++ x ∷ []), length-append xs (x ∷ []))))

  pub take_last-take_last :
      (k n : ℕ) (xs : List A) → k ≤ n → take_last k (take_last n xs) ≡ take_last k xs
  take_last-take_last k n xs h =
      rw drop-drop (ap (λ j. drop j xs) (omega (arith, length-drop (length xs - n) xs)))

  pub take_last-append : (xs ys : List A) → take_last (length ys) (xs ++ ys) ≡ ys
  take_last-append xs ys =
      let e : length (xs ++ ys) - length ys ≡ length xs = omega (arith, length-append xs ys) in
      rw e (drop-length-append xs ys)
