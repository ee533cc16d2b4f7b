-- ===== src/Validate/Distance.antt =====
-- src/agent/validate.rs: edit_distance is the least number of edits.
use Prim.Native.Char.{Char}
use bonsai_agent.Prelude.{
  ℕ, ◌+◌, ◌≤◌, min, ◌≡◌, refl, sym, ap, ◌∙◌, String, List, [], ◌∷◌, arith, inl, inr, ◌⊎◌,
}
use bonsai_agent.PathGuard.{reversed_onto}
use bonsai_agent.Validate.Suggest.{
  chars, cost, row_from, next_row, last_row, first_row, last_of, edit_distance,
}

-- The ways to make the second text of the first, both from the last character to the first.
pub data Script : List Char → List Char → Type 0 where
  done : Script [] []
  delete : {a : Char} {xs ys : List Char} → Script xs ys → Script (a ∷ xs) ys
  insert : {b : Char} {xs ys : List Char} → Script xs ys → Script xs (b ∷ ys)
  replace : {a b : Char} {xs ys : List Char} → Script xs ys → Script (a ∷ xs) (b ∷ ys)

-- A character that is replaced by itself is no edit.
unfoldable pub edits : {xs ys : List Char} → Script xs ys → ℕ
edits done = 0
edits (delete s) = edits s + 1
edits (insert s) = edits s + 1
edits (replace {a = a} {b = b} s) = edits s + cost a b

pub record IsDistance (xs ys : List Char) (d : ℕ) : Type 0 where
  pub script : Script xs ys
  pub reached : edits script ≡ d
  pub least : (s : Script xs ys) → d ≤ edits s

min-cases : (x y z : ℕ) → (min (min x y) z ≡ x) ⊎ (min (min x y) z ≡ y) ⊎ (min (min x y) z ≡ z)
min-cases x y z = ground arith

least-step :
    {xs ys : List Char} (a b : Char) (above left diag : ℕ)
    → IsDistance xs (b ∷ ys) above
    → IsDistance (a ∷ xs) ys left
    → IsDistance xs ys diag
    → (s : Script (a ∷ xs) (b ∷ ys)) → min (min (above + 1) (left + 1)) (diag + cost a b) ≤ edits s
unfolding edits
least-step a b above left diag u l d (delete s) = let h = u.least s in omega arith
least-step a b above left diag u l d (insert s) = let h = l.least s in omega arith
least-step a b above left diag u l d (replace s) = let h = d.least s in omega arith

IsDistance-step :
    {xs ys : List Char} (a b : Char) (above left diag : ℕ)
    → IsDistance xs (b ∷ ys) above
    → IsDistance (a ∷ xs) ys left
    → IsDistance xs ys diag
    → IsDistance (a ∷ xs) (b ∷ ys) (min (min (above + 1) (left + 1)) (diag + cost a b))
unfolding edits
IsDistance-step a b above left diag u l d =
    let least = least-step a b above left diag u l d in
    elim (min-cases (above + 1) (left + 1) (diag + cost a b)) [
      | inl h ↦ record {
        script = delete u.script;
        reached = ap (λ n. n + 1) u.reached ∙ sym h;
        least = least;
      }
      | inr (inl h) ↦ record {
        script = insert l.script;
        reached = ap (λ n. n + 1) l.reached ∙ sym h;
        least = least;
      }
      | inr (inr h) ↦ record {
        script = replace d.script;
        reached = ap (λ n. n + cost a b) d.reached ∙ sym h;
        least = least;
      }
    ]

-- A row of the table: the distances from `xs` to `ys` and to the texts that go on from it.
data IsRow (xs : List Char) : List Char → List Char → List ℕ → Type 0 where
  ends : {ys : List Char} {d : ℕ} → IsDistance xs ys d → IsRow xs ys [] (d ∷ [])
  goes_on :
      {b : Char} {ys more : List Char} {d : ℕ} {row : List ℕ}
      → IsDistance xs ys d
      → IsRow xs (b ∷ ys) more row
      → IsRow xs ys (b ∷ more) (d ∷ row)

IsRow-starts :
    {xs ys more : List Char} {d : ℕ} {row : List ℕ}
    → IsRow xs ys more (d ∷ row)
    → IsDistance xs ys d
IsRow-starts (ends h) = h
IsRow-starts (goes_on h r) = h

row_from-IsRow :
    {xs ys more : List Char} {aboves : List ℕ} (a : Char) (left diag : ℕ)
    → IsDistance (a ∷ xs) ys left
    → IsRow xs ys more (diag ∷ aboves)
    → IsRow (a ∷ xs) ys more (left ∷ row_from a more left diag aboves)
unfolding row_from
row_from-IsRow a left diag l (ends d) = ends l
row_from-IsRow a left diag l (goes_on {b = b} d (ends {d = above} u)) =
    goes_on l (row_from-IsRow a _ above (IsDistance-step a b above left diag u l d) (ends u))
row_from-IsRow a left diag l (goes_on {b = b} d (goes_on {d = above} u r)) =
    goes_on l (row_from-IsRow a _ above (IsDistance-step a b above left diag u l d) (goes_on u r))

insert_least :
    {ys : List Char} (b : Char) (j : ℕ)
    → IsDistance [] ys j
    → (s : Script [] (b ∷ ys)) → j + 1 ≤ edits s
unfolding edits
insert_least b j d (insert s) = let h = d.least s in omega arith

delete_least :
    {xs : List Char} (a : Char) (i : ℕ)
    → IsDistance xs [] i
    → (s : Script (a ∷ xs) []) → i + 1 ≤ edits s
unfolding edits
delete_least a i d (delete s) = let h = d.least s in omega arith

IsDistance-insert :
    {ys : List Char} (b : Char) (j : ℕ) → IsDistance [] ys j → IsDistance [] (b ∷ ys) (j + 1)
unfolding edits
IsDistance-insert b j d = record {
  script = insert d.script;
  reached = ap (λ n. n + 1) d.reached;
  least = insert_least b j d;
}

IsDistance-delete :
    {xs : List Char} (a : Char) (i : ℕ) → IsDistance xs [] i → IsDistance (a ∷ xs) [] (i + 1)
unfolding edits
IsDistance-delete a i d = record {
  script = delete d.script;
  reached = ap (λ n. n + 1) d.reached;
  least = delete_least a i d;
}

first_row-IsRow :
    {ys : List Char} (more : List Char) (j : ℕ)
    → IsDistance [] ys j
    → IsRow [] ys more (first_row j more)
unfolding first_row
first_row-IsRow [] j d = ends d
first_row-IsRow (b ∷ more) j d = goes_on d (first_row-IsRow more (j + 1) (IsDistance-insert b j d))

next_row-IsRow :
    {xs more : List Char} {row : List ℕ} (a : Char) (i : ℕ)
    → IsDistance (a ∷ xs) [] i
    → IsRow xs [] more row
    → IsRow (a ∷ xs) [] more (next_row a i more row)
next_row-IsRow a i d (ends {d = diag} u) = row_from-IsRow a i diag d (ends u)
next_row-IsRow a i d (goes_on {d = diag} u r) = row_from-IsRow a i diag d (goes_on u r)

last_row-IsRow :
    (left : List Char) {xs more : List Char} {row : List ℕ} (i : ℕ)
    → IsDistance xs [] i
    → IsRow xs [] more row
    → IsRow (reversed_onto left xs) [] more (last_row left i more row)
unfolding last_row
last_row-IsRow [] i d r = r
last_row-IsRow (a ∷ left) i d r =
    let d' = IsDistance-delete a i d in
    last_row-IsRow left (i + 1) d' (next_row-IsRow a (i + 1) d' r)

last_of-IsDistance :
    {xs ys more : List Char} {row : List ℕ}
    → IsRow xs ys more row
    → IsDistance xs (reversed_onto more ys) (last_of row)
last_of-IsDistance (ends d) = d
last_of-IsDistance (goes_on d (ends u)) = u
last_of-IsDistance (goes_on d (goes_on u r)) = last_of-IsDistance (goes_on u r)

-- The distance of two names is the number of edits of some way to make the second of the first by
-- inserting, deleting and replacing characters, and no way has fewer. Where a character replaces
-- itself, no edit is counted.
pub edit_distance-least :
    (a b : String)
    → IsDistance (reversed_onto (chars a) []) (reversed_onto (chars b) []) (edit_distance a b)
unfolding edit_distance edits
edit_distance-least a b =
    let start : IsDistance [] [] 0 = record {
      script = done;
      reached = refl;
      least = λ s. omega arith;
    } in
    last_of-IsDistance (last_row-IsRow (chars a) 0 start (first_row-IsRow (chars b) 0 start))
