-- ===== src/Validate/Suggest.antt =====
-- src/agent/validate.rs: edit_distance and the tool that is suggested for an unknown name.
use Prim.Native.Char.{Char, code}
use bonsai_agent.Prelude.{
  ℕ, ◌+◌, ◌/◌, min, Bool, true, ◌&&◌, String, Option, none, some, List, [], ◌∷◌, len, leb, ltb,
  ◌==◌, if◌then◌else◌,
}

abbrev pub chars : String → List Char
chars String.[] = []
chars (String.◌∷◌ c s) = c ∷ chars s

abbrev pub cost : Char → Char → ℕ
cost a b = if code a == code b then 0 else 1

-- The rest of a row of the table, where `left` is the entry before it, and `diag` and `aboves` are
-- the row above, from the entry before it on.
unfoldable pub row_from : Char → List Char → ℕ → ℕ → List ℕ → List ℕ
row_from a [] left diag aboves = []
row_from a (b ∷ ys) left diag [] = []
row_from a (b ∷ ys) left diag (above ∷ aboves) =
    let d = min (min (above + 1) (left + 1)) (diag + cost a b) in d ∷ row_from a ys d above aboves

abbrev pub next_row : Char → ℕ → List Char → List ℕ → List ℕ
next_row a i ys [] = []
next_row a i ys (diag ∷ aboves) = i ∷ row_from a ys i diag aboves

unfoldable pub last_row : List Char → ℕ → List Char → List ℕ → List ℕ
last_row [] i ys row = row
last_row (a ∷ xs) i ys row = last_row xs (i + 1) ys (next_row a (i + 1) ys row)

unfoldable pub first_row : ℕ → List Char → List ℕ
first_row j [] = j ∷ []
first_row j (b ∷ ys) = j ∷ first_row (j + 1) ys

abbrev pub last_of : List ℕ → ℕ
last_of [] = 0
last_of (d ∷ []) = d
last_of (d ∷ e ∷ ds) = last_of (e ∷ ds)

unfoldable pub edit_distance : String → String → ℕ
edit_distance a b = last_of (last_row (chars a) 0 (chars b) (first_row 0 (chars b)))

abbrev pub is_closer : ℕ → Option (String × ℕ) → Bool
is_closer dist none = true
is_closer dist (some (name, d)) = ltb dist d

unfoldable pub closest : String → List String → Option (String × ℕ) → Option (String × ℕ)
closest name [] best = best
closest name (tool_name ∷ known) best =
    let dist = edit_distance name tool_name in
    closest name known
      (if leb dist (len name / 2 + 1) && is_closer dist best then some (tool_name, dist) else best)

abbrev pub name_of : Option (String × ℕ) → Option String
name_of none = none
name_of (some (name, d)) = some name

-- The names in the order in which the set gives them.
unfoldable pub suggest_similar_tool : String → List String → Option String
suggest_similar_tool name known = name_of (closest name known none)
