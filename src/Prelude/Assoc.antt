-- ===== src/Prelude/Assoc.antt =====
-- `HashMap<String, V>` as an association list with at most one entry for a key; the order of the
-- entries is not observable through these operations.
use mathlib.Core.Path.{◌≡◌, refl}
use mathlib.Core.Option.{Option, none, some}
use mathlib.Core.List.{List, [], ◌∷◌}
use Prim.Native.String.{String}
use text.Mathlib.Text.{◌==◌}
use text.Mathlib.TextEquality.{eq_iff}
use native.Mathlib.Omega.{arith}
use bonsai_agent.Prelude.Tests.{if◌then◌else◌}

abbrev pub HashMap {ℓ} : Type ℓ → Type ℓ
HashMap V = List (String × V)

module _ {ℓ} {V : Type ℓ} where
  unfoldable pub remove : String → HashMap V → HashMap V
  remove key [] = []
  remove key ((k, v) ∷ rest) =
      let cleaned = remove key rest in if k == key then cleaned else (k, v) ∷ cleaned

  unfoldable pub insert : String → V → HashMap V → HashMap V
  insert key new [] = (key, new) ∷ []
  insert key new ((k, old) ∷ rest) =
      let later = insert key new rest in if k == key then (key, new) ∷ rest else (k, old) ∷ later

  unfoldable pub lookup : String → HashMap V → Option V
  lookup key [] = none
  lookup key ((k, v) ∷ rest) = let later = lookup key rest in if k == key then some v else later

  pub lookup-remove :
      (removed key : String) (entries : HashMap V)
      → lookup key (remove removed entries) ≡ (if removed == key then none else lookup key entries)
  unfolding lookup remove
  lookup-remove removed key [] = ground arith
  lookup-remove removed key ((k, v) ∷ rest) =
      ground
        (arith, lookup-remove removed key rest, eq_iff k key, eq_iff k removed, eq_iff removed key)

  pub lookup-insert :
      (inserted key : String) (new : V) (entries : HashMap V)
      → lookup key (insert inserted new entries)
        ≡ (if inserted == key then some new else lookup key entries)
  unfolding lookup insert
  lookup-insert inserted key new [] = refl
  lookup-insert inserted key new ((k, old) ∷ rest) = ground (
    arith,
    lookup-insert inserted key new rest,
    eq_iff k key,
    eq_iff k inserted,
    eq_iff inserted key,
  )
