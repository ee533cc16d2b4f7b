-- ===== src/Compaction/Extract/Fuel.antt =====
-- The searches for tags have enough fuel.
use text.Mathlib.TextLemmas
use bonsai_agent.Prelude.{
  ℕ, zero, suc, ◌+◌, ◌<◌, ◌≤◌, String, ◌<>◌, count, ◌≡◌, refl, ap, Option, none, some, ◌∷◌, arith,
  strip_prefix, split_at, prepend, inl, inr, Option-cases,
}
use bonsai_agent.Compaction.Extract.{blocks_fuel, blocks, strip_fuel, strip_think_tags}

strip_prefix-count : (p s r : String) → strip_prefix p s ≡ some r → count r + count p ≡ count s
unfolding strip_prefix
strip_prefix-count String.[] s r e = ground (arith, TextLemmas.length-nil)
strip_prefix-count (String.◌∷◌ c p) String.[] r e = cc
strip_prefix-count (String.◌∷◌ c p) (String.◌∷◌ d s) r e =
    ground (arith, TextLemmas.length-cons c p, TextLemmas.length-cons d s, strip_prefix-count p s r)

-- What follows a first occurrence of `p` in `s` is shorter than `s` by the length of `p` at least.
abbrev pub Within : String → ℕ → Option (String × String) → Type 0
Within p n none = Unit
Within p n (some (a, b)) = count b + count p ≤ n

prepend-Within :
    (p x : String) (n : ℕ) (o : Option (String × String))
    → Within p n o
    → Within p (suc n) (prepend x o)
prepend-Within p x n none h = tt
prepend-Within p x n (some (a, b)) h = omega arith

split_at-Within : (p s : String) → Within p (count s) (split_at p s)
unfolding split_at
split_at-Within p String.[] = elim (Option-cases (strip_prefix p String.[])) [
  | inl absent ↦ rw (absent, split_at) tt
  | inr (r, e) ↦ rw (e, split_at) (omega (arith, strip_prefix-count p String.[] r e))
]
split_at-Within p (String.◌∷◌ c s) = elim (Option-cases (strip_prefix p (String.◌∷◌ c s))) [
  | inl absent ↦
      rw (absent, split_at, TextLemmas.length-cons c s)
        (prepend-Within p (String.◌∷◌ c String.[]) (count s) (split_at p s) (split_at-Within p s))
  | inr (r, e) ↦ rw (e, split_at) (omega (arith, strip_prefix-count p (String.◌∷◌ c s) r e))
]

pub found-Within : (p s a b : String) → split_at p s ≡ some (a, b) → count b + count p ≤ count s
found-Within p s a b e = rw e at (split_at-Within p s)

blocks_fuel-enough :
    (opening closing : String) (f g : ℕ) (s : String)
    → 0 < count opening
    → count s < f
    → count s < g
    → blocks_fuel f opening closing s ≡ blocks_fuel g opening closing s
unfolding blocks_fuel
blocks_fuel-enough opening closing zero g s tag f_enough g_enough = ground arith
blocks_fuel-enough opening closing (suc f) zero s tag f_enough g_enough = ground arith
blocks_fuel-enough opening closing (suc f) (suc g) s tag f_enough g_enough =
    elim (Option-cases (split_at opening s)) [
      | inl absent ↦ rw (absent, blocks_fuel) refl
      | inr ((before, after_tag), e) ↦ elim (Option-cases (split_at closing after_tag)) [
        | inl absent ↦ rw (e, absent, blocks_fuel) refl
        | inr ((block, rest), e') ↦
            let shorter : count rest + count opening ≤ count s = omega (
              arith,
              found-Within opening s before after_tag e,
              found-Within closing after_tag block rest e',
            ) in
            rw (e, e', blocks_fuel)
              (ap (λ bs. block ∷ bs)
                (blocks_fuel-enough opening closing f g rest tag (omega arith) (omega arith)))
      ]
    ]

strip_fuel-enough :
    (f g : ℕ) (s : String) → count s < f → count s < g → strip_fuel f s ≡ strip_fuel g s
unfolding strip_fuel
strip_fuel-enough zero g s f_enough g_enough = ground arith
strip_fuel-enough (suc f) zero s f_enough g_enough = ground arith
strip_fuel-enough (suc f) (suc g) s f_enough g_enough = elim (Option-cases (split_at "<think>" s)) [
  | inl absent ↦ rw (absent, strip_fuel) refl
  | inr ((before, after_tag), e) ↦ elim (Option-cases (split_at "</think>" after_tag)) [
    | inl absent ↦ rw (e, absent, strip_fuel) refl
    | inr ((block, rest), e') ↦
        let shorter : count rest < count s = omega (
          arith,
          found-Within "<think>" s before after_tag e,
          found-Within "</think>" after_tag block rest e',
        ) in
        rw (e, e', strip_fuel)
          (ap (λ t. before <> t) (strip_fuel-enough f g rest (omega arith) (omega arith)))
  ]
]

-- The searches for tags do not run out of fuel: with any more of it they find the same blocks, for
-- an opening tag that is not empty, and strip the same text.
pub searches_complete :
    (opening closing s : String) (more : ℕ)
    → 0 < count opening
    → (blocks_fuel (suc (count s) + more) opening closing s ≡ blocks opening closing s)
      × (strip_fuel (suc (count s) + more) s ≡ strip_think_tags s)
unfolding blocks strip_think_tags
searches_complete opening closing s more tag = (
  blocks_fuel-enough opening closing (suc (count s) + more) (suc (count s)) s tag (omega arith)
      (omega arith),
  strip_fuel-enough (suc (count s) + more) (suc (count s)) s (omega arith) (omega arith),
)
