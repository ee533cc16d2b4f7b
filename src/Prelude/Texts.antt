-- ===== src/Prelude/Texts.antt =====
-- Native texts: `len` counts UTF-8 bytes and `count` characters, as `str::len` and
-- `chars().count()` do.
use Prim.Native.Nat.{ℕ, zero, suc, ◌+◌, ◌/◌, ◌%◌}
use Prim.Native.String.{String, slice, ◌++◌}
use Prim.Native.Char.{code}
use mathlib.Core.Option.{Option, none, some}
use mathlib.Core.Bool.{Bool, true, false, ◌&&◌, ◌||◌}
use mathlib.Core.Path.{◌≡◌, refl}
use mathlib.Core.List.{List, [], ◌∷◌}
use text.Mathlib.Text.{starts_with}
use bonsai_agent.Prelude.Tests.{if◌then◌else◌, leb, ◌==◌}

-- `s.chars().take(n).collect()`.
abbrev pub take_chars : ℕ → String → String
take_chars zero s = String.[]
take_chars (suc n) String.[] = String.[]
take_chars (suc n) (String.◌∷◌ c s) = String.◌∷◌ c (take_chars n s)

-- `s.contains(t)`.
abbrev pub contains : String → String → Bool
contains String.[] t = starts_with String.[] t
contains (String.◌∷◌ c s) t = starts_with (String.◌∷◌ c s) t || contains s t

-- `parts.join(sep)`.
abbrev pub join : String → List String → String
join sep [] = ""
join sep (s ∷ []) = s
join sep (s ∷ t ∷ r) = s ++ (sep ++ join sep (t ∷ r))

-- A digit is a byte of the text of all digits; those of higher places come first.
digits_of : ℕ → ℕ → String → String
digits_of zero n lower = lower
digits_of (suc f) n lower =
    let place = slice "0123456789" (n % 10) (n % 10 + 1) ++ lower in
    let higher = digits_of f (n / 10) place in if n / 10 == 0 then place else higher

-- `format!("{n}")`: a number below `10 ^ f` has at most `f` digits, so `n + 1` rounds are enough.
unfoldable pub show : ℕ → String
unfolding digits_of
show n = digits_of (suc n) n ""

show_2026 : show 2026 ≡ "2026"
unfolding show
show_2026 = refl

-- `s.strip_prefix(p)`.
unfoldable pub strip_prefix : String → String → Option String
strip_prefix String.[] s = some s
strip_prefix (String.◌∷◌ c p) String.[] = none
strip_prefix (String.◌∷◌ c p) (String.◌∷◌ d s) = if code c == code d then strip_prefix p s else none

abbrev pub prepend : String → Option (String × String) → Option (String × String)
prepend c none = none
prepend c (some (a, b)) = some (c ++ a, b)

-- The texts before and after the first occurrence of `p`: `&s[..i]` and `&s[i + p.len()..]` for
-- `i = s.find(p)`.
unfoldable pub split_at : String → String → Option (String × String)
unfolding strip_prefix
split_at p String.[] = elim (strip_prefix p String.[]) [ none ↦ none | some r ↦ some ("", r) ]
split_at p (String.◌∷◌ c s) =
    let later = prepend (String.◌∷◌ c String.[]) (split_at p s) in
    elim (strip_prefix p (String.◌∷◌ c s)) [ none ↦ later | some r ↦ some ("", r) ]

-- `char::is_whitespace`.
pub is_whitespace : ℕ → Bool
is_whitespace c =
    (leb 9 c && leb c 13)
    || c == 32
    || c == 0x85
    || c == 0xa0
    || c == 0x1680
    || (leb 0x2000 c && leb c 0x200a)
    || c == 0x2028
    || c == 0x2029
    || c == 0x202f
    || c == 0x205f
    || c == 0x3000

unfoldable pub trim_start : String → String
unfolding is_whitespace
trim_start String.[] = String.[]
trim_start (String.◌∷◌ c s) =
    let rest = trim_start s in if is_whitespace (code c) then rest else String.◌∷◌ c s

abbrev is_empty_text : String → Bool
is_empty_text String.[] = true
is_empty_text _ = false

unfoldable pub trim_end : String → String
unfolding is_whitespace
trim_end String.[] = String.[]
trim_end (String.◌∷◌ c s) =
    let rest = trim_end s in
    if is_whitespace (code c) && is_empty_text rest then String.[] else String.◌∷◌ c rest

-- `s.trim()`.
unfoldable pub trim_text : String → String
unfolding trim_start trim_end
trim_text s = trim_end (trim_start s)
