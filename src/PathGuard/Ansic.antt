-- ===== src/PathGuard/Ansic.antt =====
-- src/safety/path_guard.rs: unescape_ansic, the escapes of the quotes `$'…'` of the shell.
use Prim.Native.Nat.{Ordering, compare}
use Prim.Native.Char.{Char, char, code, nul, IsLt}
use mathlib.Core.Path.{subst⁻¹}
use bonsai_agent.Prelude.{
  ℕ, zero, suc, ◌+◌, ◌-◌, ◌*◌, Bool, ◌&&◌, ◌||◌, ◌≡◌, refl, String, ◌<>◌, Option, none, some, ◌==◌,
  ltb, leb, if◌then◌else◌,
}

-- `byte as char`: a number below 256 is a character.
abbrev IsBefore : Ordering → Ordering → Type 0
IsBefore Ordering.lt o = IsLt o
IsBefore Ordering.eq _ = ⊥
IsBefore Ordering.gt _ = ⊥

abbrev IsCharacter : Ordering → Ordering → Ordering → Type 0
IsCharacter Ordering.lt _ _ = Unit
IsCharacter Ordering.eq o p = IsBefore o p
IsCharacter Ordering.gt o p = IsBefore o p

abbrev small_char : (n : ℕ) (o : Ordering) → compare n 55296 ≡ o → Char
small_char n Ordering.lt h =
    char n (subst⁻¹ (λ o. IsCharacter o (compare 57343 n) (compare n 1114112)) h tt)
small_char n Ordering.eq h = nul
small_char n Ordering.gt h = nul

abbrev byte_text : ℕ → String
byte_text n = String.◌∷◌ (small_char n (compare n 55296) refl) String.[]

-- What the loop reads: a plain character, one after a backslash, or the digits of a number, with how
-- many there are and their value.
pub data Escape : Type 0 where
  plain backslash : Escape
  hex octal : ℕ → ℕ → Escape

pub record Unescape : Type 0 where
  pub out : String
  pub mode : Escape

-- `u8::from_str_radix`: no digits, or a value past 255, are nothing.
abbrev pub flush : Escape → String → String
flush plain out = out
flush backslash out = out <> "\\"
flush (hex zero value) out = out
flush (hex (suc n) value) out = out <> byte_text value
flush (octal n value) out = if ltb value 256 then out <> byte_text value else out

abbrev push : ℕ → String → Unescape
push n out = record { out = out <> byte_text n; mode = plain }

abbrev read_plain : Char → String → Unescape
read_plain c out =
    if code c == 92
    then record { out = out; mode = backslash }
    else record { out = out <> String.◌∷◌ c String.[]; mode = plain }

abbrev within : ℕ → ℕ → ℕ → Bool
within low high n = leb low n && leb n high

abbrev read_escaped : Char → String → Unescape
read_escaped ch out =
    let c = code ch in
    if c == b'a'
    then push 7 out
    else if c == b'b'
    then push 8 out
    else if c == b'e' || c == b'E'
    then push 27 out
    else if c == b'f'
    then push 12 out
    else if c == b'n'
    then push 10 out
    else if c == b'r'
    then push 13 out
    else if c == b't'
    then push 9 out
    else if c == b'v'
    then push 11 out
    else if c == b'x'
    then record { out = out; mode = hex 0 0 }
    else if within b'0' b'7' c
    then record { out = out; mode = octal 1 (c - b'0') }
    else record { out = out <> String.◌∷◌ ch String.[]; mode = plain }

abbrev hex_digit : ℕ → Option ℕ
hex_digit c =
    if within b'0' b'9' c
    then some (c - b'0')
    else if within b'a' b'f' c
    then some (c - b'a' + 10)
    else if within b'A' b'F' c
    then some (c - b'A' + 10)
    else none

abbrev read_hex : ℕ → ℕ → Option ℕ → Char → String → Unescape
read_hex n value none c out = read_plain c (flush (hex n value) out)
read_hex n value (some d) c out =
    if ltb n 2
    then record { out = out; mode = hex (n + 1) (16 * value + d) }
    else read_plain c (flush (hex n value) out)

abbrev pub read : Escape → Char → String → Unescape
read plain c out = read_plain c out
read backslash c out = read_escaped c out
read (hex n value) c out = read_hex n value (hex_digit (code c)) c out
read (octal n value) c out =
    if ltb n 3 && within b'0' b'7' (code c)
    then record { out = out; mode = octal (n + 1) (8 * value + (code c - b'0')) }
    else read_plain c (flush (octal n value) out)

unfoldable pub read_all : String → Unescape → String
read_all String.[] u = flush u.mode u.out
read_all (String.◌∷◌ c s) u = read_all s (read u.mode c u.out)

unfoldable pub unescape_ansic : String → Option String
unescape_ansic s = some (read_all s (record { out = ""; mode = plain }))
