-- ===== src/Parsing/Tags.antt =====
-- The first occurrence of a tag in a text that begins with something else.
use text.Mathlib.TextLemmas
use Prim.Native.Char.{Char, code}
use bonsai_agent.Prelude.{
  Bool, true, false, not, ◌&&◌, String, ◌<>◌, ◌≡◌, refl, ap, ◌∙◌, Option, none, some, arith,
  split_at, strip_prefix, prepend, ◌==◌, if◌then◌else◌,
}

-- No character of the text opens a tag.
unfoldable pub plain : String → Bool
plain String.[] = true
plain (String.◌∷◌ c s) = not (code c == b'<') && plain s

-- `p` and `a` differ at a position that both have.
unfoldable pub differs : String → String → Bool
differs String.[] a = false
differs (String.◌∷◌ c p) String.[] = false
differs (String.◌∷◌ c p) (String.◌∷◌ d a) = if code c == code d then differs p a else true

-- No occurrence of `p` begins in `a`, whatever follows it.
unfoldable pub clear : String → String → Bool
unfolding differs
clear p String.[] = true
clear p (String.◌∷◌ c a) = differs p (String.◌∷◌ c a) && clear p a

pub differs-strip_prefix : (p a s : String) → differs p a ≡ true → strip_prefix p (a <> s) ≡ none
unfolding differs strip_prefix
differs-strip_prefix String.[] a s d = ground (arith, d)
differs-strip_prefix (String.◌∷◌ c p) String.[] s d = ground (arith, d)
differs-strip_prefix (String.◌∷◌ c p) (String.◌∷◌ e a) s d =
    rw (TextLemmas.cons-append e a s) (ground (arith, d, differs-strip_prefix p a s))

pub strip_prefix-same : (p s : String) → strip_prefix p (p <> s) ≡ some s
unfolding strip_prefix
strip_prefix-same String.[] s = rw (TextLemmas.nil-append s) refl
strip_prefix-same (String.◌∷◌ c p) s =
    rw (TextLemmas.cons-append c p s) (ground (arith, strip_prefix-same p s))

pub prepend-prepend :
    (a b : String) (o : Option (String × String)) → prepend a (prepend b o) ≡ prepend (a <> b) o
prepend-prepend a b none = refl
prepend-prepend a b (some (x, y)) = rw (TextLemmas.append_assoc a b x) refl

pub prepend-nil : (o : Option (String × String)) → prepend "" o ≡ o
prepend-nil none = refl
prepend-nil (some (x, y)) = rw (TextLemmas.nil-append x) refl

pub split_at-skip :
    (p : String) (c : Char) (t : String)
    → strip_prefix p (String.◌∷◌ c t) ≡ none
    → split_at p (String.◌∷◌ c t) ≡ prepend (String.◌∷◌ c String.[]) (split_at p t)
unfolding split_at
split_at-skip p c t absent = rw (absent, split_at) refl

pub split_at-here :
    (p : String) (c : Char) (t r : String)
    → strip_prefix p (String.◌∷◌ c t) ≡ some r
    → split_at p (String.◌∷◌ c t) ≡ some ("", r)
unfolding split_at
split_at-here p c t r e = rw (e, split_at) refl

pub clear-split_at :
    (p a s : String) → clear p a ≡ true → split_at p (a <> s) ≡ prepend a (split_at p s)
unfolding clear
clear-split_at p String.[] s h = rw (TextLemmas.nil-append s, prepend-nil (split_at p s)) refl
clear-split_at p (String.◌∷◌ c a) s h =
    let absent = differs-strip_prefix p (String.◌∷◌ c a) s (ground (arith, h)) in
    let rest = clear-split_at p a s (ground (arith, h)) in
    let joined : String.◌∷◌ c String.[] <> a ≡ String.◌∷◌ c a =
      TextLemmas.cons-append c String.[] a ∙ ap (λ t. String.◌∷◌ c t) (TextLemmas.nil-append a) in
    rw (TextLemmas.cons-append c a s) (
      split_at-skip p c (a <> s) (rw (TextLemmas.cons-append c a s) at absent)
      ∙ ap (prepend (String.◌∷◌ c String.[])) rest
      ∙ prepend-prepend (String.◌∷◌ c String.[]) a (split_at p s)
      ∙ ap (λ t. prepend t (split_at p s)) joined)

-- The text before the first tag, where the tag cannot begin in it.
pub clear-found :
    (c : Char) (p a s : String)
    → clear (String.◌∷◌ c p) a ≡ true
    → split_at (String.◌∷◌ c p) (a <> (String.◌∷◌ c p <> s)) ≡ some (a, s)
clear-found c p a s h =
    let same = strip_prefix-same (String.◌∷◌ c p) s in
    let found : split_at (String.◌∷◌ c p) (String.◌∷◌ c p <> s) ≡ some ("", s) =
      rw (TextLemmas.cons-append c p s)
        (split_at-here (String.◌∷◌ c p) c (p <> s) s (rw (TextLemmas.cons-append c p s) at same)) in
    clear-split_at (String.◌∷◌ c p) a (String.◌∷◌ c p <> s) h
    ∙ rw (found, TextLemmas.append-nil a) refl

pub plain-clear :
    (c : Char) (p a : String)
    → (code c == b'<') ≡ true
    → plain a ≡ true
    → clear (String.◌∷◌ c p) a ≡ true
unfolding plain clear differs
plain-clear c p String.[] tag h = refl
plain-clear c p (String.◌∷◌ d a) tag h = ground (arith, tag, h, plain-clear c p a)

pub lacks-clear :
    (p a s : String) → clear p a ≡ true → split_at p s ≡ none → split_at p (a <> s) ≡ none
lacks-clear p a s h e = clear-split_at p a s h ∙ ap (prepend a) e
