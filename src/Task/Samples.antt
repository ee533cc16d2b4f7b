-- ===== src/Task/Samples.antt =====
-- An engine that never fails, for the tests. A log is written as a text in which each character
-- stands behind a plus sign, and each text ends with a full stop.
use Prim.Native.Char.{Char, code}
use bonsai_agent.Prelude.{
  ℕ, zero, suc, ◌<◌, true, false, ◌≡◌, ◌≢◌, refl, ap, ◌∙◌, String, some, List, [], ◌∷◌, ◌==◌,
  str_eq, eq_iff, arith, Bool-cases, inl, inr,
}
use bonsai_agent.Task.{StepRecord, Engine}
use bonsai_agent.Task.Rows.{ReadsLogs}

written : String → String → String
written String.[] rest = String.◌∷◌ "." rest
written (String.◌∷◌ c s) rest = String.◌∷◌ "+" (String.◌∷◌ c (written s rest))

unfoldable pub written_log : List StepRecord → String
unfolding written
written_log [] = ""
written_log (r ∷ rs) =
    written r.description (written r.outcome (written r.timestamp (written_log rs)))

with_first : List String → Char → List String
with_first [] c = []
with_first (s ∷ ss) c = String.◌∷◌ c s ∷ ss

unfoldable pub texts : String → List String
unfolding with_first
texts String.[] = []
texts (String.◌∷◌ p String.[]) = "" ∷ []
texts (String.◌∷◌ p (String.◌∷◌ c s)) = elim (code p == b'.') [
  | true ↦ "" ∷ texts (String.◌∷◌ c s)
  | false ↦ with_first (texts s) c
]

unfoldable pub steps_of : List String → List StepRecord
steps_of (d ∷ o ∷ t ∷ rest) = record { description = d; outcome = o; timestamp = t } ∷ steps_of rest
steps_of _ = []

texts-written : (s rest : String) → texts (written s rest) ≡ s ∷ texts rest
unfolding texts written
texts-written String.[] String.[] = refl
texts-written String.[] (String.◌∷◌ c s) = refl
texts-written (String.◌∷◌ c s) rest = ap (λ ss. with_first ss c) (texts-written s rest)

steps_of-written_log : (rs : List StepRecord) → steps_of (texts (written_log rs)) ≡ rs
unfolding steps_of texts written_log
steps_of-written_log [] = refl
steps_of-written_log (r ∷ rs) =
    let last = texts-written r.timestamp (written_log rs) in
    let two =
      texts-written r.outcome (written r.timestamp (written_log rs))
      ∙ ap (λ ss. r.outcome ∷ ss) last in
    let all =
      texts-written r.description (written r.outcome (written r.timestamp (written_log rs)))
      ∙ ap (λ ss. r.description ∷ ss) two in
    ap steps_of all ∙ ap (λ ss. r ∷ ss) (steps_of-written_log rs)

-- The names of the tasks are texts of different lengths.
unfoldable pub name_of : ℕ → String
name_of zero = ""
name_of (suc n) = String.◌∷◌ "t" (name_of n)

unfoldable pub size : String → ℕ
size String.[] = 0
size (String.◌∷◌ c s) = suc (size s)

size-name_of : (n : ℕ) → size (name_of n) ≡ n
unfolding size name_of
size-name_of zero = refl
size-name_of (suc n) = ap suc (size-name_of n)

pub name_of-ne : (n : ℕ) (s : String) → size s ≢ n → str_eq s (name_of n) ≡ false
name_of-ne n s differs = elim (Bool-cases (str_eq s (name_of n))) [
  | inl same ↦ absurd (differs (ap size ((eq_iff s (name_of n)).0 same) ∙ size-name_of n))
  | inr other ↦ other
]

pub unique : (m n : ℕ) → m < n → str_eq (name_of m) (name_of n) ≡ false
unique m n h = name_of-ne n (name_of m) (λ e. omega (arith, size-name_of m))

unfoldable pub sample : Engine
unfolding name_of written_log steps_of texts
sample = record {
  to_rfc3339 = λ n. name_of n;
  new_v4 = name_of;
  is_broken = λ n. false;
  order = λ key rs. rs;
  to_json = written_log;
  from_json = λ text. some (steps_of (texts text));
}

pub sample-ReadsLogs : ReadsLogs sample
unfolding sample
sample-ReadsLogs = record {
  reads = λ steps. ap some (steps_of-written_log steps);
  reads_none = refl;
}
