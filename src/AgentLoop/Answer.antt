-- ===== src/AgentLoop/Answer.antt =====
-- src/agent/agent_loop/support.rs: the text of an answer.
mod Examples
use Prim.Native.Char.{code}
use bonsai_agent.Prelude.{
  ℕ, zero, suc, ◌/◌, Bool, true, false, ◌&&◌, String, ◌<>◌, count, Option, none, some, List, [],
  ◌∷◌, str_eq, contains, join, take_chars, trim_end, ltb, ◌==◌, if◌then◌else◌,
}
use bonsai_agent.Parsing.{ParsedOutput}

without_return : String → String
without_return String.[] = String.[]
without_return (String.◌∷◌ c s) =
    let rest = without_return s in
    if code c == 13 && str_eq s "" then String.[] else String.◌∷◌ c rest

-- `text.lines()`, with the line that is read so far.
lines_from : String → String → List String
unfolding without_return
lines_from line String.[] = if str_eq line "" then [] else line ∷ []
lines_from line (String.◌∷◌ c s) =
    let next = lines_from (if code c == 10 then "" else line <> String.◌∷◌ c String.[]) s in
    if code c == 10 then without_return line ∷ next else next

-- `lines.dedup()`: of equal lines in a row, one.
dedup : List String → List String
dedup [] = []
dedup (a ∷ []) = a ∷ []
dedup (a ∷ b ∷ rest) = let later = dedup (b ∷ rest) in if str_eq a b then later else a ∷ later

drop_chars : ℕ → String → String
drop_chars zero s = s
drop_chars (suc n) String.[] = String.[]
drop_chars (suc n) (String.◌∷◌ c s) = drop_chars n s

unfoldable pub clean_response : String → String
unfolding lines_from dedup drop_chars without_return
clean_response text =
    let joined = join "\n" (dedup (lines_from "" text)) in
    let half = count joined / 2 in
    let first = take_chars half joined in
    if ltb 100 (count joined) && contains (drop_chars half joined) (take_chars 30 first)
    then trim_end first
    else joined

unfoldable pub build_answer : {V : Type 0} → ParsedOutput V → String
build_answer parsed =
    let raw : String = elim parsed.text [ none ↦ "(回答なし)" | some text ↦ text ] in clean_response raw
