-- ===== src/Recovery/LoopDetector/Examples.antt =====
-- A detector that watches ten actions and reports three alike. Texts are hashed to their lengths.
use bonsai_agent.Prelude.{
  true, String, len, ◌≡◌, ◌≢◌, refl, Option, none, some, List, [], ◌∷◌, arith, str_eq,
  if◌then◌else◌,
}
use bonsai_agent.Recovery.LoopDetector.{
  LoopDetector, default, record_and_check, reset, salient_hash, with_frequency_threshold,
}
use bonsai_agent.Recovery.LoopDetector.History.{
  Tracks, has_loop, new-Tracks, record_and_check-Tracks,
}
use bonsai_agent.Recovery.LoopDetector.Repeats.{repeats_reported, alternation_reported}

abbrev keys : String → Option (List String)
keys s = none

abbrev after : List String → LoopDetector
after [] = default
after (a ∷ earlier) = (record_and_check keys len (after earlier) a).0

tracks₁ : Tracks keys len (after ("ls" ∷ [])) ("ls" ∷ [])
tracks₁ = (record_and_check-Tracks keys len default [] "ls" (new-Tracks keys len 10 3)).0

tracks₂ : Tracks keys len (after ("ls" ∷ "ls" ∷ [])) ("ls" ∷ "ls" ∷ [])
tracks₂ = (record_and_check-Tracks keys len (after ("ls" ∷ [])) ("ls" ∷ []) "ls" tracks₁).0

record_and_check-Tracks_example :
    Tracks keys len (record_and_check keys len (after ("ls" ∷ [])) "cat").0 ("ls" ∷ "cat" ∷ [])
    × ((record_and_check keys len (after ("ls" ∷ [])) "cat").1
        ≡ has_loop keys len (after ("ls" ∷ [])) ("ls" ∷ "cat" ∷ []))
record_and_check-Tracks_example =
    record_and_check-Tracks keys len (after ("ls" ∷ [])) ("ls" ∷ []) "cat" tracks₁

repeats_reported_case : (record_and_check keys len (after ("ls" ∷ "ls" ∷ [])) "ls").1 ≡ true
repeats_reported_case =
    repeats_reported keys len (after ("ls" ∷ "ls" ∷ [])) [] 2 "ls" tracks₂
      (unfold record_and_check in refl) (unfold record_and_check in omega arith)

alternating₂ : Tracks keys len (after ("cat" ∷ "ls" ∷ [])) ("ls" ∷ "cat" ∷ [])
alternating₂ = (record_and_check-Tracks keys len (after ("ls" ∷ [])) ("ls" ∷ []) "cat" tracks₁).0

alternating₃ : Tracks keys len (after ("ls" ∷ "cat" ∷ "ls" ∷ [])) ("ls" ∷ "cat" ∷ "ls" ∷ [])
alternating₃ =
    (record_and_check-Tracks keys len (after ("cat" ∷ "ls" ∷ [])) ("ls" ∷ "cat" ∷ []) "ls"
      alternating₂).0

different : salient_hash keys len "ls" ≢ salient_hash keys len "cat"
unfolding salient_hash
different = omega arith

alternation_reported_case :
    (record_and_check keys len (after ("ls" ∷ "cat" ∷ "ls" ∷ [])) "cat").1 ≡ true
alternation_reported_case =
    alternation_reported keys len (after ("ls" ∷ "cat" ∷ "ls" ∷ [])) [] "ls" "cat" alternating₃
      different (unfold record_and_check in omega arith)

reset_test : (reset (with_frequency_threshold (after ("ls" ∷ [])) 5)).recent_actions ≡ []
unfolding reset with_frequency_threshold
reset_test = refl

sorted_keys_test :
    salient_hash
      (λ s. some ("b" ∷ "a" ∷ []))
      (λ s. if str_eq s "shell:a,b" then 1 else 0)
      "shell:{}"
    ≡ 1
unfolding salient_hash
sorted_keys_test = refl
