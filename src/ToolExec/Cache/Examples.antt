-- ===== src/ToolExec/Cache/Examples.antt =====
-- A cache with JSON values that are their own texts.
use bonsai_agent.Prelude.{
  true, false, String, ◌<>◌, ◌≡◌, refl, some, none, str_eq, starts_with, if◌then◌else◌, lookup,
}
use bonsai_agent.ToolExec.Gate.{ToolResult}
use bonsai_agent.ToolExec.Cache.{new, make_key, get, put, invalidate, clear}
use bonsai_agent.ToolExec.Cache.Contents.{answer, answer_after}

abbrev text : String → String
text s = s

abbrev result : ToolResult
result = record { output = "x"; success = true; cancelled = false }

answer_after_case :
    (answer text (put text "file_read" "a" result new) "file_read" "b" ≡ (
      if str_eq (make_key text "file_read" "a") (make_key text "file_read" "b")
      then some result
      else answer text new "file_read" "b"))
    × (answer text (invalidate "file_read" new) "file_read" "b" ≡ (
        if starts_with (make_key text "file_read" "b") ("file_read" <> ":")
        then none
        else answer text new "file_read" "b"))
answer_after_case = answer_after text new "file_read" "file_read" "a" "b" result

misses_test : (get text "file_read" "a" (clear new)).1.misses ≡ 1
unfolding get clear lookup
misses_test = refl
