-- ===== src/ToolExec/Apply/Learning.antt =====
-- src/agent/tool_exec.rs: what is learned from the results of many calls.
use bonsai_agent.Prelude.{
  ℕ, suc, ◌-◌, Bool, not, ◌&&◌, ◌||◌, String, ◌≡◌, refl, sym, ap, ◌∙◌, none, some, List, [], ◌∷◌,
  ◌++◌, arith, str_eq, ltb, leb, ◌==◌, take_last, take_last-nil, take_last-push, append-nil,
  trim-eq-take_last, if◌then◌else◌, Bool-cases, inl, inr,
}
use bonsai_agent.Recovery.Breaker as Breaker
use bonsai_agent.Recovery.Breaker.History as Calls
use bonsai_agent.Recovery.Trials as Trials
use bonsai_agent.ToolExec.Gate.{ToolExecResult}
use bonsai_agent.ToolExec.Apply.{Json, Trace, apply_tool_result, and_then, path_member}

-- A result that is applied in an iteration and at a time.
pub record Applied : Type 0 where
  pub result : ToolExecResult
  pub iteration : ℕ
  pub now : ℕ

-- A failure that the user did not cause.
abbrev pub is_lesson : ToolExecResult → Bool
is_lesson r = (r.is_error || not r.success) && not r.cancelled

abbrev pub is_success : ToolExecResult → Bool
is_success r = not r.is_error && r.success

-- The lessons from a tool since its last success, of results of which the newest is the first, and
-- the time of the newest of them.
abbrev pub failures : String → List Applied → ℕ
failures tool [] = 0
failures tool (a ∷ older) =
    let n = failures tool older in
    if not (str_eq a.result.name tool)
    then n
    else if is_success a.result
    then 0
    else if is_lesson a.result
    then suc n
    else n

abbrev pub last_failed : String → List Applied → ℕ
last_failed tool [] = 0
last_failed tool (a ∷ older) =
    let n = last_failed tool older in
    if str_eq a.result.name tool && is_lesson a.result then a.now else n

-- One more trial.
one_more :
    (n : ℕ) (s : Trials.TrialSummary) (past : List Trials.TrialEntry) (name args output : String)
    (iteration : ℕ)
    → s.entries ≡ take_last n past
    → s.max_entries ≡ n
    → ((Trials.record_failure s name args output iteration).entries
        ≡ take_last n (past ++ Trials.trial name args output iteration ∷ []))
      × ((Trials.record_failure s name args output iteration).max_entries ≡ n)
unfolding Trials.record_failure
one_more n s past name args output iteration entries limit =
    let x = Trials.trial name args output iteration in
    (
      trim-eq-take_last s.max_entries (s.entries ++ x ∷ [])
          ∙ ap (λ k. take_last k (s.entries ++ x ∷ [])) limit
          ∙ ap (λ es. take_last n (es ++ x ∷ [])) entries
          ∙ take_last-push n past x,
      limit,
    )

module _ {V : Type 0} (json : Json V) (mask : String → String) (truncate : String → ℕ → String)
    (max_output_chars : ℕ) where
  -- The trace after results, of which the newest is the first.
  unfoldable pub trace_after : Trace → List Applied → Trace
  trace_after t [] = t
  trace_after t (a ∷ older) =
      apply_tool_result json mask truncate a.result a.iteration a.now max_output_chars
        (trace_after t older)

  -- The redacted lessons, the oldest first.
  abbrev pub lessons : List Applied → List Trials.TrialEntry
  lessons [] = []
  lessons (a ∷ older) =
      let r = a.result in
      lessons older
      ++ (if is_lesson r
          then Trials.trial r.name (mask r.args_json) (mask r.output) a.iteration ∷ []
          else [])

  -- The same for the breaker alone.
  calls : List Applied → List Calls.Call
  calls [] = []
  calls (a ∷ older) =
      let rest = calls older in
      if is_success a.result
      then Calls.succeeded a.result.name ∷ rest
      else if is_lesson a.result
      then Calls.failed a.result.name a.now ∷ rest
      else rest

  calls-failures :
      (tool : String) (h : List Applied)
      → (Calls.streak tool (calls h) ≡ failures tool h)
        × (Calls.last_failure tool (calls h) ≡ last_failed tool h)
  unfolding calls
  calls-failures tool [] = (refl, refl)
  calls-failures tool (a ∷ older) = ground (arith, calls-failures tool older)

  breaker-applied :
      (a : Applied) (t : Trace)
      → (apply_tool_result json mask truncate a.result a.iteration a.now max_output_chars
          t).circuit_breaker
        ≡ (if is_success a.result
            then Breaker.record_success t.circuit_breaker a.result.name
            else if is_lesson a.result
            then Breaker.record_failure t.circuit_breaker a.now a.result.name
            else t.circuit_breaker)
  unfolding apply_tool_result
  breaker-applied a t =
      let file_path = and_then (json.parse (mask a.result.args_json)) (path_member json) in
      elim file_path [ none ↦ ground arith | some path ↦ ground arith ]

  trials-applied :
      (a : Applied) (t : Trace)
      → (apply_tool_result json mask truncate a.result a.iteration a.now max_output_chars
          t).trial_summary
        ≡ (if is_lesson a.result
            then Trials.record_failure t.trial_summary a.result.name
                (mask a.result.args_json)
                (mask a.result.output)
                a.iteration
            else t.trial_summary)
  unfolding apply_tool_result
  trials-applied a t =
      let file_path = and_then (json.parse (mask a.result.args_json)) (path_member json) in
      elim file_path [ none ↦ ground arith | some path ↦ ground arith ]

  module _ (t : Trace) (threshold cooldown max_entries : ℕ)
      (closed : t.circuit_breaker ≡ Breaker.new threshold cooldown)
      (no_trials : t.trial_summary ≡ Trials.new max_entries) where
    breaker-after :
        (h : List Applied)
        → (trace_after t h).circuit_breaker ≡ Calls.after threshold cooldown (calls h)
    unfolding trace_after calls
    breaker-after [] = closed
    breaker-after (a ∷ older) =
        breaker-applied a (trace_after t older) ∙ (elim (Bool-cases (is_success a.result)) [
          | inl good ↦
              rw good (ap (λ b. Breaker.record_success b a.result.name) (breaker-after older))
          | inr bad ↦ elim (Bool-cases (is_lesson a.result)) [
            | inl lesson ↦
                rw (bad, lesson)
                  (ap (λ b. Breaker.record_failure b a.now a.result.name) (breaker-after older))
            | inr none_learned ↦ rw (bad, none_learned) (breaker-after older)
          ]
        ])

    trials-after :
        (h : List Applied)
        → ((trace_after t h).trial_summary.entries ≡ take_last max_entries (lessons h))
          × ((trace_after t h).trial_summary.max_entries ≡ max_entries)
    unfolding trace_after Trials.record_failure
    trials-after [] = rw no_trials (sym (take_last-nil max_entries), refl)
    trials-after (a ∷ older) =
        let (entries, limit) = trials-after older in
        let r = a.result in
        rw (trials-applied a (trace_after t older)) (elim (Bool-cases (is_lesson r)) [
          | inl lesson ↦ rw lesson (
              one_more max_entries (trace_after t older).trial_summary (lessons older) r.name
                (mask r.args_json) (mask r.output) a.iteration entries limit)
          | inr nothing ↦ rw (nothing, append-nil) (entries, limit)
        ])

    -- Whatever results are applied to a trace with a closed breaker and no trials: a tool is blocked
    -- exactly while it has failed `threshold` times or more, at least once, since its last success,
    -- and the last of these failures is within the cooldown; the trials are the newest `max_entries`
    -- failures, redacted, in order. A failure that the user caused by cancelling counts for neither.
    pub trace_after-learned :
        (h : List Applied) (tool : String) (now : ℕ)
        → (Breaker.is_available (trace_after t h).circuit_breaker now tool ≡ (
            failures tool h == 0
            || ltb (failures tool h) threshold
            || leb cooldown (now - last_failed tool h)))
          × ((trace_after t h).trial_summary.entries ≡ take_last max_entries (lessons h))
    trace_after-learned h tool now =
        let (streak, last) = calls-failures tool h in
        (
          rw (breaker-after h, sym streak, sym last)
              (Calls.is_available-after threshold cooldown (calls h) tool now).0,
          (trials-after h).0,
        )
