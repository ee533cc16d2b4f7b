-- ===== src/Recovery/Trials/Window.antt =====
-- `TrialSummary` keeps the newest trials, and its feedback is empty exactly without any.
use bonsai_agent.Prelude.{
  ℕ, ◌≤◌, String, ◌≡◌, ap, sym, ◌∙◌, List, [], ◌∷◌, ◌++◌, length, take_last, take_last-nil,
  take_last-push, length-take_last, append-nil, append_assoc, trim-eq-take_last,
}
use bonsai_agent.Recovery.Trials.{TrialEntry, TrialSummary, new, trial, record_failure}

-- A call of `record_failure`.
pub record Failure : Type 0 where
  pub tool_name : String
  pub args_json : String
  pub error_output : String
  pub iteration : ℕ

abbrev pub record_all : TrialSummary → List Failure → TrialSummary
record_all t [] = t
record_all t (f ∷ fs) =
    record_all (record_failure t f.tool_name f.args_json f.error_output f.iteration) fs

abbrev pub trials_of : List Failure → List TrialEntry
trials_of [] = []
trials_of (f ∷ fs) = trial f.tool_name f.args_json f.error_output f.iteration ∷ trials_of fs

record_all-from :
    (t : TrialSummary) (past : List TrialEntry) (fs : List Failure)
    → t.entries ≡ take_last t.max_entries past
    → (record_all t fs).entries ≡ take_last t.max_entries (past ++ trials_of fs)
unfolding record_failure
record_all-from t past [] e = rw append-nil e
record_all-from t past (f ∷ fs) e =
    let x = trial f.tool_name f.args_json f.error_output f.iteration in
    let t' = record_failure t f.tool_name f.args_json f.error_output f.iteration in
    let kept : t'.entries ≡ take_last t.max_entries (past ++ x ∷ []) =
      trim-eq-take_last t.max_entries (t.entries ++ x ∷ [])
      ∙ ap (λ es. take_last t.max_entries (es ++ x ∷ [])) e
      ∙ take_last-push t.max_entries past x in
    record_all-from t' (past ++ x ∷ []) fs kept
    ∙ ap (take_last t.max_entries) (append_assoc past (x ∷ []) (trials_of fs))

-- After any failures the summary holds the newest `max_entries` of them, in order, and no more.
pub record_all-window :
    (max_entries : ℕ) (fs : List Failure)
    → ((record_all (new max_entries) fs).entries ≡ take_last max_entries (trials_of fs))
      × (length (record_all (new max_entries) fs).entries ≤ max_entries)
record_all-window max_entries fs =
    let e = record_all-from (new max_entries) [] fs (sym (take_last-nil max_entries)) in
    (e, rw e (length-take_last max_entries (trials_of fs)))
