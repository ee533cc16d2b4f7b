-- ===== src/ToolExec/Gate/Examples.antt =====
-- A tool that counts its calls in the world.
use bonsai_agent.Prelude.{ℕ, suc, true, false, String, ◌≡◌, refl, some, inr}
use bonsai_agent.ToolExec.Permission.{confirm, auto_only, supervised, can_write}
use bonsai_agent.ToolExec.Gate.{
  Tool, ValidatedCall, Policy, run_tool, execute_single_call_with_policy,
}
use bonsai_agent.ToolExec.Gate.Granted.{granted, granted_runs}

abbrev counter : Tool ℕ String
counter = record {
  permission = confirm;
  call = λ args n. (inr (record { output = "ok"; success = true; cancelled = false }), suc n);
}

abbrev shell : ValidatedCall ℕ String
shell = record {
  name = "shell";
  args_json = "{}";
  coerced_args = "";
  tool = counter;
  is_read_only = false;
}

abbrev refusing : Policy
refusing = record {
  is_daemon = false;
  daemon_policy = auto_only;
  autonomy = supervised;
  confirm_callback = some (λ name args. false);
}

granted_runs_example :
    (granted refusing shell ≡ true
      → execute_single_call_with_policy refusing shell 0 ≡ run_tool shell 0)
    × (granted refusing shell ≡ false
        → let (r, w') = execute_single_call_with_policy refusing shell 0 in
          (w' ≡ 0)
          × (r.is_error ≡ true)
          × (r.success ≡ false)
          × (r.cancelled ≡ false)
          × (r.name ≡ "shell")
          × (r.args_json ≡ "{}"))
granted_runs_example = granted_runs refusing shell 0

refused_test : granted refusing shell ≡ false
unfolding can_write
refused_test = refl
