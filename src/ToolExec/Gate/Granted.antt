-- ===== src/ToolExec/Gate/Granted.antt =====
-- When a tool runs.
use bonsai_agent.Prelude.{Bool, true, false, ◌&&◌, ◌||◌, not, ◌≡◌, Option, some, arith}
use bonsai_agent.ToolExec.Permission.{
  Permission, auto, confirm, deny, AutonomyLevel, supervised, full, can_write, check_permission,
}
use bonsai_agent.ToolExec.Gate.{
  ValidatedCall, Policy, ConfirmCheck, run_tool, execute_single_call_with_policy,
}

module _ {W V : Type 0} where
  -- The user has agreed, or need not be asked.
  abbrev pub agreed : ValidatedCall W V → AutonomyLevel → Option ConfirmCheck → Bool
  agreed call full callback = true
  agreed call supervised (some check) = check call.name call.args_json
  agreed call _ _ = false

  abbrev pub granted_by : ValidatedCall W V → Policy → Permission → Bool
  granted_by call p auto = true
  granted_by call p confirm = not p.is_daemon && agreed call p.autonomy p.confirm_callback
  granted_by call p deny = false

  -- The tool may run: it writes nothing or the autonomy lets it write, and it needs no confirmation,
  -- or no daemon asks for it and it is confirmed.
  abbrev pub granted : Policy → ValidatedCall W V → Bool
  granted p call =
      (call.is_read_only || can_write p.autonomy) && granted_by call p call.tool.permission

  -- The tool is called, with its coerced arguments and once, exactly when it is granted; otherwise
  -- the world is untouched, and the result is a failure with the call's own name and arguments. So is
  -- the result of a call that a daemon is to queue for a human, which is put nowhere.
  pub granted_runs :
      (p : Policy) (call : ValidatedCall W V) (w : W)
      → (granted p call ≡ true → execute_single_call_with_policy p call w ≡ run_tool call w)
        × (granted p call ≡ false
            → let (r, w') = execute_single_call_with_policy p call w in
              (w' ≡ w)
              × (r.is_error ≡ true)
              × (r.success ≡ false)
              × (r.cancelled ≡ false)
              × (r.name ≡ call.name)
              × (r.args_json ≡ call.args_json))
  unfolding execute_single_call_with_policy check_permission can_write
  granted_runs p call w = ground arith
