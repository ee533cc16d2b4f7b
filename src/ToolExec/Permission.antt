-- ===== src/ToolExec/Permission.antt =====
-- src/tools/permission.rs and src/safety/autonomy.rs. `debug_…` is the derived `Debug` text.
use bonsai_agent.Prelude.{Bool, true, false, String}

pub data Permission : Type 0 where
  auto confirm deny : Permission

pub data DaemonPolicy : Type 0 where
  auto_only queue_for_human : DaemonPolicy

pub data PermissionDecision : Type 0 where
  allow need_confirmation queue_for_later denied : PermissionDecision

unfoldable pub check_permission : Permission → Bool → DaemonPolicy → PermissionDecision
check_permission auto is_daemon policy = allow
check_permission confirm false policy = need_confirmation
check_permission confirm true auto_only = denied
check_permission confirm true queue_for_human = queue_for_later
check_permission deny is_daemon policy = denied

pub data AutonomyLevel : Type 0 where
  read_only supervised full : AutonomyLevel

unfoldable pub can_write : AutonomyLevel → Bool
can_write read_only = false
can_write supervised = true
can_write full = true

abbrev pub debug_permission : Permission → String
debug_permission auto = "Auto"
debug_permission confirm = "Confirm"
debug_permission deny = "Deny"

abbrev pub debug_autonomy : AutonomyLevel → String
debug_autonomy read_only = "ReadOnly"
debug_autonomy supervised = "Supervised"
debug_autonomy full = "Full"
