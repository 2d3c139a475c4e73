-- ===== src/Model/InstanceScope.antt =====
-- src/model/instance_scope.rs: what a service belongs to, a run or the machine.

use devstack.Common.{String, Bool, true, false, Option, none, some, str_key, nat_key}

pub data InstanceScope : Type 0 where
  run : (run_id stack : String) → InstanceScope
  global : (key project_dir name : String) → InstanceScope

unfoldable pub is_run : InstanceScope → Bool
is_run (run id stack) = true
is_run (global key project_dir name) = false

unfoldable pub is_global : InstanceScope → Bool
is_global (run id stack) = false
is_global (global key project_dir name) = true

unfoldable pub scope_run_id : InstanceScope → Option String
scope_run_id (run id stack) = some id
scope_run_id (global key project_dir name) = none

unfoldable pub scope_project_dir : InstanceScope → Option String
scope_project_dir (run id stack) = none
scope_project_dir (global key project_dir name) = some project_dir
