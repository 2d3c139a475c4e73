-- ===== src/Model/Run.antt =====
-- src/model/run.rs: a run of a stack.

use devstack.Common.{String, Bool, true, false, not, Option, none, some, [], str_key, nat_key}
use devstack.Common.BTreeMap.{BTreeMap, get, insert, remove}
use devstack.Model.Service.{ServiceRecord}

pub data RunLifecycle : Type 0 where
  starting running degraded stopped : RunLifecycle

abbrev pub same_lifecycle : RunLifecycle → RunLifecycle → Bool
same_lifecycle starting starting = true
same_lifecycle running running = true
same_lifecycle degraded degraded = true
same_lifecycle stopped stopped = true
same_lifecycle _ _ = false

pub record RunRecord : Type 0 where
  pub run_id : String
  pub stack : String
  pub project_dir : String
  pub config_dir : String
  pub base_env : BTreeMap String String
  pub services : BTreeMap String ServiceRecord
  pub state : RunLifecycle
  pub created_at : String
  pub stopped_at : Option String

unfoldable pub new_run :
    String → (run_id stack project_dir config_dir : String) → BTreeMap String String → RunRecord
new_run now run_id stack project_dir config_dir base_env = record {
  run_id = run_id;
  stack = stack;
  project_dir = project_dir;
  config_dir = config_dir;
  base_env = base_env;
  services = [];
  state = starting;
  created_at = now;
  stopped_at = none;
}

unfoldable pub is_stopped : RunRecord → Bool
is_stopped run = same_lifecycle run.state stopped

unfoldable pub is_active : RunRecord → Bool
unfolding is_stopped
is_active run = not (is_stopped run)

unfoldable pub get_service : String → RunRecord → Option ServiceRecord
get_service name run = get name run.services

unfoldable pub insert_service : String → ServiceRecord → RunRecord → RunRecord
insert_service name service run = record run { services = insert name service run.services }

unfoldable pub remove_service : String → RunRecord → Option ServiceRecord × RunRecord
remove_service name run =
    (get name run.services, record run { services = remove name run.services })

unfoldable pub mark_stopped : String → RunRecord → RunRecord
mark_stopped now run = record run { state = stopped; stopped_at = some now }
