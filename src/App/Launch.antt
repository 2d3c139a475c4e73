-- ===== src/App/Launch.antt =====
-- src/app/launch/prepare.rs and start.rs: a prepared service becomes a record of its run and a unit of
-- the manager, here `LocalSystemd`. The unit's command is the shim, which runs the service's own.
pub mod Started
pub mod Ports
use Prim.Native.String.{◌++◌ as ◌and◌}
use devstack.Common.{
  ℕ, String, Bool, false, Option, List, [], ◌∷◌, ◌++◌, if◌then◌else◌, str_key, nat_key, mem,
}
use devstack.Common.BTreeMap.{BTreeMap}
use devstack.Model.InstanceScope.{InstanceScope, run, global}
use devstack.Model.Service.{
  ServiceState, ServiceRecord, ServiceSpec, ServiceLaunchPlan, ReadinessSpec, new_service,
}
use devstack.App.Lifecycle.{is_exit}
use devstack.Units.{
  Child, ExecStart, UnitProperties, Json, Disk, LocalSystemd, new_properties, with_restart,
  with_remain_after_exit,
}
use devstack.Units.Command.{env_items, ChildCommand, child_command}
use devstack.Units.Stop.{StopAnswers}
use devstack.Units.Manager.{Managed, stop_unit, start_transient_service}
use devstack.Units.Reaper.{World, Answer, no_unit, answer, failed, unit_status}

pub record PreparedService : Type 0 where
  pub name : String
  pub unit_name : String
  pub port : Option ℕ
  pub listen_port : Option ℕ
  pub scheme : String
  pub url : Option String
  pub capture_api : Bool
  pub capture_api_body_limit : ℕ
  pub capture_api_ignore : List String
  pub deps : List String
  pub readiness : ReadinessSpec
  pub log_path : String
  pub cwd : String
  pub env : BTreeMap String String
  pub cmd : String
  pub watch_hash : String
  pub watch_patterns : List String
  pub ignore_patterns : List String
  pub watch_extra_files : List String
  pub watch_fingerprint : List ℕ
  pub auto_restart : Bool

unfoldable pub spec_of : PreparedService → ServiceSpec
spec_of p = record {
  name = p.name;
  deps = p.deps;
  readiness = p.readiness;
  auto_restart = p.auto_restart;
  watch_patterns = p.watch_patterns;
  ignore_patterns = p.ignore_patterns;
}

unfoldable pub launch_of : PreparedService → ServiceLaunchPlan
launch_of p = record {
  unit_name = p.unit_name;
  cwd = p.cwd;
  env = p.env;
  cmd = p.cmd;
  log_path = p.log_path;
  port = p.port;
  listen_port = p.listen_port;
  scheme = p.scheme;
  url = p.url;
  capture_api = p.capture_api;
  capture_api_body_limit = p.capture_api_body_limit;
  capture_api_ignore = p.capture_api_ignore;
  watch_hash = p.watch_hash;
  watch_fingerprint = p.watch_fingerprint;
  watch_extra_files = p.watch_extra_files;
}

unfoldable pub into_service_record :
    ServiceState → Option String → Option String → PreparedService → ServiceRecord
into_service_record state last_failure last_started_at p =
    let r = new_service (spec_of p) (launch_of p) in
    record r {
      runtime = record (r.runtime) {
        state = state;
        last_failure = last_failure;
        last_started_at = last_started_at;
      };
    }

unfoldable pub scope_identifier : InstanceScope → String
scope_identifier (run run_id stack) = run_id
scope_identifier (global key project_dir name) = key

unfoldable pub scope_label : InstanceScope → String
scope_label (run run_id stack) = run_id
scope_label (global key project_dir name) = "global:" and key

abbrev pub shim_args : InstanceScope → PreparedService → List String
shim_args scope p =
    "__shim"
    ∷ "--run-id"
    ∷ scope_identifier scope
    ∷ "--service"
    ∷ p.name
    ∷ "--cmd"
    ∷ p.cmd
    ∷ "--cwd"
    ∷ p.cwd
    ∷ "--log-file"
    ∷ p.log_path
    ∷ []

unfoldable pub exec_of : String → InstanceScope → PreparedService → ExecStart
exec_of binary scope p = record {
  path = binary;
  argv = binary ∷ shim_args scope p;
  ignore_failure = false;
}

unfoldable pub properties_of : String → InstanceScope → PreparedService → UnitProperties
properties_of binary scope p = with_remain_after_exit (is_exit p.readiness.kind) (
    with_restart "no" (
      new_properties ("devstack " and (scope_label scope and (" " and p.name))) p.cwd
        (env_items p.env) (exec_of binary scope p)))

-- A unit that is still busy is asked about again.
unfoldable pub is_busy : Answer → Bool
is_busy no_unit = false
is_busy failed = false
is_busy (answer status) =
    mem status.active_state
      ("active" ∷ "activating" ∷ "deactivating" ∷ "reloading" ∷ "maintenance" ∷ [])

-- `for _ in 0..50`; `worlds` are the operating system's answers at each turn.
unfoldable pub wait_inactive :
    {Bytes : Type 0}
    → Json Bytes
    → Disk
    → String
    → List World
    → LocalSystemd Bytes
    → LocalSystemd Bytes
wait_inactive json disk name [] st = st
wait_inactive json disk name (world ∷ worlds) st =
    let (reply, st') = unit_status json disk world name st in
    let rest = wait_inactive json disk name worlds st' in if is_busy reply then rest else st'

-- What the operating system answers in the course of a launch. `worlds` are the 50 turns of the wait, and
-- `spawn` is the child that it starts for a command, if it does.
pub record LaunchAnswers : Type 0 where
  pub stop : StopAnswers
  pub worlds : List World
  pub start : StopAnswers
  pub spawn : ChildCommand → Option Child

unfoldable pub start_prepared_service :
    {Bytes : Type 0}
    → Json Bytes
    → Disk
    → LaunchAnswers
    → String
    → InstanceScope
    → PreparedService
    → Bool
    → LocalSystemd Bytes
    → Managed Bytes
start_prepared_service json disk a binary scope p restart_existing st =
    let stopped = stop_unit json disk a.stop p.unit_name st in
    let props = properties_of binary scope p in
    let spawned = a.spawn (child_command props) in
    let restarted =
      start_transient_service json disk a.start spawned p.unit_name props
        (wait_inactive json disk p.unit_name a.worlds stopped.state) in
    let started = start_transient_service json disk a.start spawned p.unit_name props st in
    if restart_existing
    then record restarted { kills = stopped.kills ++ restarted.kills }
    else started
