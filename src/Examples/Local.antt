-- ===== src/Examples/Local.antt =====
-- A service of the local manager that is launched, seen by the reaper, and crashes.

use devstack.Common.{
  String, ◌≡◌, refl, ◌≢◌, true, false, not, none, some, List, [], ◌∷◌, if◌then◌else◌, str_key,
  nat_key,
}
use devstack.Common.BTreeMap.{BTreeMap, get, contains_key}
use devstack.Common.Int.{ℤ, pos}
use devstack.Ports.{KillReply, delivered, no_process}
use devstack.Model.Service.{ReadinessKind}
use devstack.Model.InstanceScope.{InstanceScope}
use devstack.Units.{
  ExecStart, UnitProperties, PersistedLocalUnit, LocalUnit, LocalExitStatus, Child, Json,
  LocalSystemd, with_registry_path,
}
use devstack.Units.Stop.{
  StopAnswers, to_group, elapsed, wait_error, stop_and_reap, saw_end, sigkill,
}
use devstack.Units.Command.{has_no_equals}
use devstack.Units.Reaper.{World, TryWait, reap, unit_status, still_running}
use devstack.Units.Synced.{
  RoundTrips, Section, put, reap_pass, perform_all, without_child, working_disk,
}
use devstack.Units.Restarted.{first_start, survives, with_registry_path-perform_all}
use devstack.Units.Stop.{stop_and_reap_lem}
use devstack.Units.Reported.{agrees, unit_status-reap}
use devstack.App.Launch.{PreparedService, LaunchAnswers, start_prepared_service}
use devstack.App.Launch.Started.{Launched, start_prepared_service_lem}

abbrev Bytes : Type 0
Bytes = BTreeMap String PersistedLocalUnit

abbrev json : Json Bytes
json = record { to_vec_pretty = some; from_slice = some }

json-RoundTrips : RoundTrips json
json-RoundTrips m = (m, refl, refl)

abbrev exec : ExecStart
exec = record { path = "/bin/run"; argv = "/bin/run" ∷ "serve" ∷ []; ignore_failure = false }

abbrev props : UnitProperties
props = record {
  description = "web";
  working_directory = "/";
  environment = "A=1" ∷ [];
  exec_start = exec;
  kill_mode = "control-group";
  kill_signal = 2;
  timeout_stop_usec = 2000000;
  send_sigkill = true;
  restart = "no";
  restart_usec = 250000;
  start_limit_interval_usec = 30000000;
  start_limit_burst = 20;
  remain_after_exit = false;
}

abbrev child : Child
child = record { id = some 42 }

abbrev all_there : ℤ → KillReply
all_there pgid = delivered

abbrev running : World
running = record { try_wait = λ c. still_running; probe = all_there }

abbrev sections : List Section
sections = put "web" props child ∷ reap_pass running ∷ []

abbrev before : LocalSystemd Bytes
before = perform_all json sections first_start

with_registry_path-perform_all_example :
    get "web" (with_registry_path json working_disk all_there before.registry).units
    ≡ elim (get "web" before.units) [
      | none ↦ none
      | some unit ↦ if survives all_there unit then some (without_child unit) else none
    ]
with_registry_path-perform_all_example =
    with_registry_path-perform_all json json-RoundTrips sections all_there "web"

abbrev unit : LocalUnit
unit = record { props = props; child = some child; pgid = some (pos 42); last_status = none }

abbrev no_answer : StopAnswers
no_answer = record {
  wait = elapsed;
  wait_again = elapsed;
  polls = record { before = []; after = true };
  polls_again = record { before = []; after = true };
}

stop_and_reap_lem_example :
    (stop_and_reap no_answer 15 unit).kills
    ≡ to_group (pos 42) 15 ∷ (if saw_end no_answer unit then [] else to_group (pos 42) sigkill ∷ [])
stop_and_reap_lem_example = stop_and_reap_lem no_answer 15 unit (pos 42) refl

abbrev crash : LocalExitStatus
crash = record { success = false; code = some (pos 1) }

abbrev crashing : World
crashing = record { try_wait = λ c. TryWait.exited crash; probe = λ pgid. no_process }

abbrev manager : LocalSystemd Bytes
manager = record { units = ("web", unit) ∷ []; registry = none }

unit_status-reap_example :
    agrees
      (unit_status json working_disk crashing "web" manager).0
      (not (contains_key "web" (reap json working_disk crashing manager).units))
    ≡ true
unit_status-reap_example =
    unit_status-reap json working_disk crashing "web" unit manager (refl, tt) refl

abbrev pub prepared : PreparedService
prepared = record {
  name = "web";
  unit_name = "web";
  port = some 4001;
  listen_port = some 4001;
  scheme = "http";
  url = none;
  capture_api = false;
  capture_api_body_limit = 0;
  capture_api_ignore = [];
  deps = [];
  readiness = record { kind = ReadinessKind.exit; timeout = 30000 };
  log_path = "/log";
  cwd = "/project";
  env = ("A", "x=y") ∷ [];
  cmd = "serve";
  watch_hash = "h";
  watch_patterns = [];
  ignore_patterns = [];
  watch_extra_files = [];
  watch_fingerprint = [];
  auto_restart = false;
}

abbrev answers : LaunchAnswers
answers = record {
  stop = no_answer;
  worlds = crashing ∷ [];
  start = no_answer;
  spawn = λ command. some child;
}

abbrev scope : InstanceScope
scope = InstanceScope.run "1" "dev"

not_failed : no_answer.wait ≢ wait_error
not_failed e = cc

names : has_no_equals "A" ≡ true
unfolding has_no_equals
names = refl

start_prepared_service_lem_example :
    Launched json working_disk scope prepared "devstack" answers child refl not_failed
      (names, tt)
      (start_prepared_service json working_disk answers "devstack" scope prepared true manager)
start_prepared_service_lem_example =
    start_prepared_service_lem json working_disk scope prepared "devstack" answers child refl
      not_failed (names, tt) true manager
