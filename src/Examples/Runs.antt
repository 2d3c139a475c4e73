-- ===== src/Examples/Runs.antt =====
-- A run with two services, whose tasks report one of them ready, then degraded, before the run is
-- stopped.

use devstack.Common.BTreeMap.{insert}
use devstack.Common.Outcome.{ok, err}
use devstack.Common.{
  String, ◌≡◌, refl, ◌≢◌, ◌⊎◌, inr, true, false, Option, none, some, List, [], ◌∷◌, ◌++◌,
  if◌then◌else◌, str_key, nat_key, ◌==◌, length,
}
use devstack.Model.Service.{
  ServiceState, ServiceRecord, ServiceSpec, ServiceLaunchPlan, ReadinessKind, default_runtime,
  set_state,
}
use devstack.Model.Run.{RunLifecycle, RunRecord, is_stopped}
use devstack.Model.Event.{DaemonEvent}
use devstack.App.Status.{
  SystemdStatus, derived_states, derived_state, unit_failed, has_failed, reported_state,
}
use devstack.App.Reconcile.{
  reconcile_run, run_status, reconcile_services, service_statuses, reconcile_state,
}
use devstack.App.Status.Reported.{reported_state-healthy, reported_state-failed}
use devstack.Stores.Runs.Lookups.{create_run_lem}
use devstack.Stores.Runs.{
  RunStore, StoreError, create_run, get_run, contains_run, recompute_run_state, set_service_state,
  next_state, scan_states, scan_state,
}
use devstack.Stores.Runs.Recompute.{Recomputed, recompute_run_state-Recomputed}
use devstack.App.Lifecycle.{
  mark_service_ready, apply_transition, change_state, degrade_edit, edit_service, mark_degraded,
  ready_edit, stop_run, stop_services, then_recompute, with_monitor,
}
use devstack.App.Lifecycle.View.{view, replay}
use devstack.App.Lifecycle.Steps.{
  Steps, done, step_then, step_ready, step_health, step_stop, IsSettled, Steps-replay,
  Steps-stopped, Steps-IsSettled,
}

abbrev spec : String → ServiceSpec
spec name = record {
  name = name;
  deps = [];
  readiness = record { kind = ReadinessKind.tcp; timeout = 30000 };
  auto_restart = false;
  watch_patterns = [];
  ignore_patterns = [];
}

abbrev launch : String → ServiceLaunchPlan
launch name = record {
  unit_name = name;
  cwd = "/";
  env = [];
  cmd = "run";
  log_path = "/log";
  port = some 4001;
  listen_port = some 4001;
  scheme = "http";
  url = none;
  capture_api = false;
  capture_api_body_limit = 0;
  capture_api_ignore = [];
  watch_hash = "";
  watch_fingerprint = [];
  watch_extra_files = [];
}

abbrev pub service : String → ServiceState → ServiceRecord
service name state = record {
  spec = spec name;
  launch = launch name;
  runtime = record default_runtime { state = state };
  handles = record { health = none; watch = none; api_capture = none };
}

abbrev pub run : RunRecord
run = record {
  run_id = "1";
  stack = "dev";
  project_dir = "/project";
  config_dir = "/project";
  base_env = [];
  services =
      ("api", service "api" ServiceState.starting) ∷ ("db", service "db" ServiceState.ready) ∷ [];
  state = RunLifecycle.starting;
  created_at = "t0";
  stopped_at = none;
}

abbrev after_ready : List DaemonEvent × RunRecord
after_ready = mark_service_ready "t1" "1" "api" 7 run

abbrev after_check : List DaemonEvent × RunRecord
after_check = apply_transition mark_degraded "t2" after_ready.1.run_id "db" after_ready.1

abbrev after_stop : List DaemonEvent × RunRecord
after_stop = stop_run "t3" after_check.1.run_id after_check.1

abbrev events : List DaemonEvent
events = after_ready.0 ++ (after_check.0 ++ (after_stop.0 ++ []))

taken-Steps : Steps run events after_stop.1
taken-Steps =
    step_then (step_ready "t1" "api" 7)
      (step_then (step_health mark_degraded "t2" "db") (step_then (step_stop "t3") done))

-- Seven events: `api` ready and the run running, `db` degraded and the run degraded, and the stop of both services and of the run.
event_count : length events ≡ 7
unfolding mark_service_ready edit_service ready_edit with_monitor change_state set_service_state
    set_state then_recompute recompute_run_state next_state scan_states scan_state apply_transition
    degrade_edit stop_run stop_services
event_count = refl

Steps-replay_example : replay "1" events (view run) ≡ view after_stop.1
Steps-replay_example =
    Steps-replay {run = run} {run' = after_stop.1} {events = events} (refl, (refl, tt)) taken-Steps

settled-Steps : Steps after_ready.1 (after_check.0 ++ []) after_check.1
settled-Steps = step_then (step_health mark_degraded "t2" "db") done

ready-IsSettled : IsSettled after_ready.1
unfolding mark_service_ready edit_service ready_edit with_monitor change_state set_service_state
    set_state then_recompute recompute_run_state next_state scan_states scan_state
ready-IsSettled = inr refl

Steps-IsSettled_example : IsSettled after_check.1
Steps-IsSettled_example =
    Steps-IsSettled {run = after_ready.1} {run' = after_check.1} ready-IsSettled settled-Steps

-- A late report after the stop.
abbrev stopped : RunRecord
stopped = after_stop.1

abbrev after_late : List DaemonEvent × RunRecord
after_late = mark_service_ready "t4" stopped.run_id "api" 8 stopped

late_step : Steps stopped (after_late.0 ++ []) after_late.1
late_step = step_then (step_ready "t4" "api" 8) done

stopped-is_stopped : is_stopped stopped ≡ true
unfolding is_stopped stop_run
stopped-is_stopped = refl

Steps-stopped_example : is_stopped after_late.1 ≡ true
Steps-stopped_example =
    Steps-stopped {run = stopped} {run' = after_late.1} stopped-is_stopped late_step

recompute_run_state-Recomputed_example :
    Recomputed run (recompute_run_state run).0 (recompute_run_state run).1
recompute_run_state-Recomputed_example = recompute_run_state-Recomputed run

-- Every unit is active, but that of `db` in the second answer.
abbrev healthy : String → Option SystemdStatus
healthy name =
    some (record { active_state = "active"; sub_state = "running"; result = some "success" })

abbrev db_crashed : String → Option SystemdStatus
db_crashed name =
    if name == "db"
    then some (record { active_state = "failed"; sub_state = "failed"; result = some "exit-code" })
    else healthy name

none_failed : (name : String) → has_failed run.state (healthy name) ≡ false
unfolding unit_failed
none_failed name = refl

reported_state-healthy_example : reported_state healthy run ≡ RunLifecycle.starting
reported_state-healthy_example = reported_state-healthy healthy run none_failed refl

abbrev db_unit : SystemdStatus
db_unit = record { active_state = "failed"; sub_state = "failed"; result = some "exit-code" }

run-active : is_stopped run ≡ false
unfolding is_stopped
run-active = refl

db-failed : unit_failed db_unit ≡ true
unfolding unit_failed
db-failed = refl

db-going : ServiceState.ready ≢ ServiceState.stopped
db-going e = cc

reported_state-failed_example : reported_state db_crashed run ≡ RunLifecycle.degraded
reported_state-failed_example =
    reported_state-failed db_crashed run "db" (service "db" ServiceState.ready) db_unit run-active
      refl refl db-failed db-going

abbrev store : RunStore
store = ("1", run) ∷ []

create_run_lem_example :
    ((contains_run "1" store ≡ true) × (create_run run store ≡ err StoreError.already_exists))
    ⊎ ((store' : RunStore) × (get_run "1" store ≡ none)
        × (create_run run store ≡ ok store')
        × (get_run "1" store' ≡ some run)
        × ((other : String) → "1" ≢ other → get_run other store' ≡ get_run other store))
create_run_lem_example = create_run_lem run store

abbrev bare_run : RunRecord
bare_run = record run { services = []; state = RunLifecycle.stopped }

-- A stopped run without services is started by a query.
bare_reconciled :
    (reconcile_run (run_status healthy bare_run) bare_run).run.state ≡ RunLifecycle.running
unfolding reconcile_run run_status reconcile_services service_statuses reported_state derived_states
    scan_states
bare_reconciled = refl

-- A run that is stopped after the query has read it is started again by the write.
late_reconciled :
    (reconcile_run (run_status healthy run) (stop_run "t3" "1" run).1).run.state
    ≡ RunLifecycle.starting
unfolding reconcile_run run_status reconcile_services service_statuses reported_state derived_states
    scan_states scan_state derived_state unit_failed reconcile_state stop_run stop_services insert
late_reconciled = refl
