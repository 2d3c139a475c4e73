-- ===== src/App/Refresh.antt =====
-- src/app/commands/runs.rs and src/app/launch/watch.rs: how a run is brought to the plan of its stack.
-- Each function is a closure that `up` and its helpers pass to the run store; it returns the events that
-- are emitted next, and the handles of the background tasks that it stops.
pub mod Launch
pub mod Services
pub mod Complete
pub mod Stopped
pub mod Unchanged
use devstack.Common.{
  ℕ, String, Bool, true, false, not, ◌||◌, Option, none, some, List, [], ◌∷◌, ◌++◌, if◌then◌else◌,
  str_key, nat_key, ◌==◌, filter, option_map,
}
use devstack.Common.BTreeMap.{BTreeMap, get, contains_key, insert, remove, keys, map_values}
use devstack.Config.Model.{ServiceConfig, StackPlan}
use devstack.Config.Service.{scheme}
use devstack.Model.Service.{
  ServiceState, ServiceRecord, same_state, stop_health_monitor, stop_watch, stop_api_capture,
}
use devstack.Model.Run.{RunLifecycle, RunRecord, same_lifecycle}
use devstack.Model.Event.{DaemonEvent, run_state_changed_event, service_state_changed_event}
use devstack.Stores.Runs.{recompute_run_state}
use devstack.App.Lifecycle.{to_list}
use devstack.App.Launch.{PreparedService, into_service_record}

pub record ExistingServiceSnapshot : Type 0 where
  pub watch_hash : Option String
  pub state : ServiceState
  pub port : Option ℕ
  pub listen_port : Option ℕ

unfoldable pub snapshot_of : ServiceRecord → ExistingServiceSnapshot
snapshot_of service = record {
  watch_hash = some service.launch.watch_hash;
  state = service.runtime.state;
  port = service.launch.port;
  listen_port = service.launch.listen_port;
}

unfoldable pub existing_services : RunRecord → BTreeMap String ExistingServiceSnapshot
existing_services run = map_values snapshot_of run.services

-- The services of the run that the stack does not have any more.
unfoldable pub removed_services : StackPlan → RunRecord → List String
removed_services plan run =
    filter (λ name. not (contains_key name plan.services)) (keys run.services)

unfoldable pub reuse_ports : RunRecord → Bool
reuse_ports run = elim run.stopped_at [ none ↦ true | some t ↦ false ]

unfoldable pub build_service_schemes :
    StackPlan → BTreeMap String ServiceConfig → BTreeMap String String
build_service_schemes plan [] = map_values scheme plan.services
build_service_schemes plan ((name, service) ∷ globals) =
    insert name (scheme service) (build_service_schemes plan globals)

abbrev is_hash : String → Option String → Bool
is_hash hash none = false
is_hash hash (some h) = h == hash

-- `Stopped | Failed | Degraded`
abbrev pub needs_new_start : ServiceState → Bool
needs_new_start ServiceState.stopped = true
needs_new_start ServiceState.failed = true
needs_new_start ServiceState.degraded = true
needs_new_start ServiceState.starting = false
needs_new_start ServiceState.ready = false

unfoldable pub service_needs_restart :
    Bool → BTreeMap String ExistingServiceSnapshot → String → PreparedService → Bool
service_needs_restart force existing name prepared = force || elim (get name existing) [
  | none ↦ true
  | some snapshot ↦
      not (is_hash prepared.watch_hash snapshot.watch_hash) || needs_new_start snapshot.state
]

-- The handles that are stopped for a service, in the order of the calls.
unfoldable pub stop_handles : Option ServiceRecord → List ℕ
stop_handles none = []
stop_handles (some service) =
    let (without_health, health) = stop_health_monitor service in
    let (without_watch, watch) = stop_watch without_health in
    let (without_capture, api_capture) = stop_api_capture without_watch in
    health ++ (watch ++ api_capture)

-- The handles that are stopped, the events, and the run.
pub record Turn : Type 0 where
  pub stopped : List ℕ
  pub events : List DaemonEvent
  pub run : RunRecord

-- The loop of `remove_services_missing_from_stack`.
unfoldable pub remove_each :
    List String → BTreeMap String ServiceRecord → List ℕ × BTreeMap String ServiceRecord
remove_each [] services = ([], services)
remove_each (name ∷ names) services =
    let (stopped, rest) = remove_each names (remove name services) in
    (stop_handles (get name services) ++ stopped, rest)

-- Nothing is done, and the run's state not computed again, when no service is missing.
unfoldable pub remove_services_missing_from_stack : List String → RunRecord → Turn
remove_services_missing_from_stack [] run = record { stopped = []; events = []; run = run }
remove_services_missing_from_stack (name ∷ names) run =
    let (stopped, services) = remove_each (name ∷ names) run.services in
    let (event, run') = recompute_run_state (record run { services = services }) in
    record { stopped = stopped; events = to_list event; run = run' }

unfoldable pub update_run_launch_resources : BTreeMap String String → RunRecord → Turn
update_run_launch_resources base_env run =
    let revived : RunRecord = record run {
      base_env = base_env;
      state = RunLifecycle.starting;
      stopped_at = none;
    } in
    if same_lifecycle run.state RunLifecycle.stopped
    then record { stopped = []; events = run_state_changed_event revived ∷ []; run = revived }
    else record { stopped = []; events = []; run = record run { base_env = base_env } }

-- The state that the service had, with the rest of the turn.
unfoldable pub replace_service_record :
    String → ServiceRecord → RunRecord → Option ServiceState × List ℕ × RunRecord
replace_service_record name service run = (
  option_map (λ (r : ServiceRecord). r.runtime.state) (get name run.services),
  stop_handles (get name run.services),
  record run { services = insert name service (remove name run.services) },
)

-- `error` is the text with its prefix.
unfoldable pub record_failed_init_service : String → PreparedService → String → RunRecord → Turn
record_failed_init_service name prepared error run =
    let (previous, stopped, run') =
      replace_service_record name
        (into_service_record ServiceState.failed (some error) none prepared) run in
    record {
      stopped = stopped;
      events = service_state_changed_event run.run_id name ServiceState.failed ∷ [];
      run = run';
    }

abbrev is_state : ServiceState → Option ServiceState → Bool
is_state state none = false
is_state state (some s) = same_state s state

-- The start's error, if it has failed, decides on the first state.
abbrev pub initial_state : Option String → ServiceState
initial_state none = ServiceState.starting
initial_state (some error) = ServiceState.failed

abbrev start_time : String → Option String → Option String
start_time now none = some now
start_time now (some error) = none

unfoldable pub store_service_launch_result :
    String → String → PreparedService → Option String → RunRecord → Turn
store_service_launch_result now name prepared error run =
    let (previous, stopped, run') =
      replace_service_record name
        (into_service_record (initial_state error) error (start_time now error) prepared) run in
    record {
      stopped = stopped;
      events =
          if is_state (initial_state error) previous
          then []
          else service_state_changed_event run.run_id name (initial_state error) ∷ [];
      run = run';
    }
