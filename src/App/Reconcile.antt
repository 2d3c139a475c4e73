-- ===== src/App/Reconcile.antt =====
-- src/app/commands/reconcile.rs: what a status query found is written into the run. `RunStatus` has what
-- `build_status` reports of a run, as far as it is written: the query reads a copy of the run, so the run may
-- have changed before the write.

use devstack.Common.{
  String, Bool, true, false, not, ◌&&◌, ◌||◌, Option, none, some, List, [], ◌∷◌, ◌++◌,
  if◌then◌else◌, str_key, nat_key,
}
use devstack.Common.BTreeMap.{BTreeMap, get, insert}
use devstack.Model.Service.{ServiceState, ServiceRecord, same_state}
use devstack.Model.Run.{RunLifecycle, RunRecord, same_lifecycle}
use devstack.Model.Event.{
  DaemonEvent, service_state_changed_event, run_state_changed_event, same_name,
}
use devstack.App.Status.{SystemdStatus, derived_state, derived_failure, reported_state}

pub record ServiceStatus : Type 0 where
  pub state : ServiceState
  pub last_failure : Option String

pub record RunStatus : Type 0 where
  pub services : BTreeMap String ServiceStatus
  pub state : RunLifecycle

unfoldable pub service_statuses :
    (String → Option SystemdStatus)
    → RunLifecycle
    → BTreeMap String ServiceRecord
    → BTreeMap String ServiceStatus
service_statuses units state [] = []
service_statuses units state ((name, r) ∷ services) =
    let unit = units r.launch.unit_name in
    let status : ServiceStatus = record {
      state = derived_state state unit r.runtime.state;
      last_failure = derived_failure state unit r.runtime.last_failure;
    } in
    (name, status) ∷ service_statuses units state services

unfoldable pub run_status : (String → Option SystemdStatus) → RunRecord → RunStatus
run_status units run = record {
  services = service_statuses units run.state run.services;
  state = reported_state units run;
}

-- Whether something changed, the events, and the run.
pub record Reconciled : Type 0 where
  pub changed : Bool
  pub events : List DaemonEvent
  pub run : RunRecord

unfoldable pub reconcile_state : String → ServiceStatus → Reconciled → ServiceRecord → Reconciled
reconcile_state name status done service =
    let differs = not (same_state service.runtime.state status.state) in
    let other_failure = not (same_name service.runtime.last_failure status.last_failure) in
    let written = record service {
      runtime = record (service.runtime) {
        state = status.state;
        last_failure = status.last_failure;
      };
    } in
    record {
      changed = done.changed || differs || other_failure;
      events =
          if differs
          then done.events ++ service_state_changed_event done.run.run_id name status.state ∷ []
          else done.events;
      run = record (done.run) { services = insert name written done.run.services };
    }

-- The loop over the services of the status.
unfoldable pub reconcile_services : BTreeMap String ServiceStatus → Reconciled → Reconciled
reconcile_services [] done = done
reconcile_services ((name, status) ∷ services) done = elim (get name done.run.services) [
  | none ↦ reconcile_services services done
  | some service ↦ reconcile_services services (reconcile_state name status done service)
]

-- The run gets the state of the status, a stopped run as well; a stop is not announced.
unfoldable pub reconcile_run : RunStatus → RunRecord → Reconciled
reconcile_run status run =
    let start : Reconciled = record { changed = false; events = []; run = run } in
    let done = reconcile_services status.services start in
    let last = record (done.run) { state = status.state } in
    if not (same_lifecycle status.state run.state)
      && not (same_lifecycle status.state RunLifecycle.stopped)
    then record {
      changed = true;
      events = done.events ++ run_state_changed_event last ∷ [];
      run = last;
    }
    else record done { run = last }
