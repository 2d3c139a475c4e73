-- ===== src/App/Lifecycle.antt =====
-- src/app/launch/readiness.rs, src/app/commands/restart.rs and src/app/commands/runs.rs: what the
-- daemon's tasks do to a run under the lock of the run store. Each function is the closure that a task
-- passes to `with_run_mut`; it returns the events that the task emits next.

pub mod View
pub mod Edits
pub mod Stop
pub mod Steps
use devstack.Common.{
  ℕ, suc, String, Bool, true, false, ◌&&◌, Option, none, some, List, [], ◌∷◌, ◌++◌, ltb, leb, eqb,
  if◌then◌else◌, str_key, nat_key, ◌==◌,
}
use devstack.Common.BTreeMap.{BTreeMap, get, modify}
use devstack.Model.Service.{ServiceState, ServiceRecord, ReadinessKind, same_state}
use devstack.Model.Run.{RunLifecycle, RunRecord}
use devstack.Model.Event.{DaemonEvent, run_state_changed_event}
use devstack.Stores.Runs.{recompute_run_state, set_service_state}

abbrev pub to_list {ℓ} : {A : Type ℓ} → Option A → List A
to_list none = []
to_list (some a) = a ∷ []

-- What a task does to one service: the events, and the record after it.
abbrev pub Edit : Type 0
Edit = ServiceRecord → List DaemonEvent × ServiceRecord

-- `if let Some(record) = run.services.get_mut(service) { … }`
unfoldable pub edit_service : String → Edit → RunRecord → List DaemonEvent × RunRecord
edit_service service edit run = elim (get service run.services) [
  | none ↦ ([], run)
  | some r ↦ ((edit r).0, record run { services = modify service (λ x. (edit x).1) run.services })
]

-- `if let Some(event) = recompute_run_state(run) { events.push(event); }`
unfoldable pub then_recompute : List DaemonEvent × RunRecord → List DaemonEvent × RunRecord
then_recompute (events, run) =
    (events ++ to_list (recompute_run_state run).0, (recompute_run_state run).1)

abbrev with_failure :
    Option String → List DaemonEvent × ServiceRecord → List DaemonEvent × ServiceRecord
with_failure failure (events, r) =
    (events, record r { runtime = record (r.runtime) { last_failure = failure } })

-- A change of state with the reason of the last failure set beside it.
unfoldable pub change_state : String → String → String → ServiceState → Option String → Edit
change_state now run_id service state failure r = with_failure failure (
  to_list (set_service_state now run_id service state r).0,
  (set_service_state now run_id service state r).1,
)

abbrev pub is_exit : ReadinessKind → Bool
is_exit ReadinessKind.exit = true
is_exit _ = false

-- A service without a health handle gets one, unless its readiness is its exit.
unfoldable pub with_monitor :
    ℕ → List DaemonEvent × ServiceRecord → List DaemonEvent × ServiceRecord
with_monitor handle (events, r) = elim r.handles.health [
  | some old ↦ (events, r)
  | none ↦
      if is_exit r.spec.readiness.kind
      then (events, r)
      else (events, record r { handles = record (r.handles) { health = some handle } })
]

-- `handle` is the new health handle. The closure also tells whether the service got it, and the task
-- starts the monitor then.
unfoldable pub ready_edit : String → String → String → ℕ → Edit
ready_edit now run_id service handle r =
    with_monitor handle (change_state now run_id service ServiceState.ready none r)

unfoldable pub mark_service_ready :
    String → String → String → ℕ → RunRecord → List DaemonEvent × RunRecord
mark_service_ready now run_id service handle run =
    then_recompute (edit_service service (ready_edit now run_id service handle) run)

unfoldable pub mark_service_failed :
    String → String → String → String → RunRecord → List DaemonEvent × RunRecord
mark_service_failed now run_id service reason run =
    then_recompute
      (edit_service service (change_state now run_id service ServiceState.failed (some reason)) run)

-- The health monitor's loop: what a check makes of the number of failures in a row.
abbrev u32_max : ℕ
u32_max = 4294967295

unfoldable pub next_failures : Bool → ℕ → ℕ
next_failures passed failures =
    if passed then 0 else if ltb failures u32_max then suc failures else u32_max

pub data Transition : Type 0 where
  healthy recover_to_ready mark_degraded : Transition

unfoldable pub health_transition : Bool → ℕ → Transition
health_transition passed failures =
    if (passed && eqb failures 0)
    then recover_to_ready
    else if leb 3 failures
    then mark_degraded
    else healthy

abbrev has_failure : String → Option String → Bool
has_failure text none = false
has_failure text (some s) = s == text

unfoldable pub recover_edit : String → String → String → Edit
recover_edit now run_id service r =
    if same_state r.runtime.state ServiceState.degraded
      && has_failure "health checks failing" r.runtime.last_failure
    then change_state now run_id service ServiceState.ready none r
    else ([], r)

unfoldable pub degrade_edit : String → String → String → Edit
degrade_edit now run_id service r =
    if same_state r.runtime.state ServiceState.ready
    then change_state now run_id service ServiceState.degraded (some "health checks failing") r
    else ([], r)

unfoldable pub apply_transition :
    Transition → String → String → String → RunRecord → List DaemonEvent × RunRecord
apply_transition healthy now run_id service run = ([], run)
apply_transition recover_to_ready now run_id service run =
    then_recompute (edit_service service (recover_edit now run_id service) run)
apply_transition mark_degraded now run_id service run =
    then_recompute (edit_service service (degrade_edit now run_id service) run)

unfoldable pub exceed_restart_limit :
    String → String → String → RunRecord → List DaemonEvent × RunRecord
exceed_restart_limit now run_id service run = then_recompute (
    edit_service service
      (change_state now run_id service ServiceState.failed (some "health restart limit exceeded"))
      run)

-- The first part of `restart_service_inner`; a service that the run does not have is an error.
unfoldable pub begin_restart :
    String → String → String → RunRecord → Option (List DaemonEvent × RunRecord)
begin_restart now run_id service run = elim (get service run.services) [
  | none ↦ none
  | some r ↦ some (
      then_recompute
        (edit_service service (change_state now run_id service ServiceState.starting none) run))
]

-- The loop over the services in `down` and `kill`.
unfoldable pub stop_services :
    String
    → String
    → BTreeMap String ServiceRecord
    → List DaemonEvent × BTreeMap String ServiceRecord
stop_services now run_id [] = ([], [])
stop_services now run_id ((name, r) ∷ services) =
    let (event, r') = set_service_state now run_id name ServiceState.stopped r in
    let (events, rest) = stop_services now run_id services in
    (to_list event ++ events, (name, r') ∷ rest)

-- The part of `down` and `kill` that changes the run.
unfoldable pub stop_run : String → String → RunRecord → List DaemonEvent × RunRecord
stop_run now run_id run =
    let (events, services) = stop_services now run_id run.services in
    let run' : RunRecord = record run {
      state = RunLifecycle.stopped;
      stopped_at = some now;
      services = services;
    } in
    (events ++ (run_state_changed_event run' ∷ []), run')
