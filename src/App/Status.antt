-- ===== src/App/Status.antt =====
-- src/app/queries/status.rs: the states that `build_status` reports. `units` is what systemd answers
-- about a unit; a call that fails counts as no answer. The statistics, errors and times of the answer
-- are not modelled.
pub mod Reported
pub mod Local
use devstack.Common.{
  String, Bool, false, not, ◌&&◌, ◌||◌, Option, none, some, List, [], ◌∷◌, if◌then◌else◌, str_key,
  nat_key, ◌==◌,
}
use devstack.Common.BTreeMap.{BTreeMap}
use devstack.Model.Service.{ServiceState, ServiceRecord}
use devstack.Units.Reaper.{Answer, no_unit, failed, answer}
use devstack.Model.Run.{RunLifecycle, RunRecord, same_lifecycle}
use devstack.Stores.Runs.{scan_states, no_flags}

pub record SystemdStatus : Type 0 where
  pub active_state : String
  pub sub_state : String
  pub result : Option String

-- What the query makes of the manager's answer about a unit.
unfoldable pub answered : Answer → Option SystemdStatus
answered no_unit = none
answered failed = none
answered (answer unit) =
    some
      record { active_state = unit.active_state; sub_state = unit.sub_state; result = unit.result }

abbrev pub is_result : String → Option String → Bool
is_result text none = false
is_result text (some s) = s == text

abbrev is_other_result : String → Option String → Bool
is_other_result text none = false
is_other_result text (some s) = not (s == text)

-- The test on the unit, but for the state of the run.
unfoldable pub unit_failed : SystemdStatus → Bool
unit_failed u =
    (u.active_state == "failed")
    || is_result "start-limit-hit" u.result
    || not (u.active_state == "active") && is_other_result "success" u.result

unfoldable pub failed_state : ServiceState → ServiceState
failed_state ServiceState.starting = ServiceState.failed
failed_state ServiceState.ready = ServiceState.degraded
failed_state ServiceState.failed = ServiceState.failed
failed_state ServiceState.stopped = ServiceState.stopped
failed_state ServiceState.degraded = ServiceState.degraded

abbrev pub has_failed : RunLifecycle → Option SystemdStatus → Bool
has_failed state none = false
has_failed state (some u) = not (same_lifecycle state RunLifecycle.stopped) && unit_failed u

unfoldable pub derived_state : RunLifecycle → Option SystemdStatus → ServiceState → ServiceState
derived_state state unit s = if has_failed state unit then failed_state s else s

abbrev result_of : Option SystemdStatus → Option String
result_of none = none
result_of (some u) = u.result

-- `last_failure` of the answer: the unit's result, where the service has no failure of its own.
unfoldable pub derived_failure : RunLifecycle → Option SystemdStatus → Option String → Option String
derived_failure state unit (some failure) = some failure
derived_failure state unit none =
    if has_failed state unit && not (is_result "success" (result_of unit))
    then result_of unit
    else none

unfoldable pub derived_states :
    (String → Option SystemdStatus)
    → RunLifecycle
    → BTreeMap String ServiceRecord
    → List ServiceState
derived_states units state [] = []
derived_states units state ((name, r) ∷ services) =
    derived_state state (units r.launch.unit_name) r.runtime.state
    ∷ derived_states units state services

-- `state` of the answer.
unfoldable pub reported_state : (String → Option SystemdStatus) → RunRecord → RunLifecycle
reported_state units run =
    let flags = scan_states (derived_states units run.state run.services) no_flags in
    if flags.any_degraded
    then RunLifecycle.degraded
    else if flags.all_ready
    then RunLifecycle.running
    else run.state
