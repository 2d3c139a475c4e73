-- ===== src/App/Refresh/Launch.antt =====
-- src/app/commands/runs.rs: `refresh_run` and `up` launch the services of a plan one after another. The
-- results of preparing a service, of its init tasks and of the start of its unit are parameters here
-- (`App.Launch` has the start), and so is what other tasks do to the run after a service's turn.
use devstack.Common.{
  String, Bool, true, false, not, ◌&&◌, Option, none, some, List, [], ◌∷◌, ◌++◌, if◌then◌else◌,
  str_key, nat_key,
}
use devstack.Common.BTreeMap.{BTreeMap, get, contains_key, modify}
use devstack.Common.Outcome.{Result, ok, err, ◌>>=◌}
use devstack.Config.Model.{StackPlan}
use devstack.Model.Run.{RunRecord}
use devstack.Stores.Runs.{recompute_run_state}
use devstack.Model.Event.{DaemonEvent}
use devstack.App.Lifecycle.{to_list}
use devstack.App.Launch.{PreparedService}
use devstack.App.Refresh.{
  Turn, ExistingServiceSnapshot, existing_services, removed_services, service_needs_restart,
  remove_services_missing_from_stack, update_run_launch_resources, record_failed_init_service,
  store_service_launch_result,
}
use devstack.App.Refresh.Unchanged.{apply_prepared_to_runtime}

pub data LaunchError : Type 0 where
  service_missing prepare_failed later_failed : LaunchError

-- `init` and `start` are the errors of the init tasks and of the start. `later` is what the watcher, the
-- capture proxy and the readiness of the service do to the run before the next service's turn, with
-- `none` for their error.
pub record LaunchWorld : Type 0 where
  pub now : String
  pub prepare : String → Option PreparedService
  pub init : String → Option String
  pub start : String → Option String
  pub later : String → RunRecord → Option (List DaemonEvent × RunRecord)

unfoldable pub sync_unchanged_service : String → PreparedService → RunRecord → Turn
sync_unchanged_service name prepared run = elim (get name run.services) [
  | none ↦ record { stopped = []; events = []; run = run }
  | some r ↦ record {
    stopped = (apply_prepared_to_runtime prepared false r).0;
    events = [];
    run = record run {
      services = modify name (λ x. (apply_prepared_to_runtime prepared false x).1) run.services;
    };
  }
]

abbrev pub is_empty {ℓ} : {A : Type ℓ} → List A → Bool
is_empty [] = true
is_empty (x ∷ xs) = false

-- The turn of a service with the run store, once the service is prepared. Giving back an old port can fail
-- after the start, which ends the launch with an error before the result is stored; such a launch is one
-- that `later` ends, since an error leaves no run here.
unfoldable pub launch_turn :
    LaunchWorld
    → Bool
    → BTreeMap String ExistingServiceSnapshot
    → String
    → PreparedService
    → RunRecord
    → Turn
launch_turn world force existing name prepared run =
    if not (is_empty existing) && not (service_needs_restart force existing name prepared)
    then sync_unchanged_service name prepared run
    else elim (world.init name) [
      | some error ↦ record_failed_init_service name prepared error run
      | none ↦ store_service_launch_result world.now name prepared (world.start name) run
    ]

abbrev pub then_later : Turn → Option (List DaemonEvent × RunRecord) → Result LaunchError Turn
then_later turn none = err later_failed
then_later turn (some (events, run)) =
    ok (record { stopped = turn.stopped; events = turn.events ++ events; run = run })

unfoldable pub launch_service :
    LaunchWorld
    → StackPlan
    → Bool
    → BTreeMap String ExistingServiceSnapshot
    → String
    → RunRecord
    → Result LaunchError Turn
launch_service world plan force existing name run =
    if contains_key name plan.services
    then elim (world.prepare name) [
      | none ↦ err prepare_failed
      | some prepared ↦
          let turn = launch_turn world force existing name prepared run in
          then_later turn (world.later name turn.run)
    ]
    else err service_missing

abbrev after_turn : Turn → Turn → Turn
after_turn turn rest = record {
  stopped = turn.stopped ++ rest.stopped;
  events = turn.events ++ rest.events;
  run = rest.run;
}

-- The loop of `launch_services`; an error ends it.
unfoldable pub launch_services :
    LaunchWorld
    → StackPlan
    → Bool
    → BTreeMap String ExistingServiceSnapshot
    → List String
    → RunRecord
    → Result LaunchError Turn
launch_services world plan force existing [] run =
    ok (record { stopped = []; events = []; run = run })
launch_services world plan force existing (name ∷ names) run = do
  turn ← launch_service world plan force existing name run
  rest ← launch_services world plan force existing names turn.run
  ok (after_turn turn rest)

unfoldable pub finalize_run_launch : RunRecord → Turn
finalize_run_launch run = record {
  stopped = [];
  events = to_list (recompute_run_state run).0;
  run = (recompute_run_state run).1;
}

unfoldable pub refresh_run :
    LaunchWorld → StackPlan → BTreeMap String String → Bool → RunRecord → Result LaunchError Turn
refresh_run world plan base_env force run =
    let existing = existing_services run in
    let removed = remove_services_missing_from_stack (removed_services plan run) run in
    let updated = update_run_launch_resources base_env removed.run in
    launch_services world plan force existing plan.order updated.run >>= λ launched. ok (
      after_turn removed
        (after_turn updated (after_turn launched (finalize_run_launch launched.run))))
