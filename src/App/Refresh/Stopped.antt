-- ===== src/App/Refresh/Stopped.antt =====
-- src/app/commands/runs.rs: what a service's turn in a launch does with its background tasks.

use devstack.Common.{
  ℕ, ◌+◌, String, ◌≡◌, refl, sym, ap, ◌∙◌, ◌≢◌, inl, inr, Bool, false, not, ◌&&◌, Option, none,
  some, List, [], ◌++◌, arith, if◌then◌else◌, str_key, nat_key, ◌==◌, Bool-cases, Option-cases,
  beq_refl, beq-false_of_ne, count, count-append,
}
use devstack.Common.BTreeMap.{
  BTreeMap, get, insert, remove, get-insert, get-remove, modify, get-modify,
}
use devstack.Model.Service.{
  ServiceRecord, ServiceState, taken, stop_health_monitor, stop_watch, stop_api_capture,
  new_service,
}
use devstack.Model.Run.{RunRecord}
use devstack.App.Launch.{PreparedService, into_service_record}
use devstack.App.Refresh.{
  Turn, ExistingServiceSnapshot, service_needs_restart, stop_handles, replace_service_record,
  record_failed_init_service, store_service_launch_result,
}
use devstack.App.Refresh.Launch.{LaunchWorld, launch_turn, sync_unchanged_service, is_empty}
use devstack.App.Refresh.Unchanged.{apply_prepared_to_runtime, apply_prepared_to_runtime_lem}

-- The background tasks of a service that a run may have.
abbrev pub tasks_of : ServiceRecord → List ℕ
tasks_of r = taken r.handles.health ++ (taken r.handles.watch ++ taken r.handles.api_capture)

abbrev pub tasks_of_entry : Option ServiceRecord → List ℕ
tasks_of_entry none = []
tasks_of_entry (some r) = tasks_of r

abbrev pub running_tasks : String → RunRecord → List ℕ
running_tasks name run = tasks_of_entry (get name run.services)

-- Every task that a service had is stopped once or runs on, and no other service changes.
abbrev pub Accounts : String → RunRecord → Turn → Type 0
Accounts name run turn =
    ((handle : ℕ)
      → count handle (running_tasks name run)
        ≡ count handle turn.stopped + count handle (running_tasks name turn.run))
    × ((other : String) → name ≢ other → get other turn.run.services ≡ get other run.services)

stop_handles-tasks : (o : Option ServiceRecord) → stop_handles o ≡ tasks_of_entry o
unfolding stop_handles stop_health_monitor stop_watch stop_api_capture
stop_handles-tasks none = refl
stop_handles-tasks (some r) = refl

get-replace :
    (name other : String) (service : ServiceRecord) (m : BTreeMap String ServiceRecord)
    → get other (insert name service (remove name m))
      ≡ (if name == other then some service else get other m)
get-replace name other service m =
    get-insert name other service (remove name m) ∙ elim (Bool-cases (name == other)) [
      | inl t ↦ rw t refl
      | inr f ↦ rw f (get-remove name other m ∙ rw f refl)
    ]

-- A turn that puts a record without tasks in the service's place.
replaced-Accounts :
    (name : String) (run : RunRecord) (turn : Turn) (service : ServiceRecord)
    → tasks_of service ≡ []
    → turn.stopped ≡ stop_handles (get name run.services)
    → turn.run.services ≡ insert name service (remove name run.services)
    → Accounts name run turn
replaced-Accounts name run turn service idle stopped services =
    let here : get name turn.run.services ≡ some service =
      ap (get name) services
      ∙ get-replace name name service run.services
      ∙ rw (beq_refl name) refl in
    (
      λ handle. omega (
        arith,
        ap (count handle) (stopped ∙ stop_handles-tasks (get name run.services)),
        ap (λ o. count handle (tasks_of_entry o)) here ∙ ap (count handle) idle,
      ),
      λ other ne.
          ap (get other) services
          ∙ get-replace name other service run.services
          ∙ rw (beq-false_of_ne name other ne) refl,
    )

into_service_record-idle :
    (state : ServiceState) (failure time : Option String) (prepared : PreparedService)
    → tasks_of (into_service_record state failure time prepared) ≡ []
unfolding into_service_record new_service
into_service_record-idle state failure time prepared = refl

abbrev update : PreparedService → ServiceRecord → ServiceRecord
update prepared r = (apply_prepared_to_runtime prepared false r).1

tasks_of-count :
    (r : ServiceRecord) (handle : ℕ)
    → count handle (tasks_of r)
      ≡ count handle (taken r.handles.health)
        + (count handle (taken r.handles.watch) + count handle (taken r.handles.api_capture))
tasks_of-count r handle =
    count-append handle (taken r.handles.health)
      (taken r.handles.watch ++ taken r.handles.api_capture)
    ∙ ap (λ n. count handle (taken r.handles.health) + n)
        (count-append handle (taken r.handles.watch) (taken r.handles.api_capture))

kept_running-count :
    (prepared : PreparedService) (r : ServiceRecord) (handle : ℕ)
    → let (stopped, after) = apply_prepared_to_runtime prepared false r in
      count handle (tasks_of r) ≡ count handle stopped + count handle (tasks_of after)
kept_running-count prepared r handle =
    let (stopped, after) = apply_prepared_to_runtime prepared false r in
    let (_, _, _, health, watch, capture) = apply_prepared_to_runtime_lem prepared r in
    omega (
      arith,
      tasks_of-count r handle,
      tasks_of-count after handle,
      ap (λ o. count handle (taken o)) health,
      ap (λ o. count handle (taken o)) watch,
      sym (count-append handle stopped (taken after.handles.api_capture))
          ∙ ap (count handle) capture,
    )

sync_unchanged_service-Accounts :
    (name : String) (prepared : PreparedService) (run : RunRecord)
    → Accounts name run (sync_unchanged_service name prepared run)
unfolding sync_unchanged_service
sync_unchanged_service-Accounts name prepared run = elim (Option-cases (get name run.services)) [
  | inl lost ↦
      rw (lost, sync_unchanged_service)
        (λ handle. omega (arith, ap (λ o. count handle (tasks_of_entry o)) lost), λ other ne. refl)
  | inr (r, there) ↦
      let here : get name (modify name (update prepared) run.services) ≡ some (update prepared r) =
        get-modify name name (update prepared) run.services ∙ rw (beq_refl name, there) refl in
      rw (there, sync_unchanged_service)
        (
          λ handle. omega (
            arith,
            ap (λ o. count handle (tasks_of_entry o)) there,
            ap (λ o. count handle (tasks_of_entry o)) here,
            kept_running-count prepared r handle,
          ),
          λ other ne.
              get-modify name other (update prepared) run.services
              ∙ rw (beq-false_of_ne name other ne) refl,
        )
]

-- The turn of a service, on every branch: of the background tasks that the service had, each is stopped
-- in this turn or is still the service's after it, and none is dropped without being stopped; the other
-- services are as they were.
pub launch_turn-Accounts :
    (world : LaunchWorld) (force : Bool) (existing : BTreeMap String ExistingServiceSnapshot)
    (name : String) (prepared : PreparedService) (run : RunRecord)
    → Accounts name run (launch_turn world force existing name prepared run)
unfolding launch_turn record_failed_init_service store_service_launch_result replace_service_record
launch_turn-Accounts world force existing name prepared run =
    elim (Bool-cases
      (not (is_empty existing) && not (service_needs_restart force existing name prepared))) [
        | inl t ↦ rw (t, launch_turn) (sync_unchanged_service-Accounts name prepared run)
        | inr f ↦ elim (Option-cases (world.init name)) [
          | inl fine ↦
              rw (f, fine, launch_turn)
                (replaced-Accounts name run
                  (store_service_launch_result world.now name prepared (world.start name) run) _
                  (into_service_record-idle _ _ _ prepared) refl refl)
          | inr (error, bad) ↦
              rw (f, bad, launch_turn)
                (replaced-Accounts name run (record_failed_init_service name prepared error run) _
                  (into_service_record-idle _ _ _ prepared) refl refl)
        ]
      ]
