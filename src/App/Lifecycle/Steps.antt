-- ===== src/App/Lifecycle/Steps.antt =====
-- The steps of a run: the closures on the run store that the daemon's tasks run one after another, in any
-- order. Not among them are the launch and the refresh of services (src/app/commands/runs.rs), which add and
-- replace services and start a stopped run again, and the reconciliation (src/app/commands/reconcile.rs),
-- which writes a state that was read before the lock. The events of a step are those that its closure makes;
-- the daemon sends them once it has let go of the lock.

use devstack.App.Lifecycle.Stop.{stop_services-replay, IsUnique-stop_services}
use devstack.Common.{
  ℕ, String, ◌≡◌, refl, sym, ap, ◌∙◌, subst, ◌⊎◌, inl, inr, true, none, some, List, [], ◌++◌,
  str_key, nat_key, Bool-cases, Option-cases,
}
use devstack.Common.BTreeMap.{get, values, IsUnique, IsUnique-modify}
use devstack.Model.Service.{ServiceState}
use devstack.Model.Run.{RunRecord, RunLifecycle, same_lifecycle, is_stopped}
use devstack.Model.Event.{DaemonEvent}
use devstack.Stores.Runs.{recompute_run_state, states_of}
use devstack.Stores.Runs.Recompute.{recompute_run_state-Recomputed, summary}
use devstack.App.Lifecycle.{
  Edit, edit_service, Transition, apply_transition, begin_restart, exceed_restart_limit, healthy,
  mark_degraded, mark_service_failed, mark_service_ready, recover_to_ready, stop_run,
  then_recompute, to_list, change_state, stop_services,
}
use devstack.App.Lifecycle.View.{replay, apply_event-run, replay-append, view}
use devstack.App.Lifecycle.Edits.{
  AnnouncedEdit, change_state-Announced, degrade_edit-Announced, ready_edit-Announced,
  recover_edit-Announced, edit_service-replay, then_recompute-replay,
}

-- One task's turn with the run: a service is reported ready or failed, a health check changes its
-- state, its restarts are given up or one begins, a launch ends, or the run is stopped.
pub data Step (run : RunRecord) : List DaemonEvent × RunRecord → Type 0 where
  step_ready :
      (now service : String) (handle : ℕ)
      → Step run (mark_service_ready now run.run_id service handle run)
  step_failed :
      (now service reason : String)
      → Step run (mark_service_failed now run.run_id service reason run)
  step_health :
      (transition : Transition) (now service : String)
      → Step run (apply_transition transition now run.run_id service run)
  step_limit : (now service : String) → Step run (exceed_restart_limit now run.run_id service run)
  step_restart :
      (now service : String) (after : List DaemonEvent × RunRecord)
      → begin_restart now run.run_id service run ≡ some after
      → Step run after
  step_finalize : Step run (to_list (recompute_run_state run).0, (recompute_run_state run).1)
  step_stop : (now : String) → Step run (stop_run now run.run_id run)

pub data Steps : RunRecord → List DaemonEvent → RunRecord → Type 0 where
  done : {run : RunRecord} → Steps run [] run
  step_then :
      {run run' run'' : RunRecord} {events events' : List DaemonEvent}
      → Step run (events, run')
      → Steps run' events' run''
      → Steps run (events ++ events') run''

-- A step is nothing, an edit of one service with the recomputation after it, or the stop of the run.
pub data StepKind (run : RunRecord) : List DaemonEvent × RunRecord → Type 0 where
  idle : StepKind run ([], run)
  edited :
      (service : String) (edit : Edit)
      → AnnouncedEdit run.run_id service edit
      → StepKind run (then_recompute (edit_service service edit run))
  recomputed : StepKind run (then_recompute ([], run))
  stopped_at_time : (now : String) → StepKind run (stop_run now run.run_id run)

begin_restart_inv :
    (now service : String) (run : RunRecord) (after : List DaemonEvent × RunRecord)
    → begin_restart now run.run_id service run ≡ some after
    → then_recompute
        (edit_service service (change_state now run.run_id service ServiceState.starting none) run)
      ≡ after
unfolding begin_restart
begin_restart_inv now service run after e = elim (Option-cases (get service run.services)) [
  | inl n ↦ cc (rw (n, begin_restart) at e)
  | inr (r, g) ↦ cc (rw (g, begin_restart) at e)
]

pub step_kind :
    {run : RunRecord} {after : List DaemonEvent × RunRecord} → Step run after → StepKind run after
unfolding mark_service_ready mark_service_failed apply_transition exceed_restart_limit
    then_recompute
step_kind (step_ready now service handle) =
    edited service _ (ready_edit-Announced now _ service handle)
step_kind (step_failed now service reason) =
    edited service _ (change_state-Announced now _ service ServiceState.failed (some reason))
step_kind (step_health healthy now service) = idle
step_kind (step_health recover_to_ready now service) =
    edited service _ (recover_edit-Announced now _ service)
step_kind (step_health mark_degraded now service) =
    edited service _ (degrade_edit-Announced now _ service)
step_kind (step_limit now service) =
    edited service _ (change_state-Announced now _ service ServiceState.failed _)
step_kind {run} (step_restart now service after e) =
    subst (StepKind run) (begin_restart_inv now service run after e)
      (edited service _ (change_state-Announced now _ service ServiceState.starting none))
step_kind step_finalize = recomputed
step_kind (step_stop now) = stopped_at_time now

-- What every step keeps.
record Kept (run : RunRecord) (after : List DaemonEvent × RunRecord) : Type 0 where
  run_id_kept : after.1.run_id ≡ run.run_id
  unique_kept : IsUnique run.services → IsUnique after.1.services
  stopped_kept :
      same_lifecycle run.state RunLifecycle.stopped ≡ true
      → same_lifecycle after.1.state RunLifecycle.stopped ≡ true

edit_service-Kept :
    (service : String) (edit : Edit) (run : RunRecord) → Kept run (edit_service service edit run)
unfolding edit_service
edit_service-Kept service edit run = elim (Option-cases (get service run.services)) [
  | inl n ↦
      rw (n, edit_service)
        (record { run_id_kept = refl; unique_kept = λ u. u; stopped_kept = λ s. s })
  | inr (r, e) ↦
      rw (e, edit_service)
        (record {
          run_id_kept = refl;
          unique_kept = IsUnique-modify service _ run.services;
          stopped_kept = λ s. s;
        })
]

then_recompute-Kept :
    (run : RunRecord) (step : List DaemonEvent × RunRecord)
    → Kept run step
    → Kept run (then_recompute step)
unfolding then_recompute
then_recompute-Kept run (events, mid) kept =
    let d = recompute_run_state-Recomputed mid in
    record {
      run_id_kept = d.run_id_kept ∙ kept.run_id_kept;
      unique_kept = λ u. subst (λ m. IsUnique m) (sym d.services_kept) (kept.unique_kept u);
      stopped_kept = λ s.
          subst (λ (x : RunRecord). same_lifecycle x.state RunLifecycle.stopped ≡ true)
            (sym (d.stopped_kept (kept.stopped_kept s))) (kept.stopped_kept s);
    }

stop_run-Kept : (now : String) (run : RunRecord) → Kept run (stop_run now run.run_id run)
unfolding stop_run
stop_run-Kept now run = record {
  run_id_kept = refl;
  unique_kept = IsUnique-stop_services now run.run_id run.services;
  stopped_kept = λ _. refl;
}

kind-Kept :
    {run : RunRecord} {after : List DaemonEvent × RunRecord} → StepKind run after → Kept run after
kind-Kept {run} idle = record { run_id_kept = refl; unique_kept = λ u. u; stopped_kept = λ s. s }
kind-Kept {run} (edited service edit a) =
    then_recompute-Kept run _ (edit_service-Kept service edit run)
kind-Kept {run} recomputed =
    then_recompute-Kept run ([], run)
      (record { run_id_kept = refl; unique_kept = λ u. u; stopped_kept = λ s. s })
kind-Kept {run} (stopped_at_time now) = stop_run-Kept now run

stop_run-replay :
    (now : String) (run : RunRecord)
    → IsUnique run.services
    → replay run.run_id (stop_run now run.run_id run).0 (view run)
      ≡ view (stop_run now run.run_id run).1
unfolding stop_run replay
stop_run-replay now run u =
    let events = (stop_services now run.run_id run.services).0 in
    replay-append run.run_id events _ (view run)
    ∙ rw (stop_services-replay now run.run_id run.services run.state u) (apply_event-run _ _)

kind-replay :
    {run : RunRecord} {after : List DaemonEvent × RunRecord}
    → StepKind run after
    → IsUnique run.services
    → replay run.run_id after.0 (view run) ≡ view after.1
unfolding replay
kind-replay idle u = refl
kind-replay {run} (edited service edit a) u =
    then_recompute-replay run (edit_service service edit run)
      (edit_service-Kept service edit run).run_id_kept (edit_service-replay service edit run a)
kind-replay {run} recomputed u = then_recompute-replay run ([], run) refl refl
kind-replay {run} (stopped_at_time now) u = stop_run-replay now run u

-- The events of the steps of a run, replayed in the order of the steps, tell a subscriber who knew the
-- run's state and its services' states what they are after the steps, if no two services have one name.
-- The daemon may deliver them in another order, since it sends them once the lock is let go.
pub Steps-replay :
    {run run' : RunRecord} {events : List DaemonEvent}
    → IsUnique run.services
    → Steps run events run'
    → replay run.run_id events (view run) ≡ view run'
unfolding replay
Steps-replay u done = refl
Steps-replay {run} {run' = last} u (step_then {run' = mid} {events = es} {events' = fs} s rest) =
    let k = step_kind s in
    let kept = kind-Kept k in
    replay-append run.run_id es fs (view run)
    ∙ rw (kind-replay k u) (
        subst (λ id. replay id fs (view mid) ≡ view last) kept.run_id_kept
          (Steps-replay (kept.unique_kept u) rest))

-- A run that is stopped stays stopped through the steps, to which the launch, the refresh and the
-- reconciliation of the run do not belong.
pub Steps-stopped :
    {run run' : RunRecord} {events : List DaemonEvent}
    → is_stopped run ≡ true
    → Steps run events run'
    → is_stopped run' ≡ true
unfolding is_stopped
Steps-stopped h done = h
Steps-stopped h (step_then s rest) = Steps-stopped ((kind-Kept (step_kind s)).stopped_kept h) rest

-- Stopped, or what the services' states say.
abbrev pub IsSettled : RunRecord → Type 0
IsSettled run = (is_stopped run ≡ true) ⊎ (run.state ≡ summary (states_of (values run.services)))

then_recompute-IsSettled : (step : List DaemonEvent × RunRecord) → IsSettled (then_recompute step).1
unfolding then_recompute is_stopped
then_recompute-IsSettled (events, mid) =
    let d = recompute_run_state-Recomputed mid in
    elim (Bool-cases (same_lifecycle mid.state RunLifecycle.stopped)) [
      | inl t ↦ inl (
          subst (λ (x : RunRecord). same_lifecycle x.state RunLifecycle.stopped ≡ true)
            (sym (d.stopped_kept t)) t)
      | inr f ↦
          inr (d.state_computed f ∙ ap (λ m. summary (states_of (values m))) (sym d.services_kept))
    ]

kind-IsSettled :
    {run : RunRecord} {after : List DaemonEvent × RunRecord}
    → StepKind run after
    → IsSettled run
    → IsSettled after.1
unfolding stop_run is_stopped
kind-IsSettled idle h = h
kind-IsSettled {run} (edited service edit a) h =
    then_recompute-IsSettled (edit_service service edit run)
kind-IsSettled {run} recomputed h = then_recompute-IsSettled ([], run)
kind-IsSettled {run} (stopped_at_time now) h = inl refl

-- A run that is stopped, or whose state is the one that its services' states say, is one or the other
-- after any steps, to which the launch, the refresh and the reconciliation of the run do not belong.
pub Steps-IsSettled :
    {run run' : RunRecord} {events : List DaemonEvent}
    → IsSettled run
    → Steps run events run'
    → IsSettled run'
Steps-IsSettled h done = h
Steps-IsSettled h (step_then s rest) = Steps-IsSettled (kind-IsSettled (step_kind s) h) rest
