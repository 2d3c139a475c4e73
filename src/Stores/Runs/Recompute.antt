-- ===== src/Stores/Runs/Recompute.antt =====
-- src/stores/runs.rs: what `recompute_run_state` makes of the services' states.

use devstack.Common.BTreeMap.{values}
use devstack.Common.{
  ◌≡◌, refl, ◌↔◌, inl, inr, Bool, true, false, ◌||◌, Option, none, some, List, [], ◌∷◌, arith,
  if◌then◌else◌, str_key, nat_key, Bool-cases, any, all,
}
use devstack.Model.Service.{ServiceState, same_state}
use devstack.Model.Run.{RunLifecycle, RunRecord, same_lifecycle}
use devstack.Model.Event.{DaemonEvent, run_state_changed_event}
use devstack.Stores.Runs.{
  recompute_run_state, Flags, next_state, no_flags, scan_state, scan_states, states_of,
}

abbrev pub is_bad : ServiceState → Bool
is_bad s = same_state s ServiceState.degraded || same_state s ServiceState.failed

abbrev pub is_ready : ServiceState → Bool
is_ready s = same_state s ServiceState.ready

-- What the states of a run's services say of the run.
abbrev pub summary : List ServiceState → RunLifecycle
summary states =
    if any is_bad states
    then RunLifecycle.degraded
    else if all is_ready states
    then RunLifecycle.running
    else RunLifecycle.starting

pub scan_states-any_degraded :
    (states : List ServiceState) (flags : Flags)
    → (scan_states states flags).any_degraded ≡ (flags.any_degraded || any is_bad states)
unfolding scan_states scan_state
scan_states-any_degraded [] flags = ground arith
scan_states-any_degraded (s ∷ states) flags =
    ground (arith, scan_states-any_degraded states (scan_state s flags))

pub scan_states-all_ready :
    (states : List ServiceState) (flags : Flags)
    → (scan_states states flags).all_ready
      ≡ (if flags.all_ready then all is_ready states else false)
unfolding scan_states scan_state
scan_states-all_ready [] flags = ground arith
scan_states-all_ready (s ∷ states) flags =
    ground (arith, scan_states-all_ready states (scan_state s flags))

pub next_state-summary :
    (states : List ServiceState) → next_state (scan_states states no_flags) ≡ summary states
unfolding next_state
next_state-summary states =
    rw (scan_states-any_degraded states no_flags, scan_states-all_ready states no_flags)

pub summary_not_stopped :
    (states : List ServiceState) → same_lifecycle (summary states) RunLifecycle.stopped ≡ false
summary_not_stopped states = ground arith

pub same_lifecycle_iff : (a b : RunLifecycle) → (same_lifecycle a b ≡ true) ↔ (a ≡ b)
same_lifecycle_iff a b = ground arith

abbrev summary_of : RunRecord → RunLifecycle
summary_of run = summary (states_of (values run.services))

abbrev summarised : RunRecord → RunRecord
summarised run = record run { state = summary_of run }

-- The function with the summary in place of the loop.
recompute_run_state_eq :
    (run : RunRecord)
    → recompute_run_state run ≡ (
        if same_lifecycle run.state RunLifecycle.stopped
        then (none, run)
        else if same_lifecycle (summary_of run) run.state
        then (none, summarised run)
        else (some (run_state_changed_event (summarised run)), summarised run))
unfolding recompute_run_state
recompute_run_state_eq run = rw (next_state-summary (states_of (values run.services)))

-- What the function promises of the run that it leaves and of the event that it returns.
pub record Recomputed (run : RunRecord) (event : Option DaemonEvent) (run' : RunRecord)
    : Type 0 where
  pub run_id_kept : run'.run_id ≡ run.run_id
  pub services_kept : run'.services ≡ run.services
  pub stopped_kept : same_lifecycle run.state RunLifecycle.stopped ≡ true → run' ≡ run
  pub state_computed :
      same_lifecycle run.state RunLifecycle.stopped ≡ false
      → run'.state ≡ summary (states_of (values run.services))
  pub event_iff :
      event
      ≡ (if same_lifecycle run'.state run.state then none else some (run_state_changed_event run'))

-- `recompute_run_state` keeps the run's id and its services. It leaves a stopped run as it is. Any other run becomes
-- degraded when some service is degraded or failed, else running when every service is ready, else
-- starting. It returns an event, of the run as it is then, exactly when the state changed.
pub recompute_run_state-Recomputed :
    (run : RunRecord) → Recomputed run (recompute_run_state run).0 (recompute_run_state run).1
recompute_run_state-Recomputed run =
    let same-self : same_lifecycle run.state run.state ≡ true = (same_lifecycle_iff _ _).1 refl in
    rw (recompute_run_state_eq run)
      (elim (Bool-cases (same_lifecycle run.state RunLifecycle.stopped)) [
        | inl t ↦ rw t (record {
          run_id_kept = refl;
          services_kept = refl;
          stopped_kept = λ _. refl;
          state_computed = λ f. cc (t, f);
          event_iff = rw same-self refl;
        })
        | inr f ↦ elim (Bool-cases (same_lifecycle (summary_of run) run.state)) [
          | inl t ↦
              rw (f, t)
                (record {
                  run_id_kept = refl;
                  services_kept = refl;
                  stopped_kept = λ s. cc (s, f);
                  state_computed = λ _. refl;
                  event_iff = rw t refl;
                })
          | inr g ↦
              rw (f, g)
                (record {
                  run_id_kept = refl;
                  services_kept = refl;
                  stopped_kept = λ s. cc (s, f);
                  state_computed = λ _. refl;
                  event_iff = rw g refl;
                })
        ]
      ])

-- A second call changes nothing and returns no event.
pub recompute_run_state_idempotent :
    (run : RunRecord)
    → recompute_run_state (recompute_run_state run).1 ≡ (none, (recompute_run_state run).1)
recompute_run_state_idempotent run =
    elim (Bool-cases (same_lifecycle run.state RunLifecycle.stopped)) [
      | inl t ↦ rw (recompute_run_state_eq run) (rw t (rw (recompute_run_state_eq run) (rw t refl)))
      | inr f ↦
          let again : recompute_run_state (summarised run) ≡ (none, summarised run) =
            rw (recompute_run_state_eq (summarised run)) (
              rw (summary_not_stopped (states_of (values run.services)))
                (rw ((same_lifecycle_iff (summary_of run) (summary_of run)).1 refl) refl)) in
          rw (recompute_run_state_eq run)
            (elim (Bool-cases (same_lifecycle (summary_of run) run.state)) [
              | inl t ↦ rw (f, t) again
              | inr g ↦ rw (f, g) again
            ])
    ]
