-- ===== src/App/Lifecycle/Edits.antt =====
-- The edits of one service: each tells its subscribers of the state that it leaves.

use devstack.Common.BTreeMap.{get}
use devstack.Common.{
  ℕ, String, ◌≡◌, refl, sym, ap, ◌∙◌, subst, ◌↔◌, ◌⊎◌, inl, inr, Bool, true, false, Option, none,
  some, List, [], ◌∷◌, arith, if◌then◌else◌, str_key, nat_key, Bool-cases, Option-cases,
}
use devstack.Model.Service.{ServiceState, ServiceRecord, same_state, set_state}
use devstack.Model.Run.{RunRecord, same_lifecycle}
use devstack.Model.Event.{DaemonEvent, service_state_changed_event, run_state_changed_event}
use devstack.Stores.Runs.{set_service_state, recompute_run_state}
use devstack.Stores.Runs.Recompute.{Recomputed, recompute_run_state-Recomputed, same_lifecycle_iff}
use devstack.App.Lifecycle.{
  Edit, edit_service, change_state, degrade_edit, ready_edit, recover_edit, then_recompute, to_list,
  is_exit, with_monitor,
}
use devstack.App.Lifecycle.View.{
  view, replay, apply_event-service, replay-append, service_states-modify,
  service_states-modify_same, apply_event, apply_event-run, service_states, view_cong,
}

-- Either the state stays and there is no event, or the one event names the new state.
pub Announced : String → String → ServiceRecord → List DaemonEvent × ServiceRecord → Type 0
Announced run_id service r (events, r') =
    (events ≡ []) × (r'.runtime.state ≡ r.runtime.state)
    ⊎ (events ≡ service_state_changed_event run_id service r'.runtime.state ∷ [])

pub AnnouncedEdit : String → String → Edit → Type 0
unfolding Announced
AnnouncedEdit run_id service edit = (r : ServiceRecord) → Announced run_id service r (edit r)

pub same_state_iff : (a b : ServiceState) → (same_state a b ≡ true) ↔ (a ≡ b)
same_state_iff a b = ground arith

set_service_state-Announced :
    (now run_id service : String) (state : ServiceState) (r : ServiceRecord)
    → Announced run_id service r (
      to_list (set_service_state now run_id service state r).0,
      (set_service_state now run_id service state r).1,
    )
unfolding set_service_state set_state Announced
set_service_state-Announced now run_id service state r =
    elim (Bool-cases (same_state r.runtime.state state)) [
      | inl t ↦ rw t (inl (refl, refl))
      | inr f ↦ rw f (inr refl)
    ]

pub change_state-Announced :
    (now run_id service : String) (state : ServiceState) (failure : Option String)
    → AnnouncedEdit run_id service (change_state now run_id service state failure)
unfolding change_state AnnouncedEdit Announced
change_state-Announced now run_id service state failure r =
    set_service_state-Announced now run_id service state r

with_monitor-Announced :
    (run_id service : String) (handle : ℕ) (r : ServiceRecord)
    (step : List DaemonEvent × ServiceRecord)
    → Announced run_id service r step
    → Announced run_id service r (with_monitor handle step)
unfolding with_monitor Announced
with_monitor-Announced run_id service handle r (events, s) a =
    elim (Option-cases s.handles.health) [
      | inr (old, e) ↦ rw e a
      | inl n ↦
          rw n
            (elim (Bool-cases (is_exit s.spec.readiness.kind)) [ inl t ↦ rw t a | inr f ↦ rw f a ])
    ]

pub ready_edit-Announced :
    (now run_id service : String) (handle : ℕ)
    → AnnouncedEdit run_id service (ready_edit now run_id service handle)
unfolding ready_edit AnnouncedEdit
ready_edit-Announced now run_id service handle r =
    with_monitor-Announced run_id service handle r
      (change_state now run_id service ServiceState.ready none r)
      (change_state-Announced now run_id service ServiceState.ready none r)

-- An edit that is made only when a test holds.
guarded-Announced :
    (run_id service : String) (r : ServiceRecord) (test : Bool)
    (step : List DaemonEvent × ServiceRecord)
    → Announced run_id service r step
    → Announced run_id service r (if test then step else ([], r))
unfolding Announced
guarded-Announced run_id service r true step a = a
guarded-Announced run_id service r false step a = inl (refl, refl)

pub recover_edit-Announced :
    (now run_id service : String) → AnnouncedEdit run_id service (recover_edit now run_id service)
unfolding recover_edit AnnouncedEdit
recover_edit-Announced now run_id service r =
    guarded-Announced run_id service r _ (change_state now run_id service ServiceState.ready none r)
      (change_state-Announced now run_id service ServiceState.ready none r)

pub degrade_edit-Announced :
    (now run_id service : String) → AnnouncedEdit run_id service (degrade_edit now run_id service)
unfolding degrade_edit AnnouncedEdit
degrade_edit-Announced now run_id service r = guarded-Announced run_id service r _ _ (
    change_state-Announced now run_id service ServiceState.degraded (some "health checks failing")
      r)

-- After an announced edit a subscriber who replays the events knows the states as they are.
pub edit_service-replay :
    (service : String) (edit : Edit) (run : RunRecord)
    → AnnouncedEdit run.run_id service edit
    → replay run.run_id (edit_service service edit run).0 (view run)
      ≡ view (edit_service service edit run).1
unfolding edit_service replay AnnouncedEdit Announced
edit_service-replay service edit run a = elim (Option-cases (get service run.services)) [
  | inl n ↦ rw (n, edit_service) refl
  | inr (r, e) ↦
      let change : ServiceRecord → ServiceRecord = λ x. (edit x).1 in
      rw (e, edit_service)
        (elim (a r) [
          | inl (quiet, same) ↦ rw quiet (
              view_cong refl
                (sym (service_states-modify_same service change r run.services e same)))
          | inr told ↦ rw told (
              apply_event-service run.run_id service (edit r).1.runtime.state (view run)
              ∙ view_cong refl (sym (service_states-modify service change r run.services e)))
        ])
]

pub then_recompute-replay :
    (before : RunRecord) (step : List DaemonEvent × RunRecord)
    → step.1.run_id ≡ before.run_id
    → replay before.run_id step.0 (view before) ≡ view step.1
    → replay before.run_id (then_recompute step).0 (view before) ≡ view (then_recompute step).1
unfolding then_recompute replay
then_recompute-replay before (events, run) same h =
    let run' : RunRecord = (recompute_run_state run).1 in
    let done : Recomputed run (recompute_run_state run).0 run' =
      recompute_run_state-Recomputed run in
    let split =
      replay-append before.run_id events (to_list (recompute_run_state run).0) (view before) in
    split
    ∙ rw h (
        rw done.event_iff (elim (Bool-cases (same_lifecycle run'.state run.state)) [
          | inl t ↦ rw t (
              view_cong (sym ((same_lifecycle_iff run'.state run.state).0 t))
                (ap service_states (sym done.services_kept)))
          | inr f ↦ rw f (
              subst
                (λ id.
                  apply_event id (run_state_changed_event run') (view run)
                  ≡ record (view run) { state = run'.state })
                (done.run_id_kept ∙ same) (apply_event-run run' (view run))
              ∙ view_cong refl (ap service_states (sym done.services_kept)))
        ]))
