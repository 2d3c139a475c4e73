-- ===== src/App/Refresh/Unchanged.antt =====
-- src/app/launch/watch.rs: a service that keeps running takes over what was prepared for it.

use devstack.Common.{
  ℕ, String, ◌≡◌, refl, sym, ap, subst, Bool, true, false, not, ◌||◌, Option, none, some, List, [],
  ◌∷◌, ◌++◌, eqb, if◌then◌else◌, str_key, nat_key, ◌==◌,
}
use devstack.Model.Service.{
  ServiceState, ServiceRecord, stop_health_monitor, stop_watch, stop_api_capture, taken,
}
use devstack.App.Launch.{PreparedService, spec_of, launch_of}

-- `!=` on lists of texts and on ports
abbrev same_texts : List String → List String → Bool
same_texts [] [] = true
same_texts (x ∷ xs) (y ∷ ys) = let rest = same_texts xs ys in if x == y then rest else false
same_texts _ _ = false

abbrev same_port : Option ℕ → Option ℕ → Bool
same_port none none = true
same_port (some a) (some b) = a == b
same_port _ _ = false

abbrev same_flag : Bool → Bool → Bool
same_flag true true = true
same_flag false false = true
same_flag _ _ = false

unfoldable pub capture_config_changed : ServiceRecord → PreparedService → Bool
capture_config_changed service prepared =
    not (same_flag service.launch.capture_api prepared.capture_api)
    || not (eqb service.launch.capture_api_body_limit prepared.capture_api_body_limit)
    || not (same_texts service.launch.capture_api_ignore prepared.capture_api_ignore)
    || not (same_port service.launch.port prepared.port)
    || not (same_port service.launch.listen_port prepared.listen_port)

-- The reset of the state: the monitor and the watcher are stopped.
unfoldable pub reset_runtime : Bool → ServiceRecord → List ℕ × ServiceRecord
reset_runtime false service = ([], service)
reset_runtime true service =
    let (without_health, health) = stop_health_monitor service in
    let (without_watch, watch) = stop_watch without_health in
    (
      health ++ watch,
      record without_watch {
        runtime = record (without_watch.runtime) {
          state = ServiceState.starting;
          last_failure = none;
        };
      },
    )

abbrev unpause : Bool → ServiceRecord → ServiceRecord
unpause changed service =
    if changed
    then record service { runtime = record (service.runtime) { watch_paused = false } }
    else service

abbrev stop_capture : Bool → List ℕ × ServiceRecord → List ℕ × ServiceRecord
stop_capture changed (stopped, service) =
    let (without, handles) = stop_api_capture service in
    if changed then (stopped ++ handles, without) else (stopped, service)

-- The specification is taken over before `auto_restart` is compared, and the launch plan after the old
-- one is compared.
unfoldable pub apply_prepared_to_runtime :
    PreparedService → Bool → ServiceRecord → List ℕ × ServiceRecord
apply_prepared_to_runtime prepared reset_state service₀ =
    let (stopped, service₁) = reset_runtime reset_state service₀ in
    let service₂ : ServiceRecord = record service₁ { spec = spec_of prepared } in
    let changed = capture_config_changed service₂ prepared in
    let service₃ : ServiceRecord = record service₂ { launch = launch_of prepared } in
    let service₄ =
      unpause (not (same_flag service₃.spec.auto_restart prepared.auto_restart)) service₃ in
    stop_capture changed (stopped, service₄)

same_flag_refl : (b : Bool) → same_flag b b ≡ true
same_flag_refl true = refl
same_flag_refl false = refl

abbrev taken_over : PreparedService → ServiceRecord → ServiceRecord
taken_over prepared service = record service {
  spec = spec_of prepared;
  launch = launch_of prepared;
}

apply_prepared_to_runtime-eq :
    (prepared : PreparedService) (service : ServiceRecord)
    → apply_prepared_to_runtime prepared false service
      ≡ stop_capture
          (capture_config_changed (record service { spec = spec_of prepared }) prepared)
          ([], taken_over prepared service)
unfolding apply_prepared_to_runtime reset_runtime spec_of
apply_prepared_to_runtime-eq prepared service =
    ap
      (λ same.
        stop_capture (capture_config_changed (record service { spec = spec_of prepared }) prepared)
          ([], unpause (not same) (taken_over prepared service)))
      (same_flag_refl prepared.auto_restart)

abbrev KeptRunning : PreparedService → ServiceRecord → List ℕ × ServiceRecord → Type 0
KeptRunning prepared service (stopped, after) =
    (after.spec ≡ spec_of prepared)
    × (after.launch ≡ launch_of prepared)
    × (after.runtime ≡ service.runtime)
    × (after.handles.health ≡ service.handles.health)
    × (after.handles.watch ≡ service.handles.watch)
    × (stopped ++ taken after.handles.api_capture ≡ taken service.handles.api_capture)

append_nil : (xs : List ℕ) → xs ++ [] ≡ xs
append_nil [] = refl
append_nil (x ∷ xs) = ap (λ z. x ∷ z) (append_nil xs)

stop_capture-KeptRunning :
    (changed : Bool) (prepared : PreparedService) (service : ServiceRecord)
    → KeptRunning prepared service (stop_capture changed ([], taken_over prepared service))
unfolding stop_api_capture
stop_capture-KeptRunning true prepared service =
    (refl, refl, refl, refl, refl, append_nil (taken service.handles.api_capture))
stop_capture-KeptRunning false prepared service = (refl, refl, refl, refl, refl, refl)

-- A service that keeps running, which is not reset, has the new specification and launch plan; its
-- state, failure and times stay, and so do the pause of its watcher, whatever becomes of auto_restart, its
-- health monitor and its watcher. The capture proxy is the one background task that can be stopped.
pub apply_prepared_to_runtime_lem :
    (prepared : PreparedService) (service : ServiceRecord)
    → let (stopped, after) = apply_prepared_to_runtime prepared false service in
      (after.spec ≡ spec_of prepared)
      × (after.launch ≡ launch_of prepared)
      × (after.runtime ≡ service.runtime)
      × (after.handles.health ≡ service.handles.health)
      × (after.handles.watch ≡ service.handles.watch)
      × (stopped ++ taken after.handles.api_capture ≡ taken service.handles.api_capture)
apply_prepared_to_runtime_lem prepared service =
    subst (KeptRunning prepared service) (sym (apply_prepared_to_runtime-eq prepared service))
      (stop_capture-KeptRunning _ prepared service)
