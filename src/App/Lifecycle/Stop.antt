-- ===== src/App/Lifecycle/Stop.antt =====
-- src/app/commands/runs.rs: `down` and `kill` stop every service of a run.

use devstack.Common.{
  String, ◌≡◌, refl, sym, ap, ◌∙◌, inl, inr, false, [], ◌∷◌, arith, str_key, nat_key, Bool-cases,
  key_cases, beq_refl, beq-false_of_ne, All,
}
use devstack.Common.BTreeMap.{BTreeMap, contains_key, values, IsUnique}
use devstack.Model.Service.{ServiceState, ServiceRecord, same_state, set_state}
use devstack.Model.Run.{RunLifecycle}
use devstack.Stores.Runs.{set_service_state}
use devstack.App.Lifecycle.{stop_services}
use devstack.App.Lifecycle.View.{View, replay, apply_event-service, service_states}
use devstack.App.Lifecycle.Edits.{same_state_iff}

module _ (now run_id : String) where
  pub contains_key-stop_services :
      (c : String) (m : BTreeMap String ServiceRecord)
      → contains_key c (stop_services now run_id m).1 ≡ contains_key c m
  unfolding stop_services
  contains_key-stop_services c [] = refl
  contains_key-stop_services c ((name, r) ∷ m) = ground (arith, contains_key-stop_services c m)

  pub IsUnique-stop_services :
      (m : BTreeMap String ServiceRecord) → IsUnique m → IsUnique (stop_services now run_id m).1
  unfolding stop_services
  IsUnique-stop_services [] u = tt
  IsUnique-stop_services ((name, r) ∷ m) u =
      (contains_key-stop_services name m ∙ u.0, IsUnique-stop_services m u.1)

  with_service : String → ServiceState → View → View
  with_service name state v = record v { services = (name, state) ∷ v.services }

  -- The events of other services leave a service's state alone.
  stop_services-frame :
      (b : String) (s : ServiceState) (m : BTreeMap String ServiceRecord) (v : View)
      → contains_key b m ≡ false
      → replay run_id (stop_services now run_id m).0 (with_service b s v)
        ≡ with_service b s (replay run_id (stop_services now run_id m).0 v)
  unfolding stop_services replay with_service set_service_state
  stop_services-frame b s [] v h = refl
  stop_services-frame b s ((name, r) ∷ m) v h = elim (key_cases name b) [
    | inl (t, _) ↦ cc (rw t at h)
    | inr (f, n) ↦
        let absent : contains_key b m ≡ false = rw f at h in
        elim (Bool-cases (same_state r.runtime.state ServiceState.stopped)) [
          | inl quiet ↦ rw quiet (stop_services-frame b s m v absent)
          | inr loud ↦ rw loud (
              rw (apply_event-service run_id name ServiceState.stopped v) (
                rw (apply_event-service run_id name ServiceState.stopped (with_service b s v)) (
                  rw (beq-false_of_ne b name (λ e. n (sym e)))
                    (stop_services-frame b s m _ absent))))
        ]
  ]

  pub stop_services-replay :
      (m : BTreeMap String ServiceRecord) (state : RunLifecycle)
      → IsUnique m
      → replay run_id
          (stop_services now run_id m).0
          (record { state = state; services = service_states m })
        ≡ record { state = state; services = service_states (stop_services now run_id m).1 }
  unfolding stop_services replay with_service set_service_state set_state
  stop_services-replay [] state u = refl
  stop_services-replay ((name, r) ∷ m) state u =
      let v : View = record { state = state; services = service_states m } in
      let rest = stop_services-replay m state u.1 in
      elim (Bool-cases (same_state r.runtime.state ServiceState.stopped)) [
        | inl quiet ↦ rw quiet (
            stop_services-frame name r.runtime.state m v u.0
            ∙ ap (with_service name r.runtime.state) rest)
        | inr loud ↦ rw loud (
            rw
              (apply_event-service run_id name ServiceState.stopped
                (with_service name r.runtime.state v))
              (rw (beq_refl name) (
                stop_services-frame name ServiceState.stopped m v u.0
                ∙ ap (with_service name ServiceState.stopped) rest)))
      ]

  -- Every service is stopped then.
  pub stop_services-All :
      (m : BTreeMap String ServiceRecord)
      → All (λ s. s ≡ ServiceState.stopped) (values (service_states (stop_services now run_id m).1))
  unfolding stop_services set_service_state set_state
  stop_services-All [] = tt
  stop_services-All ((name, r) ∷ m) =
      elim (Bool-cases (same_state r.runtime.state ServiceState.stopped)) [
        | inl t ↦
            rw t ((same_state_iff r.runtime.state ServiceState.stopped).0 t, stop_services-All m)
        | inr f ↦ rw f (refl, stop_services-All m)
      ]
