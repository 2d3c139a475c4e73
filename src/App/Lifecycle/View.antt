-- ===== src/App/Lifecycle/View.antt =====
-- What a subscriber to the daemon's events knows of a run: the run's state and those of its services,
-- each as the last event left it.

use devstack.Common.{
  String, ◌≡◌, refl, ap, subst, inl, inr, Option, none, some, List, [], ◌∷◌, ◌++◌, if◌then◌else◌,
  str_key, nat_key, ◌==◌, key_cases, beq_refl,
}
use devstack.Common.BTreeMap.{BTreeMap, get, values, modify}
use devstack.Model.Service.{ServiceState, ServiceRecord}
use devstack.Model.Run.{RunLifecycle, RunRecord}
use devstack.Model.Event.{
  DaemonEvent, run_event, service_event, service_state_changed_event, run_state_changed_event,
}
use devstack.Stores.Runs.{states_of}

pub record View : Type 0 where
  pub state : RunLifecycle
  pub services : BTreeMap String ServiceState

abbrev pub service_states : BTreeMap String ServiceRecord → BTreeMap String ServiceState
service_states [] = []
service_states ((name, r) ∷ m) = (name, r.runtime.state) ∷ service_states m

abbrev pub view : RunRecord → View
view run = record { state = run.state; services = service_states run.services }

pub view_cong :
    {a b : RunLifecycle} {m n : BTreeMap String ServiceState}
    → a ≡ b
    → m ≡ n
    → ◌≡◌ {A = View} (record { state = a; services = m }) (record { state = b; services = n })
view_cong e f = λ i. record { state = e i; services = f i }

abbrev set_lifecycle : Option RunLifecycle → View → View
set_lifecycle none v = v
set_lifecycle (some state) v = record v { state = state }

-- What a subscriber who follows one run makes of an event.
unfoldable pub apply_event : String → DaemonEvent → View → View
apply_event run_id (run_event e) v = if e.run_id == run_id then set_lifecycle e.state v else v
apply_event run_id (service_event e) v =
    if e.run_id == run_id
    then record v { services = modify e.service (λ _. e.state) v.services }
    else v
apply_event run_id _ v = v

unfoldable pub replay : String → List DaemonEvent → View → View
replay run_id [] v = v
replay run_id (e ∷ events) v = replay run_id events (apply_event run_id e v)

pub replay-append :
    (run_id : String) (es fs : List DaemonEvent) (v : View)
    → replay run_id (es ++ fs) v ≡ replay run_id fs (replay run_id es v)
unfolding replay
replay-append run_id [] fs v = refl
replay-append run_id (e ∷ es) fs v = replay-append run_id es fs (apply_event run_id e v)

pub apply_event-run :
    (run : RunRecord) (v : View)
    → apply_event run.run_id (run_state_changed_event run) v ≡ record v { state = run.state }
unfolding apply_event run_state_changed_event
apply_event-run run v = rw (beq_refl run.run_id) refl

pub apply_event-service :
    (run_id service : String) (state : ServiceState) (v : View)
    → apply_event run_id (service_state_changed_event run_id service state) v
      ≡ record v { services = modify service (λ _. state) v.services }
unfolding apply_event service_state_changed_event
apply_event-service run_id service state v = rw (beq_refl run_id) refl

-- A change of one record changes at most its service's state.
pub service_states-modify :
    (name : String) (f : ServiceRecord → ServiceRecord) (r : ServiceRecord)
    (m : BTreeMap String ServiceRecord)
    → get name m ≡ some r
    → service_states (modify name f m) ≡ modify name (λ _. (f r).runtime.state) (service_states m)
service_states-modify name f r [] h = cc
service_states-modify name f r ((b, w) ∷ m) h = elim (key_cases b name) [
  | inl (t, _) ↦
      let same : w ≡ r = cc (rw t at h) in
      rw t (ap (λ (z : ServiceRecord). (b, (f z).runtime.state) ∷ service_states m) same)
  | inr (n, _) ↦
      rw n (ap (λ z. (b, w.runtime.state) ∷ z) (service_states-modify name f r m (rw n at h)))
]

pub service_states-modify_same :
    (name : String) (f : ServiceRecord → ServiceRecord) (r : ServiceRecord)
    (m : BTreeMap String ServiceRecord)
    → get name m ≡ some r
    → (f r).runtime.state ≡ r.runtime.state
    → service_states (modify name f m) ≡ service_states m
service_states-modify_same name f r [] h e = cc
service_states-modify_same name f r ((b, w) ∷ m) h e = elim (key_cases b name) [
  | inl (t, _) ↦
      let same : r ≡ w = cc (rw t at h) in
      let kept : (f w).runtime.state ≡ w.runtime.state =
        subst (λ (z : ServiceRecord). (f z).runtime.state ≡ z.runtime.state) same e in
      rw t (ap (λ z. (b, z) ∷ service_states m) kept)
  | inr (n, _) ↦
      rw n
        (ap (λ z. (b, w.runtime.state) ∷ z) (service_states-modify_same name f r m (rw n at h) e))
]

pub states_of-values :
    (m : BTreeMap String ServiceRecord) → states_of (values m) ≡ values (service_states m)
states_of-values [] = refl
states_of-values ((b, w) ∷ m) = ap (λ z. w.runtime.state ∷ z) (states_of-values m)
