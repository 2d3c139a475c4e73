-- ===== src/Stores/Runs.antt =====
-- src/stores/runs.rs: the runs, by their ids.
pub mod Lookups
pub mod Recompute
use devstack.Common.{
  String, Bool, true, false, Option, none, some, List, [], ◌∷◌, if◌then◌else◌, str_key, nat_key,
}
use devstack.Common.BTreeMap.{BTreeMap, get, contains_key, insert, remove, values, modify}
use devstack.Common.Outcome.{Result, ok, err}
use devstack.Model.Service.{ServiceState, ServiceRecord, set_state, same_state}
use devstack.Model.Run.{RunLifecycle, RunRecord, same_lifecycle}
use devstack.Model.Event.{DaemonEvent, run_state_changed_event, service_state_changed_event}

pub data StoreError : Type 0 where
  already_exists not_found : StoreError

abbrev pub RunStore : Type 0
RunStore = BTreeMap String RunRecord

unfoldable pub create_run : RunRecord → RunStore → Result StoreError RunStore
create_run run store =
    if contains_key run.run_id store then err already_exists else ok (insert run.run_id run store)

unfoldable pub get_run : String → RunStore → Option RunRecord
get_run run_id store = get run_id store

unfoldable pub list_runs : RunStore → List RunRecord
list_runs store = values store

unfoldable pub remove_run : String → RunStore → Option RunRecord × RunStore
remove_run run_id store = (get run_id store, remove run_id store)

unfoldable pub contains_run : String → RunStore → Bool
contains_run run_id store = contains_key run_id store

-- The function returns the run as it leaves it, beside its result.
unfoldable pub with_run_mut {ℓ} :
    {A : Type ℓ}
    → String
    → (RunRecord → A × RunRecord)
    → RunStore
    → Result StoreError (A × RunStore)
with_run_mut run_id f store = elim (get run_id store) [
  | none ↦ err not_found
  | some run ↦ ok ((f run).0, modify run_id (λ r. (f r).1) store)
]

unfoldable pub with_run {ℓ} :
    {A : Type ℓ} → String → (RunRecord → A) → RunStore → Result StoreError A
with_run run_id f store = elim (get run_id store) [ none ↦ err not_found | some run ↦ ok (f run) ]

unfoldable pub set_service_state :
    String → String → String → ServiceState → ServiceRecord → Option DaemonEvent × ServiceRecord
set_service_state now run_id service state record₁ =
    if same_state record₁.runtime.state state
    then (none, record₁)
    else (some (service_state_changed_event run_id service state), set_state now state record₁)

-- The two flags of a loop over the services' states.
pub record Flags : Type 0 where
  pub all_ready : Bool
  pub any_degraded : Bool

unfoldable pub scan_state : ServiceState → Flags → Flags
scan_state ServiceState.ready flags = flags
scan_state ServiceState.starting flags = record flags { all_ready = false }
scan_state ServiceState.degraded flags = record { all_ready = false; any_degraded = true }
scan_state ServiceState.failed flags = record { all_ready = false; any_degraded = true }
scan_state ServiceState.stopped flags = record flags { all_ready = false }

unfoldable pub scan_states : List ServiceState → Flags → Flags
scan_states [] flags = flags
scan_states (s ∷ states) flags = scan_states states (scan_state s flags)

abbrev pub no_flags : Flags
no_flags = record { all_ready = true; any_degraded = false }

abbrev pub states_of : List ServiceRecord → List ServiceState
states_of [] = []
states_of (s ∷ services) = s.runtime.state ∷ states_of services

unfoldable pub next_state : Flags → RunLifecycle
next_state flags =
    if flags.any_degraded
    then RunLifecycle.degraded
    else if flags.all_ready
    then RunLifecycle.running
    else RunLifecycle.starting

unfoldable pub recompute_run_state : RunRecord → Option DaemonEvent × RunRecord
recompute_run_state run =
    let state = next_state (scan_states (states_of (values run.services)) no_flags) in
    let run' : RunRecord = record run { state = state } in
    if same_lifecycle run.state RunLifecycle.stopped
    then (none, run)
    else if same_lifecycle state run.state
    then (none, run')
    else (some (run_state_changed_event run'), run')
