-- ===== src/App/Status/Reported.antt =====
-- src/app/queries/status.rs: how the reported state of a run stands to the state in the run store.

use devstack.Common.{
  String, ◌≡◌, refl, sym, ap, ◌∙◌, subst, ◌≢◌, inl, inr, Bool, true, false, ◌||◌, Option, some,
  List, [], ◌∷◌, if◌then◌else◌, str_key, nat_key, Bool-cases, key_cases, any, all,
}
use devstack.Common.BTreeMap.{BTreeMap, get, values}
use devstack.Model.Service.{ServiceState, ServiceRecord}
use devstack.Model.Run.{RunLifecycle, RunRecord, is_stopped}
use devstack.Stores.Runs.{no_flags, states_of}
use devstack.Stores.Runs.Recompute.{
  is_bad, is_ready, summary, scan_states-any_degraded, scan_states-all_ready,
}
use devstack.App.Status.{
  SystemdStatus, reported_state, derived_states, derived_state, failed_state, has_failed,
  unit_failed,
}

-- The report with the services' states in place of the loop.
reported_state_eq :
    (units : String → Option SystemdStatus) (run : RunRecord)
    → reported_state units run ≡ (
        if any is_bad (derived_states units run.state run.services)
        then RunLifecycle.degraded
        else if all is_ready (derived_states units run.state run.services)
        then RunLifecycle.running
        else run.state)
unfolding reported_state
reported_state_eq units run =
    rw
      (
        scan_states-any_degraded (derived_states units run.state run.services) no_flags,
        scan_states-all_ready (derived_states units run.state run.services) no_flags,
      )
      refl

derived_states-healthy :
    (units : String → Option SystemdStatus) (state : RunLifecycle)
    (m : BTreeMap String ServiceRecord)
    → ((name : String) → has_failed state (units name) ≡ false)
    → derived_states units state m ≡ states_of (values m)
unfolding derived_states derived_state
derived_states-healthy units state [] h = refl
derived_states-healthy units state ((name, r) ∷ m) h =
    rw (h r.launch.unit_name)
      (ap (λ z. r.runtime.state ∷ z) (derived_states-healthy units state m h))

report_of_summary :
    (states : List ServiceState) (state : RunLifecycle)
    → state ≡ summary states
    → (if any is_bad states
        then RunLifecycle.degraded
        else if all is_ready states
        then RunLifecycle.running
        else state)
      ≡ state
report_of_summary states state e = elim (Bool-cases (any is_bad states)) [
  | inl t ↦ rw t (sym (rw t at e))
  | inr f ↦ elim (Bool-cases (all is_ready states)) [
    | inl t ↦ rw (f, t) (sym (rw (f, t) at e))
    | inr n ↦ rw (f, n) refl
  ]
]

or_true : (a b : Bool) → b ≡ true → (a || b) ≡ true
or_true true b h = refl
or_true false b h = h

-- While no unit has failed, the report on a run that is not stopped, and whose state is the one that
-- its services' states say, is that state.
pub reported_state-healthy :
    (units : String → Option SystemdStatus) (run : RunRecord)
    → ((name : String) → has_failed run.state (units name) ≡ false)
    → run.state ≡ summary (states_of (values run.services))
    → reported_state units run ≡ run.state
reported_state-healthy units run h settled =
    reported_state_eq units run
    ∙ rw (derived_states-healthy units run.state run.services h)
        (report_of_summary (states_of (values run.services)) run.state settled)

failed_state-bad : (s : ServiceState) → s ≢ ServiceState.stopped → is_bad (failed_state s) ≡ true
unfolding failed_state
failed_state-bad ServiceState.starting n = refl
failed_state-bad ServiceState.ready n = refl
failed_state-bad ServiceState.failed n = refl
failed_state-bad ServiceState.stopped n = absurd (n refl)
failed_state-bad ServiceState.degraded n = refl

derived_states-bad :
    (units : String → Option SystemdStatus) (state : RunLifecycle) (name : String)
    (r : ServiceRecord) (m : BTreeMap String ServiceRecord)
    → get name m ≡ some r
    → is_bad (derived_state state (units r.launch.unit_name) r.runtime.state) ≡ true
    → any is_bad (derived_states units state m) ≡ true
unfolding derived_states
derived_states-bad units state name r [] g h = cc
derived_states-bad units state name r ((b, w) ∷ m) g h = elim (key_cases b name) [
  | inl (t, _) ↦
      let same : r ≡ w = cc (rw t at g) in
      let here : is_bad (derived_state state (units w.launch.unit_name) w.runtime.state) ≡ true =
        subst
          (λ (z : ServiceRecord).
            is_bad (derived_state state (units z.launch.unit_name) z.runtime.state) ≡ true)
          same h in
      rw here refl
  | inr (f, _) ↦ or_true _ _ (derived_states-bad units state name r m (rw f at g) h)
]

-- When the unit of a service that is not stopped has failed, the report on a run that is not stopped
-- is that it is degraded, whatever the run store says.
pub reported_state-failed :
    (units : String → Option SystemdStatus) (run : RunRecord) (name : String) (r : ServiceRecord)
    (unit : SystemdStatus)
    → is_stopped run ≡ false
    → get name run.services ≡ some r
    → units r.launch.unit_name ≡ some unit
    → unit_failed unit ≡ true
    → r.runtime.state ≢ ServiceState.stopped
    → reported_state units run ≡ RunLifecycle.degraded
unfolding is_stopped derived_state
reported_state-failed units run name r unit active g u broken going =
    let bad : is_bad (derived_state run.state (units r.launch.unit_name) r.runtime.state) ≡ true =
      rw (u, active, broken, derived_state) (failed_state-bad r.runtime.state going) in
    reported_state_eq units run
    ∙ rw (derived_states-bad units run.state name r run.services g bad) refl
