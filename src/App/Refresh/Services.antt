-- ===== src/App/Refresh/Services.antt =====
-- src/app/commands/runs.rs: the services that a run has after a refresh.

use devstack.Common.{
  String, ◌≡◌, refl, ap, ◌∙◌, subst, inl, inr, Bool, true, false, not, ◌&&◌, none, some, List,
  if◌then◌else◌, str_key, nat_key, ◌==◌, Bool-cases, Option-cases, key_cases,
}
use devstack.Common.BTreeMap.{
  BTreeMap, get, contains_key, insert, remove, contains_key-insert, contains_key-remove,
  contains_key_of_get, contains_key-modify,
}
use devstack.Model.Service.{ServiceRecord}
use devstack.Model.Run.{RunRecord}
use devstack.Model.Event.{DaemonEvent}
use devstack.Stores.Runs.{recompute_run_state}
use devstack.Stores.Runs.Recompute.{recompute_run_state-Recomputed}
use devstack.App.Lifecycle.{stop_run, edit_service, then_recompute}
use devstack.App.Lifecycle.Steps.{
  Steps, StepKind, done, step_then, step_kind, idle, edited, recomputed, stopped_at_time,
}
use devstack.App.Lifecycle.Stop.{contains_key-stop_services}
use devstack.App.Launch.{PreparedService}
use devstack.App.Refresh.{
  Turn, ExistingServiceSnapshot, service_needs_restart, record_failed_init_service,
  store_service_launch_result, replace_service_record,
}
use devstack.App.Refresh.Launch.{is_empty, LaunchWorld, sync_unchanged_service, launch_turn}

-- Two runs that have services of the same names.
abbrev pub SameNames : RunRecord → RunRecord → Type 0
SameNames run run' = (c : String) → contains_key c run'.services ≡ contains_key c run.services

pub recompute_run_state-names : (run : RunRecord) → SameNames run (recompute_run_state run).1
recompute_run_state-names run c =
    ap (contains_key c) (recompute_run_state-Recomputed run).services_kept

kind-names :
    {run : RunRecord} {after : List DaemonEvent × RunRecord}
    → StepKind run after
    → SameNames run after.1
unfolding then_recompute edit_service stop_run
kind-names idle c = refl
kind-names {run} (edited service edit a) c =
    recompute_run_state-names (edit_service service edit run).1 c
    ∙ elim (Option-cases (get service run.services)) [
      | inl lost ↦ rw (lost, edit_service) refl
      | inr (r, there) ↦ rw (there, edit_service) (contains_key-modify service c _ run.services)
    ]
kind-names {run} recomputed c = recompute_run_state-names run c
kind-names {run} (stopped_at_time now) c = contains_key-stop_services now run.run_id c run.services

-- What tasks do to a run does not change which services it has.
pub Steps-names :
    {run run' : RunRecord} {events : List DaemonEvent} → Steps run events run' → SameNames run run'
Steps-names done c = refl
Steps-names (step_then s rest) c = Steps-names rest c ∙ kind-names (step_kind s) c

contains_key-replace :
    (name c : String) (service : ServiceRecord) (m : BTreeMap String ServiceRecord)
    → contains_key c (insert name service (remove name m))
      ≡ (if name == c then true else contains_key c m)
contains_key-replace name c service m =
    contains_key-insert name c service (remove name m) ∙ elim (Bool-cases (name == c)) [
      | inl t ↦ rw t refl
      | inr f ↦ rw f (contains_key-remove name c m ∙ rw f refl)
    ]

sync_unchanged_service-names :
    (name : String) (prepared : PreparedService) (run : RunRecord)
    → SameNames run (sync_unchanged_service name prepared run).run
unfolding sync_unchanged_service
sync_unchanged_service-names name prepared run c = elim (Option-cases (get name run.services)) [
  | inl lost ↦ rw (lost, sync_unchanged_service) refl
  | inr (r, there) ↦ rw (there, sync_unchanged_service) (contains_key-modify name c _ run.services)
]

-- A service that needs no restart was there before.
service_needs_restart-existing :
    (force : Bool) (existing : BTreeMap String ExistingServiceSnapshot) (name : String)
    (prepared : PreparedService)
    → service_needs_restart force existing name prepared ≡ false
    → contains_key name existing ≡ true
unfolding service_needs_restart
service_needs_restart-existing true existing name prepared h = cc
service_needs_restart-existing false existing name prepared h =
    elim (Option-cases (get name existing)) [
      | inl lost ↦ cc (rw (lost, service_needs_restart) at h)
      | inr (snapshot, there) ↦ contains_key_of_get name existing snapshot there
    ]

and_not : (a b : Bool) → (not a && not b) ≡ true → b ≡ false
and_not true b h = cc
and_not false true h = cc
and_not false false h = refl

mem_or_there :
    (name c : String) (m : BTreeMap String ServiceRecord)
    → contains_key name m ≡ true
    → contains_key c m ≡ (if name == c then true else contains_key c m)
mem_or_there name c m h = elim (key_cases name c) [
  | inl (t, e) ↦ rw t (subst (λ z. contains_key z m ≡ true) e h)
  | inr (f, n) ↦ rw f refl
]

module _ (world : LaunchWorld) (force : Bool)
    (existing : BTreeMap String ExistingServiceSnapshot) where
  abbrev pub Adds : String → RunRecord → RunRecord → Type 0
  Adds name run run' =
      (c : String)
      → contains_key c run'.services ≡ (if name == c then true else contains_key c run.services)

  fresh_turn : String → PreparedService → RunRecord → Turn
  fresh_turn name prepared run = elim (world.init name) [
    | some error ↦ record_failed_init_service name prepared error run
    | none ↦ store_service_launch_result world.now name prepared (world.start name) run
  ]

  fresh_turn-Adds :
      (name : String) (prepared : PreparedService) (run : RunRecord)
      → Adds name run (fresh_turn name prepared run).run
  unfolding fresh_turn record_failed_init_service store_service_launch_result replace_service_record
  fresh_turn-Adds name prepared run c = elim (Option-cases (world.init name)) [
    | inl fine ↦ rw (fine, fresh_turn) (contains_key-replace name c _ run.services)
    | inr (error, failed) ↦ rw (failed, fresh_turn) (contains_key-replace name c _ run.services)
  ]

  pub launch_turn-Adds :
      (name : String) (prepared : PreparedService) (run : RunRecord)
      → (contains_key name existing ≡ true → contains_key name run.services ≡ true)
      → Adds name run (launch_turn world force existing name prepared run).run
  unfolding launch_turn fresh_turn
  launch_turn-Adds name prepared run there c =
      elim (Bool-cases
        (not (is_empty existing) && not (service_needs_restart force existing name prepared))) [
          | inr f ↦ rw (f, launch_turn) (fresh_turn-Adds name prepared run c)
          | inl t ↦
              rw (t, launch_turn)
                (sync_unchanged_service-names name prepared run c
                  ∙ mem_or_there name c run.services (
                      there (
                        service_needs_restart-existing force existing name prepared
                          (and_not _ _ t))))
        ]
