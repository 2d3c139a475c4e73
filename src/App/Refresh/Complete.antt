-- ===== src/App/Refresh/Complete.antt =====
-- src/app/commands/runs.rs: a refresh leaves the run with the services of the plan.
use devstack.Common.{String, ◌≡◌, Bool, true, some, List, str_key, nat_key}
use devstack.Common.BTreeMap.{BTreeMap, contains_key}
use devstack.Config.Model.{StackPlan}
use devstack.Model.Run.{RunRecord}
use devstack.Model.Event.{DaemonEvent}
use devstack.App.Lifecycle.Steps.{Steps}
use devstack.App.Refresh.{ExistingServiceSnapshot}
use devstack.App.Refresh.Launch.{LaunchWorld}

-- What other tasks do in the meantime are steps of the run, which never add or remove a service. The code
-- does not lock a run against a second refresh or launch.
abbrev pub LaterSteps : LaunchWorld → Type 0
LaterSteps world =
    (name : String) (run run' : RunRecord) (events : List DaemonEvent)
    → world.later name run ≡ some (events, run')
    → Steps run events run'

module _ (world : LaunchWorld) (steps : LaterSteps world) (plan : StackPlan) (force : Bool)
    (existing : BTreeMap String ExistingServiceSnapshot) where
  abbrev Keeps : RunRecord → Type 0
  Keeps run =
      (c : String)
      → contains_key c plan.services ≡ true
      → contains_key c existing ≡ true
      → contains_key c run.services ≡ true
