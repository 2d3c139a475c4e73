-- ===== src/Examples/Launches.antt =====
-- A run that is refreshed: one service stays, one is new, and one is gone from the stack; and a collection
-- of old runs.
use devstack.Common.{
  ℕ, String, ◌≡◌, refl, true, false, Option, none, some, List, [], ◌∷◌, map, ltb, str_key, nat_key,
}
use devstack.Common.BTreeMap.{remove}
use devstack.Common.Outcome.{Result, ok, err, panic, out_of_fuel}
use devstack.Config.Model.{StackPlan}
use devstack.Model.Run.{RunRecord, RunLifecycle}
use devstack.Model.Event.{DaemonEvent, run_removed_event}
use devstack.Stores.Runs.{RunStore}
use devstack.App.Lifecycle.Steps.{Steps}
use devstack.App.Refresh.{Turn, existing_services}
use devstack.App.Refresh.Launch.{LaunchWorld, LaunchError, refresh_run, launch_turn}
use devstack.App.Refresh.Stopped.{Accounts, launch_turn-Accounts}
use devstack.App.Gc.{
  GcEnv, GcRequest, gc_threshold, run_gc, older_than_secs, gc_from, gc_answer, gc_runs, gc_each,
  is_expired,
}
use devstack.App.Gc.Removed.{named, run_gc-removed, Fate}
use devstack.Examples.Configs.{service as config_of}
use devstack.Examples.Runs.{run}
use devstack.Examples.Local.{prepared}

abbrev plan : StackPlan
plan = record {
  name = "dev";
  services = ("api", config_of []) ∷ ("web", config_of []) ∷ [];
  order = "api" ∷ "web" ∷ [];
}

abbrev world : LaunchWorld
world = record {
  now = "t1";
  prepare = λ name. some prepared;
  init = λ name. none;
  start = λ name. none;
  later = λ name run. some ([], run);
}

pair_of :
    (run : RunRecord) (o : Option (List DaemonEvent × RunRecord)) → List DaemonEvent × RunRecord
pair_of default none = ([], default)
pair_of default (some pair) = pair

abbrev finished : Result LaunchError Turn
finished = refresh_run world plan [] true run

abbrev turn_of : Result LaunchError Turn → Turn
turn_of (ok turn) = turn
turn_of (err e) = record { stopped = []; events = []; run = run }
turn_of panic = record { stopped = []; events = []; run = run }
turn_of out_of_fuel = record { stopped = []; events = []; run = run }

launch_turn-Accounts_example :
    Accounts "api" run (launch_turn world false (existing_services run) "api" prepared run)
launch_turn-Accounts_example =
    launch_turn-Accounts world false (existing_services run) "api" prepared run

abbrev env : GcEnv ℕ
env = record {
  parse_duration = λ text. none;
  ago = λ secs. some 100;
  parse_time = λ text. some 50;
  is_after = λ a b. ltb b a;
}

abbrev request : GcRequest
request = record { older_than = none; all_globals = false }

abbrev runs : RunStore
runs =
    ("1", run)
    ∷ ("2", record run { run_id = "2"; state = RunLifecycle.stopped; stopped_at = some "t0" })
    ∷ []

threshold-ok : gc_threshold env request ≡ ok 100
unfolding gc_threshold older_than_secs
threshold-ok = refl

run_gc-removed_example :
    ((c : String) → Fate env 100 runs (run_gc env request none runs) c)
    × ((run_gc env request none runs).events
        ≡ map run_removed_event (named (run_gc env request none runs).result))
run_gc-removed_example = run_gc-removed env request none runs 100 threshold-ok

removed_two : (run_gc env request none runs).events ≡ run_removed_event "2" ∷ []
unfolding run_gc gc_from gc_answer gc_runs gc_each gc_threshold older_than_secs is_expired remove
removed_two = refl
