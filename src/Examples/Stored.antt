-- ===== src/Examples/Stored.antt =====
-- An agent that is sent two messages, and a task that runs and finishes.
use devstack.Common.{
  ℕ, String, ◌≡◌, refl, ◌≢◌, ◌↔◌, ◌⊎◌, true, ◌||◌, Option, none, some, [], ◌∷◌, ◌++◌, ltb,
  if◌then◌else◌, str_key, nat_key,
}
use devstack.Common.BTreeMap.{get, retain}
use devstack.Common.Outcome.{ok, err}
use devstack.Common.Int.{pos}
use devstack.Ports.{KillReply, delivered}
use devstack.Model.Event.{TaskExecutionState, same_task_state}
use devstack.Stores.AgentSessions.{
  AgentSessionStore, AgentSessionState, is_pid_alive, cleanup_stale_sessions_internal,
  drain_messages, poll_messages, push_message, queue_message,
}
use devstack.Stores.AgentSessions.Calls.{
  Calls, done, call_then, queue, poll, after, accepted, handed, pending,
}
use devstack.Stores.AgentSessions.Delivery.{Calls-delivery}
use devstack.Examples.Configs.{service as config_of}
use devstack.Examples.Runs.{service}
use devstack.Model.Service.{ServiceState}
use devstack.Model.Run.{RunLifecycle}
use devstack.Stores.Globals.{GlobalRecord, GlobalStore, upsert_global, get_global}
use devstack.Stores.Globals.Handles.{upsert_global_lem}
use devstack.Stores.Runs.{StoreError}
use devstack.Stores.Tasks.{
  DetachedTaskExecution, TaskStore, Clock, get_task, cleanup_finished_tasks, cutoff,
  has_running_task, update_task_state,
}
use devstack.Stores.Tasks.Running.{
  has_running_task_iff, InScope, cleanup_finished_tasks-get, update_task_state_lem,
}

abbrev all_live : ℕ → KillReply
all_live pid = delivered

abbrev session : AgentSessionState
session = record {
  agent_id = "a";
  project_dir = "/project";
  stack = none;
  command = "agent";
  pid = 7;
  created_at = "t0";
  pending_messages = "zero" ∷ [];
}

abbrev start : AgentSessionStore
start = ("a", session) ∷ []

abbrev queued : AgentSessionStore
queued = after all_live (queue "a" "one") start

abbrev polled : AgentSessionStore
polled = after all_live (poll "a") queued

abbrev waiting : AgentSessionState
waiting = record session { pending_messages = "zero" ∷ "one" ∷ [] }

alive : is_pid_alive all_live 7 ≡ true
unfolding is_pid_alive
alive = refl

start-get : get "a" start ≡ some session
start-get = refl

queued-get : get "a" queued ≡ some waiting
unfolding after queue_message cleanup_stale_sessions_internal is_pid_alive push_message retain
queued-get = refl

calls :
    Calls "a" start
      (accepted "a" all_live (queue "a" "one") start
        ++ (accepted "a" all_live (poll "a") queued ++ []))
      (handed "a" all_live (queue "a" "one") start ++ (handed "a" all_live (poll "a") queued ++ []))
      polled
calls =
    call_then all_live (queue "a" "one") session start-get alive refl
      (call_then all_live (poll "a") waiting queued-get alive refl done)

handed_in_order : handed "a" all_live (poll "a") queued ≡ "zero" ∷ "one" ∷ []
unfolding handed poll_messages drain_messages after queue_message cleanup_stale_sessions_internal
    is_pid_alive push_message retain
handed_in_order = refl

Calls-delivery_example :
    pending "a" start
      ++ (accepted "a" all_live (queue "a" "one") start
          ++ (accepted "a" all_live (poll "a") queued ++ []))
    ≡ (handed "a" all_live (queue "a" "one") start ++ (handed "a" all_live (poll "a") queued ++ []))
      ++ pending "a" polled
Calls-delivery_example = Calls-delivery (refl, tt) calls

abbrev task : DetachedTaskExecution
task = record {
  execution_id = "e";
  task = "build";
  project_dir = "/project";
  run_id = some "1";
  state = TaskExecutionState.running;
  started_at = "t0";
  started_at_instant = 100;
  finished_at = none;
  exit_code = none;
  duration_ms = none;
}

abbrev tasks : TaskStore
tasks = ("e", task) ∷ []

abbrev clock : Clock
clock = record { now = "t1"; instant = 9000 }

has_running_task_iff_example :
    (has_running_task some "build" (some "1") "/project" tasks ≡ true) ↔ (
      (id : String) × (t : DetachedTaskExecution) × (get_task id tasks ≡ some t)
      × (t.state ≡ TaskExecutionState.running)
      × (t.task ≡ "build")
      × InScope some t.run_id t.project_dir (some "1") "/project")
has_running_task_iff_example =
    has_running_task_iff some "build" (some "1") "/project" tasks (refl, tt)

update_task_state_lem_example :
    ((get_task "e" tasks ≡ none)
      × (update_task_state clock "e" (some (pos 0)) tasks ≡ err StoreError.not_found))
    ⊎ ((t : DetachedTaskExecution) × (store' : TaskStore) × (update_task_state clock "e"
            (some (pos 0))
            tasks
          ≡ ok (t, store'))
        × (get_task "e" store' ≡ some t)
        × (t.state ≡ TaskExecutionState.completed)
        × ((other : String) → "e" ≢ other → get_task other store' ≡ get_task other tasks))
update_task_state_lem_example = update_task_state_lem clock "e" (some (pos 0)) tasks

cleanup_finished_tasks-get_example :
    get_task "e" (cleanup_finished_tasks 0 clock 5 tasks).1 ≡ elim (get_task "e" tasks) [
      | none ↦ none
      | some t ↦
          if same_task_state t.state TaskExecutionState.running
            || ltb (cutoff 0 clock 5) t.started_at_instant
          then some t
          else none
    ]
cleanup_finished_tasks-get_example = cleanup_finished_tasks-get 0 5 "e" clock tasks (refl, tt)

abbrev global_with : Option ℕ → GlobalRecord
global_with handle = record {
  key = "k";
  name = "db";
  project_dir = "/project";
  config_path = "/project/devstack.yml";
  service_config = config_of [];
  tasks_map = [];
  service = record (service "db" ServiceState.ready) {
    handles = record { health = handle; watch = some 5; api_capture = none };
  };
  state = RunLifecycle.running;
  created_at = "t0";
  stopped_at = none;
}

abbrev globals : GlobalStore
globals = ("k", global_with (some 4)) ∷ []

upsert_global_lem_example :
    ((upsert_global (global_with none) globals).0 ≡ 4 ∷ 5 ∷ [])
    × (get_global "k" (upsert_global (global_with none) globals).1 ≡ some (global_with none))
    × ((other : String)
        → "k" ≢ other
        → get_global other (upsert_global (global_with none) globals).1 ≡ get_global other globals)
unfolding get_global
upsert_global_lem_example = upsert_global_lem (global_with none) globals
