-- ===== src/Model/Event.antt =====
-- src/api.rs, src/app/runtime.rs and src/stores: the events that the daemon emits to its subscribers.

use devstack.Common.BTreeMap.{BTreeMap}
use devstack.Common.{
  ℕ, String, Bool, true, false, Option, none, some, str_key, nat_key, ◌==◌, filter,
}
use devstack.Model.Service.{ServiceState}
use devstack.Common.Int.{ℤ}
use devstack.Model.Run.{RunLifecycle, RunRecord}

pub data RunEventKind : Type 0 where
  created state_changed removed : RunEventKind

pub data TaskEventKind : Type 0 where
  started completed failed : TaskEventKind

pub record DaemonRunEvent : Type 0 where
  pub kind : RunEventKind
  pub run_id : String
  pub state : Option RunLifecycle
  pub stack : Option String
  pub project_dir : Option String

pub record DaemonServiceEvent : Type 0 where
  pub run_id : String
  pub service : String
  pub state : ServiceState

pub record DaemonGlobalEvent : Type 0 where
  pub key : String
  pub state : RunLifecycle

pub data TaskExecutionState : Type 0 where
  running completed failed : TaskExecutionState

abbrev pub same_task_state : TaskExecutionState → TaskExecutionState → Bool
same_task_state running running = true
same_task_state completed completed = true
same_task_state failed failed = true
same_task_state _ _ = false

pub record DaemonTaskEvent : Type 0 where
  pub kind : TaskEventKind
  pub execution_id : String
  pub task : String
  pub run_id : Option String
  pub state : TaskExecutionState
  pub started_at : String
  pub finished_at : Option String
  pub exit_code : Option ℤ
  pub duration_ms : Option ℕ

pub record DaemonLogEvent : Type 0 where
  pub run_id : String
  pub service : String
  pub ts : String
  pub stream : String
  pub level : String
  pub message : String
  pub raw : String
  pub json : Option String
  pub attributes : BTreeMap String String

pub data DaemonEvent : Type 0 where
  run_event : DaemonRunEvent → DaemonEvent
  service_event : DaemonServiceEvent → DaemonEvent
  task_event : DaemonTaskEvent → DaemonEvent
  global_event : DaemonGlobalEvent → DaemonEvent
  log_event : DaemonLogEvent → DaemonEvent

-- `Some(a) == Some(b)`, `None == None`
abbrev pub same_name : Option String → Option String → Bool
same_name none none = true
same_name (some a) (some b) = a == b
same_name _ _ = false

-- Whether a subscriber with this filter is sent the event.
unfoldable pub should_deliver : DaemonEvent → Option String → Bool
should_deliver (log_event e) run_id = same_name run_id (some e.run_id)
should_deliver (task_event e) none = true
should_deliver (task_event e) (some filter) = same_name e.run_id (some filter)
should_deliver _ run_id = true

unfoldable pub run_created_event : RunRecord → DaemonEvent
run_created_event run = run_event (record {
  kind = created;
  run_id = run.run_id;
  state = some run.state;
  stack = some run.stack;
  project_dir = some run.project_dir;
})

unfoldable pub run_state_changed_event : RunRecord → DaemonEvent
run_state_changed_event run = run_event (record {
  kind = state_changed;
  run_id = run.run_id;
  state = some run.state;
  stack = none;
  project_dir = none;
})

unfoldable pub run_removed_event : String → DaemonEvent
run_removed_event run_id =
    run_event
      (record { kind = removed; run_id = run_id; state = none; stack = none; project_dir = none })

unfoldable pub service_state_changed_event : String → String → ServiceState → DaemonEvent
service_state_changed_event run_id service state =
    service_event (record { run_id = run_id; service = service; state = state })

unfoldable pub global_state_changed_event : String → RunLifecycle → DaemonEvent
global_state_changed_event key state = global_event (record { key = key; state = state })
