-- ===== src/Stores/Tasks.antt =====
-- src/stores/tasks.rs: the tasks that run apart from a service. An instant is a number of
-- milliseconds, and `canonical` is what the file system makes of a path (`canonicalize().ok()`).
pub mod Running
use devstack.Common.{
  ℕ, ◌+◌, ◌-◌, ◌*◌, String, Bool, true, false, ◌&&◌, Option, none, some, List, ltb, leb,
  if◌then◌else◌, str_key, nat_key, ◌==◌, length, filter, any,
}
use devstack.Common.BTreeMap.{BTreeMap, get, contains_key, insert, remove, values, retain, modify}
use devstack.Common.Outcome.{Result, ok, err}
use devstack.Common.Int.{ℤ, is_zero}
use devstack.Model.Event.{
  TaskExecutionState, same_task_state, TaskEventKind, DaemonEvent, task_event, same_name,
}
use devstack.Stores.Runs.{StoreError, already_exists, not_found}

pub record DetachedTaskExecution : Type 0 where
  pub execution_id : String
  pub task : String
  pub project_dir : String
  pub run_id : Option String
  pub state : TaskExecutionState
  pub started_at : String
  pub started_at_instant : ℕ
  pub finished_at : Option String
  pub exit_code : Option ℤ
  pub duration_ms : Option ℕ

-- The time of day and the instant of a call.
pub record Clock : Type 0 where
  pub now : String
  pub instant : ℕ

unfoldable pub new_task :
    Clock → (execution_id task project_dir : String) → Option String → DetachedTaskExecution
new_task clock execution_id task project_dir run_id = record {
  execution_id = execution_id;
  task = task;
  project_dir = project_dir;
  run_id = run_id;
  state = TaskExecutionState.running;
  started_at = clock.now;
  started_at_instant = clock.instant;
  finished_at = none;
  exit_code = none;
  duration_ms = none;
}

abbrev u64_max : ℕ
u64_max = 18446744073709551615

-- `elapsed()` is zero when the clock is behind, and the conversion to 64 bits saturates.
abbrev pub elapsed_ms : Clock → DetachedTaskExecution → ℕ
elapsed_ms clock t =
    let ms = clock.instant - t.started_at_instant in if leb ms u64_max then ms else u64_max

unfoldable pub mark_completed : Clock → ℤ → DetachedTaskExecution → DetachedTaskExecution
mark_completed clock exit_code t = record t {
  state = if is_zero exit_code then TaskExecutionState.completed else TaskExecutionState.failed;
  exit_code = some exit_code;
  finished_at = some clock.now;
  duration_ms = some (elapsed_ms clock t);
}

unfoldable pub mark_failed : Clock → DetachedTaskExecution → DetachedTaskExecution
mark_failed clock t = record t {
  state = TaskExecutionState.failed;
  finished_at = some clock.now;
  duration_ms = some (elapsed_ms clock t);
}

unfoldable pub current_duration_ms : Clock → DetachedTaskExecution → ℕ
current_duration_ms clock t = elim t.duration_ms [ none ↦ elapsed_ms clock t | some ms ↦ ms ]

abbrev pub TaskStore : Type 0
TaskStore = BTreeMap String DetachedTaskExecution

unfoldable pub add_task : DetachedTaskExecution → TaskStore → Result StoreError TaskStore
add_task t store =
    if contains_key t.execution_id store
    then err already_exists
    else ok (insert t.execution_id t store)

unfoldable pub get_task : String → TaskStore → Option DetachedTaskExecution
get_task execution_id store = get execution_id store

unfoldable pub list_tasks : TaskStore → List DetachedTaskExecution
list_tasks store = values store

unfoldable pub list_tasks_for_run : String → TaskStore → List DetachedTaskExecution
list_tasks_for_run run_id store = filter (λ t. same_name t.run_id (some run_id)) (values store)

-- Two paths that do not exist count as the same.
unfoldable pub same_project_dir : (String → Option String) → String → String → Bool
same_project_dir canonical a b = same_name (canonical a) (canonical b)

unfoldable pub same_scope :
    (String → Option String) → Option String → String → Option String → String → Bool
same_scope canonical (some existing) _ (some candidate) _ = existing == candidate
same_scope canonical none dir none project_dir = same_project_dir canonical dir project_dir
same_scope canonical _ _ _ _ = false

unfoldable pub is_running_as :
    (String → Option String) → String → Option String → String → DetachedTaskExecution → Bool
is_running_as canonical task_name run_id project_dir t =
    same_task_state t.state TaskExecutionState.running
    && (t.task == task_name)
    && same_scope canonical t.run_id t.project_dir run_id project_dir

unfoldable pub has_running_task :
    (String → Option String) → String → Option String → String → TaskStore → Bool
has_running_task canonical task_name run_id project_dir store =
    any (is_running_as canonical task_name run_id project_dir) (values store)

abbrev pub finish : Clock → Option ℤ → DetachedTaskExecution → DetachedTaskExecution
finish clock (some code) t = mark_completed clock code t
finish clock none t = mark_failed clock t

unfoldable pub update_task_state :
    Clock → String → Option ℤ → TaskStore → Result StoreError (DetachedTaskExecution × TaskStore)
update_task_state clock execution_id exit_code store = elim (get execution_id store) [
  | none ↦ err not_found
  | some t ↦ ok (finish clock exit_code t, modify execution_id (finish clock exit_code) store)
]

unfoldable pub remove_task : String → TaskStore → Option DetachedTaskExecution × TaskStore
remove_task execution_id store = (get execution_id store, remove execution_id store)

-- `checked_sub` fails where the clock cannot go back that far: `earliest` is the instant it can reach.
abbrev pub cutoff : ℕ → Clock → ℕ → ℕ
cutoff earliest clock max_age_secs =
    if leb (earliest + max_age_secs * 1000) clock.instant
    then clock.instant - max_age_secs * 1000
    else clock.instant

unfoldable pub outlives : ℕ → DetachedTaskExecution → Bool
outlives limit t =
    if same_task_state t.state TaskExecutionState.running
    then true
    else ltb limit t.started_at_instant

unfoldable pub cleanup_finished_tasks : ℕ → Clock → ℕ → TaskStore → ℕ × TaskStore
cleanup_finished_tasks earliest clock max_age_secs store =
    let left = retain (λ id t. outlives (cutoff earliest clock max_age_secs) t) store in
    (length store - length left, left)

-- `task_event`
unfoldable pub event_of_task : DetachedTaskExecution → TaskEventKind → DaemonEvent
event_of_task t kind = task_event (record {
  kind = kind;
  execution_id = t.execution_id;
  task = t.task;
  run_id = t.run_id;
  state = t.state;
  started_at = t.started_at;
  finished_at = t.finished_at;
  exit_code = t.exit_code;
  duration_ms = t.duration_ms;
})
