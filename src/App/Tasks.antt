-- ===== src/App/Tasks.antt =====
-- src/app/queries/tasks.rs, with the answers of src/app/runtime.rs that it gives: the state of a detached
-- task, and the latest executions of a run's tasks. What `TaskHistory::load` reads is a parameter.
use devstack.Common.{
  ℕ, String, Bool, true, not, Option, none, some, List, [], ◌∷◌, map, if◌then◌else◌, str_key,
  nat_key, str_ltb,
}
use devstack.Common.BTreeMap.{BTreeMap, get, insert, values}
use devstack.Common.Int.{ℤ, is_zero}
use devstack.Common.Outcome.{Result, ok, err, panic, out_of_fuel, ◌>>=◌}
use devstack.Model.Event.{TaskExecutionState}
use devstack.Stores.Runs.{RunStore, with_run}
use devstack.Stores.Tasks.{
  DetachedTaskExecution, Clock, TaskStore, elapsed_ms, get_task, list_tasks_for_run,
}
use devstack.Tasks.{TaskExecution, TaskHistory, latest_by_task}

pub record TaskExecutionSummary : Type 0 where
  pub task : String
  pub execution_id : Option String
  pub state : TaskExecutionState
  pub started_at : String
  pub finished_at : Option String
  pub exit_code : Option ℤ
  pub duration_ms : Option ℕ

pub record TaskStatusResponse : Type 0 where
  pub execution_id : String
  pub task : String
  pub state : TaskExecutionState
  pub project_dir : String
  pub run_id : Option String
  pub started_at : String
  pub finished_at : Option String
  pub exit_code : Option ℤ
  pub duration_ms : ℕ

-- `AppError`
pub data QueryError : Type 0 where
  not_found internal : QueryError

unfoldable pub task_duration_ms : Clock → DetachedTaskExecution → ℕ
task_duration_ms clock task = elim task.duration_ms [ none ↦ elapsed_ms clock task | some ms ↦ ms ]

unfoldable pub task_summary_from_history : TaskExecution → TaskExecutionSummary
task_summary_from_history execution = record {
  task = execution.task;
  execution_id = none;
  state =
      if is_zero execution.exit_code
      then TaskExecutionState.completed
      else TaskExecutionState.failed;
  started_at = execution.started_at;
  finished_at = some execution.finished_at;
  exit_code = some execution.exit_code;
  duration_ms = some execution.duration_ms;
}

unfoldable pub task_summary_from_detached : Clock → DetachedTaskExecution → TaskExecutionSummary
task_summary_from_detached clock task = record {
  task = task.task;
  execution_id = some task.execution_id;
  state = task.state;
  started_at = task.started_at;
  finished_at = task.finished_at;
  exit_code = task.exit_code;
  duration_ms = some (task_duration_ms clock task);
}

unfoldable pub task_status_response : Clock → DetachedTaskExecution → TaskStatusResponse
task_status_response clock task = record {
  execution_id = task.execution_id;
  task = task.task;
  state = task.state;
  project_dir = task.project_dir;
  run_id = task.run_id;
  started_at = task.started_at;
  finished_at = task.finished_at;
  exit_code = task.exit_code;
  duration_ms = task_duration_ms clock task;
}

unfoldable pub task_status : Clock → String → TaskStore → Result QueryError TaskStatusResponse
task_status clock execution_id tasks = elim (get_task execution_id tasks) [
  | none ↦ err not_found
  | some task ↦ ok (task_status_response clock task)
]

abbrev pub Summaries : Type 0
Summaries = BTreeMap String TaskExecutionSummary

-- Whether a summary takes the entry of its task.
abbrev pub replaces : TaskExecutionSummary → Option TaskExecutionSummary → Bool
replaces summary none = true
replaces summary (some current) = not (str_ltb summary.started_at current.started_at)

unfoldable pub merge_task_summary : Summaries → TaskExecutionSummary → Summaries
merge_task_summary tasks summary =
    if replaces summary (get summary.task tasks) then insert summary.task summary tasks else tasks

unfoldable pub merge_all : List TaskExecutionSummary → Summaries → Summaries
merge_all [] tasks = tasks
merge_all (summary ∷ summaries) tasks = merge_all summaries (merge_task_summary tasks summary)

unfoldable pub known_run : String → RunStore → Result QueryError (Unit {0})
known_run run_id runs = elim (with_run {0} run_id (λ _. tt) runs) [
  | ok _ ↦ ok tt
  | err _ ↦ err not_found
  | panic ↦ panic
  | out_of_fuel ↦ out_of_fuel
]

unfoldable pub run_tasks :
    Clock
    → String
    → RunStore
    → TaskStore
    → Result QueryError TaskHistory
    → Result QueryError (List TaskExecutionSummary)
run_tasks clock run_id runs tasks loaded = do
  _ ← known_run run_id runs
  history ← loaded
  let detached_tasks = list_tasks_for_run run_id tasks
  let summaries = merge_all (map task_summary_from_history (values (latest_by_task history))) []
  ok (values (merge_all (map (task_summary_from_detached clock) detached_tasks) summaries))
