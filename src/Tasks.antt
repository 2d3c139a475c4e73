-- ===== src/Tasks.antt =====
-- src/services/tasks/history.rs and model.rs: the history of task executions, and the summary of a task's
-- error for one line of text. The file of the history is not modelled.
pub mod Latest
pub mod Sooner
pub mod Summary
use Prim.Native.Char.{Char, char}
use Prim.Native.String.{String, [] as empty, ◌∷◌ as ◌then◌, ◌++◌ as ◌and◌}
use devstack.Common.{
  ℕ, suc, ◌+◌, ◌-◌, ◌^◌, Bool, true, not, ◌&&◌, ◌||◌, Option, none, some, List, [], ◌∷◌, ◌++◌, leb,
  eqb, if◌then◌else◌, str_key, nat_key, ◌==◌, count, str_ltb,
}
use devstack.Common.BTreeMap.{BTreeMap, get, insert}
use devstack.Common.Int.{ℤ, is_zero}
use devstack.Logs.{trim}

pub data TaskLogScope : Type 0 where
  run : (run_id : String) → TaskLogScope
  ad_hoc : TaskLogScope

pub record TaskExecution : Type 0 where
  pub task : String
  pub started_at : String
  pub finished_at : String
  pub exit_code : ℤ
  pub duration_ms : ℕ
  pub log_file : String
  pub scope : String

abbrev pub TaskHistory : Type 0
TaskHistory = List TaskExecution

-- The duration in milliseconds.
pub record TaskResult : Type 0 where
  pub exit_code : ℤ
  pub duration : ℕ
  pub last_stderr_line : Option String

unfoldable pub success : TaskResult → Bool
success result = is_zero result.exit_code

unfoldable pub append : TaskExecution → TaskHistory → TaskHistory
append execution history = history ++ execution ∷ []

abbrev pub finished_later : TaskExecution → TaskExecution → Bool
finished_later x current =
    str_ltb current.finished_at x.finished_at
    || (x.finished_at == current.finished_at) && not (str_ltb x.started_at current.started_at)

abbrev pub Latest : Type 0
Latest = BTreeMap String TaskExecution

-- Whether an execution takes the entry of its task: a vacant one, or one that is not later.
abbrev pub takes_entry : TaskExecution → Option TaskExecution → Bool
takes_entry x none = true
takes_entry x (some current) = finished_later x current

unfoldable pub note_execution : TaskExecution → Latest → Latest
note_execution x latest =
    if takes_entry x (get x.task latest) then insert x.task x latest else latest

unfoldable pub latest_from : List TaskExecution → Latest → Latest
latest_from [] latest = latest
latest_from (x ∷ executions) latest = latest_from executions (note_execution x latest)

unfoldable pub latest_by_task : TaskHistory → Latest
latest_by_task history = latest_from history []

unfoldable pub task_scope_label : TaskLogScope → String
task_scope_label (run run_id) = "run:" and run_id
task_scope_label ad_hoc = "adhoc"

abbrev u64_max : ℕ
u64_max = 2 ^ 64 - 1

unfoldable pub append_task_execution :
    String → TaskLogScope → String → String → TaskResult → TaskHistory → TaskHistory
append_task_execution task_name scope started_at finished_at result history =
    append
      (record {
        task = task_name;
        started_at = started_at;
        finished_at = finished_at;
        exit_code = result.exit_code;
        duration_ms = if leb result.duration u64_max then result.duration else u64_max;
        log_file = task_name and ".log";
        scope = task_scope_label scope;
      })
      history

abbrev pub ellipsis : Char
ellipsis = char 8230 tt

-- The loop over the characters; `count` are behind it.
unfoldable pub summarize_from : ℕ → ℕ → String → String
summarize_from max_chars count empty = empty
summarize_from max_chars count (c then s) =
    let rest = summarize_from max_chars (suc count) s in
    if leb max_chars (count + 1) then ellipsis then empty else c then rest

unfoldable pub summarize_stderr_line : String → ℕ → String
summarize_stderr_line value max_chars =
    if eqb max_chars 0 then empty else summarize_from max_chars 0 (trim value)
