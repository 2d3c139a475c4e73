-- ===== src/Examples/Lines.antt =====
-- Lines of a log, in both forms, and the executions of tasks.

use Prim.Native.String.{[] as empty, ◌∷◌ as ◌then◌, ◌++◌ as ◌and◌}
use devstack.Common.BTreeMap.{get, insert}
use devstack.Common.Int.{pos}
use devstack.Tasks.Latest.{IsLatest, of_task, latest_by_task-IsLatest}
use devstack.Tasks.{
  TaskExecution, TaskHistory, latest_by_task, latest_from, note_execution, summarize_stderr_line,
  summarize_from, ellipsis,
}
use devstack.Tasks.Summary.{char_count, take_chars, summarize_stderr_line_lem}
use devstack.Common.{
  ◌≤◌, String, ◌≡◌, refl, ◌↔◌, ◌⊎◌, true, false, none, some, [], ◌∷◌, leb, if◌then◌else◌, str_key,
  nat_key,
}
use devstack.Logs.{
  trim, trim_start, trim_end, is_whitespace, strip_prefix, split_at, to_ascii_lowercase, lower_char,
}
use devstack.Logs.Level.{
  as_bytes, contains_keyword_case_insensitive, normalize_level_token, parse_i64, parse_digits,
  normalize_numeric_level, search_from, matches_at, has_word_boundaries, is_word_char,
}
use devstack.Logs.Line.{
  LogEnv, string, parse_log_line, extract_timestamp_str, extract_log_content, classify_line_level,
  extract_bracket_content,
}
use devstack.Logs.Keyword.{HasWord, contains_keyword_iff}
use devstack.Logs.Agree.{parse_log_line-agrees}

abbrev env : LogEnv
env = record {
  from_str = λ text. some (("msg", string "an error") ∷ ("stream", string "stderr") ∷ []);
  regexes = record { bracket = λ content. none; prefix = λ content. none };
}

abbrev line : String
line = "[t0] [stderr] disk is full"

bracket_content : extract_bracket_content line ≡ some ("stderr", "disk is full")
unfolding extract_bracket_content strip_prefix split_at trim_start is_whitespace
bracket_content = refl

numeric_level : normalize_level_token " 50 " ≡ some "error"
unfolding normalize_level_token to_ascii_lowercase lower_char trim trim_start trim_end is_whitespace
    parse_i64 parse_digits normalize_numeric_level
numeric_level = refl

keyword_found : contains_keyword_case_insensitive (as_bytes "an ERROR: x") (as_bytes "error") ≡ true
unfolding contains_keyword_case_insensitive as_bytes search_from matches_at has_word_boundaries
    is_word_char
keyword_found = refl

keyword_inside : contains_keyword_case_insensitive (as_bytes "terrors") (as_bytes "error") ≡ false
unfolding contains_keyword_case_insensitive as_bytes search_from matches_at has_word_boundaries
    is_word_char
keyword_inside = refl

parse_log_line-agrees_example :
    (extract_timestamp_str env line ≡ (parse_log_line env line).timestamp)
    × (extract_log_content env line
        ≡ ((parse_log_line env line).stream, (parse_log_line env line).message))
    × (classify_line_level env line ≡ (parse_log_line env line).level)
parse_log_line-agrees_example = parse_log_line-agrees env line

contains_keyword_iff_example :
    (contains_keyword_case_insensitive (as_bytes "an ERROR: x") (as_bytes "error") ≡ true)
    ↔ HasWord (as_bytes "an ERROR: x") (as_bytes "error")
contains_keyword_iff_example = contains_keyword_iff (as_bytes "an ERROR: x") (as_bytes "error")

summarize_stderr_line_lem_example :
    (char_count (summarize_stderr_line " disk" 4) ≤ 4)
    × (summarize_stderr_line " disk" 4 ≡ (
        if leb (char_count (trim " disk")) 3
        then trim " disk"
        else (take_chars 3 (trim " disk") and (ellipsis then empty))))
summarize_stderr_line_lem_example = summarize_stderr_line_lem " disk" 3

summary_of_four : summarize_stderr_line " disk" 4 ≡ "dis…"
unfolding summarize_stderr_line summarize_from trim trim_start trim_end is_whitespace
summary_of_four = refl

abbrev execution : String → String → TaskExecution
execution task finished_at = record {
  task = task;
  started_at = "1";
  finished_at = finished_at;
  exit_code = pos 0;
  duration_ms = 5;
  log_file = "build.log";
  scope = "adhoc";
}

abbrev history : TaskHistory
history =
    execution "build" "2"
    ∷ execution "lint" "3"
    ∷ execution "build" "4"
    ∷ execution "build" "3"
    ∷ []

build_latest : get "build" (latest_by_task history) ≡ some (execution "build" "4")
unfolding latest_by_task latest_from note_execution insert
build_latest = refl

latest_by_task-IsLatest_example :
    ((of_task "build" history ≡ []) × (get "build" (latest_by_task history) ≡ none))
    ⊎ ((x : TaskExecution) × (get "build" (latest_by_task history) ≡ some x)
        × IsLatest x (of_task "build" history))
latest_by_task-IsLatest_example = latest_by_task-IsLatest history "build"
