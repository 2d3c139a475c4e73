-- ===== src/Logs/Line.antt =====
-- src/logfmt.rs: what a line of a log says. serde_json is a parameter; of a number the code asks its text
-- and its value as an `i64`.

use Prim.Native.String.{String}
use devstack.Common.{
  Bool, true, false, ◌&&◌, Option, none, some, List, [], ◌∷◌, if◌then◌else◌, str_key, nat_key, ◌==◌,
  option_map,
}
use devstack.Common.BTreeMap.{BTreeMap, get}
use devstack.Common.Int.{ℤ}
use devstack.Logs.{trim, trim_start, starts_with, strip_prefix, split_at}
use devstack.Logs.Level.{
  LevelRegexes, detect_log_level, normalize_numeric_level, normalize_level_token,
}

-- The values of an object's fields; nothing is asked of a null, an array or an object there.
pub data Value : Type 0 where
  string : (text : String) → Value
  number : (text : String) (as_i64 : Option ℤ) → Value
  bool : Bool → Value
  other : Value

abbrev pub Fields : Type 0
Fields = BTreeMap String Value

-- `from_str` answers the fields of the object that the text is; `none` is an error or another value.
pub record LogEnv : Type 0 where
  pub from_str : String → Option Fields
  pub regexes : LevelRegexes

unfoldable pub parse_json_object : LogEnv → String → Option Fields
parse_json_object env line =
    let trimmed = trim line in if starts_with b'{' trimmed then env.from_str trimmed else none

unfoldable pub value_as_string : Value → Option String
value_as_string (string text) = some text
value_as_string (number text as_i64) = some text
value_as_string (bool true) = some "true"
value_as_string (bool false) = some "false"
value_as_string other = none

-- `as_str`
abbrev as_str : Value → Option String
as_str (string text) = some text
as_str _ = none

abbrev pub and_then {ℓ κ} : {A : Type ℓ} {B : Type κ} → Option A → (A → Option B) → Option B
and_then none f = none
and_then (some a) f = f a

abbrev pub or_else {ℓ} : {A : Type ℓ} → Option A → Option A → Option A
or_else none b = b
or_else (some a) b = some a

abbrev pub unwrap_or {ℓ} : {A : Type ℓ} → Option A → A → A
unwrap_or none d = d
unwrap_or (some a) d = a

abbrev non_empty : Option String → Option String
non_empty none = none
non_empty (some s) = if s == "" then none else some s

unfoldable pub normalize_level_value : Value → Option String
normalize_level_value (number text as_i64) = and_then as_i64 normalize_numeric_level
normalize_level_value (string text) = normalize_level_token text
normalize_level_value (bool b) = none
normalize_level_value other = none

unfoldable pub extract_bracket_timestamp : String → Option String
extract_bracket_timestamp line =
    and_then (strip_prefix b'[' line)
      (λ rest. option_map (λ (parts : String × String). parts.0) (split_at b']' rest))

unfoldable pub extract_bracket_content : String → Option (String × String)
extract_bracket_content line = and_then (strip_prefix b'[' line) (λ rest.
    and_then (split_at b']' rest) (λ (first : String × String).
      and_then (strip_prefix b'[' (trim_start first.1)) (λ rest2.
        option_map (λ (second : String × String). (second.0, trim_start second.1))
          (split_at b']' rest2))))

-- A line on stderr that says nothing of its level is a warning.
abbrev pub level_on : String → String → String
level_on stream detected = if (detected == "info") && (stream == "stderr") then "warn" else detected

abbrev text_field : String → String → Fields → String
text_field name default fields = unwrap_or (and_then (get name fields) as_str) default

-- The level of a JSON line without a level of its own.
abbrev pub detected_in : LogEnv → Fields → String
detected_in env fields =
    level_on (text_field "stream" "stdout" fields)
      (detect_log_level env.regexes (text_field "msg" "" fields))

abbrev pub stated_level : Fields → Option String
stated_level fields =
    and_then (or_else (get "level" fields) (get "severity" fields)) normalize_level_value

abbrev stream_of : Fields → String
stream_of fields = unwrap_or (non_empty (and_then (get "stream" fields) value_as_string)) "stdout"

abbrev message_of : String → Fields → String
message_of line fields =
    unwrap_or (and_then (or_else (get "msg" fields) (get "message" fields)) value_as_string) line

-- The first of the fields that has a text.
abbrev pub find_text : List String → Fields → Option String
find_text [] fields = none
find_text (name ∷ names) fields =
    or_else (and_then (get name fields) value_as_string) (find_text names fields)

abbrev pub time_fields : List String
time_fields = "time" ∷ "ts" ∷ "timestamp" ∷ []

pub record ParsedLogLine : Type 0 where
  pub timestamp : Option String
  pub stream : String
  pub message : String
  pub level : String
  pub json : Option Fields

unfoldable pub parse_log_line : LogEnv → String → ParsedLogLine
parse_log_line env line = elim (parse_json_object env line) [
  | some fields ↦ record {
    timestamp = find_text time_fields fields;
    stream = stream_of fields;
    message = message_of line fields;
    level = unwrap_or (stated_level fields) (detected_in env fields);
    json = some fields;
  }
  | none ↦
      let (stream, message) = unwrap_or (extract_bracket_content line) ("stdout", line) in
      record {
        timestamp = extract_bracket_timestamp line;
        stream = stream;
        message = message;
        level = level_on stream (detect_log_level env.regexes message);
        json = none;
      }
]

-- The loop over the three fields, which goes on where a field has no text.
unfoldable pub extract_timestamp_from : String → List String → Fields → Option String
extract_timestamp_from line [] fields = extract_bracket_timestamp line
extract_timestamp_from line (name ∷ names) fields =
    let rest = extract_timestamp_from line names fields in
    elim (and_then (get name fields) value_as_string) [ some ts ↦ some ts | none ↦ rest ]

unfoldable pub extract_timestamp_str : LogEnv → String → Option String
extract_timestamp_str env line = elim (parse_json_object env line) [
  | some fields ↦ extract_timestamp_from line time_fields fields
  | none ↦ extract_bracket_timestamp line
]

unfoldable pub extract_log_content : LogEnv → String → String × String
extract_log_content env line = elim (parse_json_object env line) [
  | some fields ↦ (stream_of fields, message_of line fields)
  | none ↦ elim (extract_bracket_content line) [ some content ↦ content | none ↦ ("stdout", line) ]
]

unfoldable pub classify_line_level : LogEnv → String → String
classify_line_level env line = elim (parse_json_object env line) [
  | some fields ↦ elim (stated_level fields) [ some level ↦ level | none ↦ detected_in env fields ]
  | none ↦
      let (stream, content) = extract_log_content env line in
      level_on stream (detect_log_level env.regexes content)
]
