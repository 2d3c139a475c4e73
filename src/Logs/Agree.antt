-- ===== src/Logs/Agree.antt =====
-- src/logfmt.rs: the functions that take one thing from a line agree with the one that takes them all.

use Prim.Native.Char.{Char, code}
use Prim.Native.String.{String, [] as empty, ◌∷◌ as ◌then◌}
use devstack.Common.{
  ◌≡◌, refl, inl, inr, true, false, none, some, List, [], ◌∷◌, eqb, eqb_iff, str_key, nat_key,
  Bool-cases, Option-cases,
}
use devstack.Common.BTreeMap.{get}
use devstack.Logs.{trim, trim_start, trim_end, starts_with, strip_prefix, is_whitespace}
use devstack.Logs.Line.{
  LogEnv, Fields, parse_log_line, parse_json_object, extract_timestamp_str, extract_timestamp_from,
  extract_log_content, classify_line_level, extract_bracket_timestamp, extract_bracket_content,
  value_as_string, find_text, and_then, stated_level, time_fields,
}

bracket-is_whitespace : (c : Char) → eqb (code c) b'[' ≡ true → is_whitespace c ≡ false
unfolding is_whitespace
bracket-is_whitespace c h = rw ((eqb_iff (code c) b'[').0 h) refl

-- A text that begins with a bracket is not an object when it is trimmed.
trim_end-bracket :
    (c : Char) (s : String) → eqb (code c) b'[' ≡ true → starts_with b'{' (trim (c then s)) ≡ false
unfolding trim trim_start trim_end starts_with
trim_end-bracket c s h =
    let plain : is_whitespace c ≡ false = bracket-is_whitespace c h in
    let different : eqb (code c) b'{' ≡ false = rw ((eqb_iff (code c) b'[').0 h) refl in
    rw (plain, trim_end) (rw (plain, trim_start) (rw different refl))

extract_bracket_timestamp-object :
    (env : LogEnv) (line : String) (fields : Fields)
    → parse_json_object env line ≡ some fields
    → extract_bracket_timestamp line ≡ none
unfolding parse_json_object extract_bracket_timestamp strip_prefix
extract_bracket_timestamp-object env empty fields h = refl
extract_bracket_timestamp-object env (c then s) fields h = elim (Bool-cases (eqb (code c) b'[')) [
  | inl t ↦ cc (rw (trim_end-bracket c s t) at h)
  | inr f ↦ rw f refl
]

extract_timestamp_from-find_text :
    (line : String) (names : List String) (fields : Fields)
    → extract_bracket_timestamp line ≡ none
    → extract_timestamp_from line names fields ≡ find_text names fields
unfolding extract_timestamp_from
extract_timestamp_from-find_text line [] fields h = h
extract_timestamp_from-find_text line (name ∷ names) fields h =
    elim (Option-cases (and_then (get name fields) value_as_string)) [
      | inl lost ↦
          rw (lost, extract_timestamp_from) (extract_timestamp_from-find_text line names fields h)
      | inr (ts, there) ↦ rw (there, extract_timestamp_from) refl
    ]

-- The timestamp, the stream, the message and the level that the separate functions find in a line, of either
-- form, are those that `parse_log_line` finds.
pub parse_log_line-agrees :
    (env : LogEnv) (line : String)
    → let parsed = parse_log_line env line in
      (extract_timestamp_str env line ≡ parsed.timestamp)
      × (extract_log_content env line ≡ (parsed.stream, parsed.message))
      × (classify_line_level env line ≡ parsed.level)
unfolding parse_log_line extract_timestamp_str extract_log_content classify_line_level
parse_log_line-agrees env line = elim (Option-cases (parse_json_object env line)) [
  | inr (fields, object) ↦
      let time : extract_timestamp_from line time_fields fields ≡ find_text time_fields fields =
        extract_timestamp_from-find_text line time_fields fields
          (extract_bracket_timestamp-object env line fields object) in
      (
        rw (object, extract_timestamp_str, parse_log_line) time,
        rw (object, extract_log_content, parse_log_line) refl,
        elim (Option-cases (stated_level fields)) [
          | inl silent ↦ rw (object, classify_line_level, parse_log_line) (rw silent refl)
          | inr (level, stated) ↦ rw (object, classify_line_level, parse_log_line) (rw stated refl)
        ],
      )
  | inl plain ↦ elim (Option-cases (extract_bracket_content line)) [
    | inl bare ↦ (
      rw (plain, extract_timestamp_str, parse_log_line) refl,
      rw (plain, extract_log_content, parse_log_line) (rw bare refl),
      rw (plain, classify_line_level, parse_log_line) (rw (plain, bare, extract_log_content) refl),
    )
    | inr (content, there) ↦ (
      rw (plain, extract_timestamp_str, parse_log_line) refl,
      rw (plain, extract_log_content, parse_log_line) (rw there refl),
      rw (plain, classify_line_level, parse_log_line) (rw (plain, there, extract_log_content) refl),
    )
  ]
]
