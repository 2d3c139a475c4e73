-- ===== src/Logs/Level.antt =====
-- src/logfmt.rs: the level of a message. The two regular expressions are parameters: each answers the
-- level that it captures.

use devstack.Common.Outcome.{}
use Prim.Native.Char.{code}
use Prim.Native.String.{String, [] as empty, ◌∷◌ as ◌then◌}
use devstack.Common.{
  ℕ, zero, suc, ◌+◌, ◌-◌, ◌*◌, ◌/◌, ◌%◌, ◌^◌, Bool, true, false, not, ◌&&◌, ◌||◌, Option, none,
  some, List, [], ◌∷◌, ◌++◌, ltb, leb, eqb, if◌then◌else◌, str_key, nat_key, ◌==◌, length, mem,
}
use devstack.Common.Int.{ℤ, pos, negsuc}
use devstack.Logs.{eq_ignore_ascii_case, to_ascii_lowercase, trim}

-- `as_bytes`: UTF-8.
abbrev char_bytes : ℕ → List ℕ
char_bytes c =
    if ltb c 128
    then c ∷ []
    else if ltb c 2048
    then (192 + c / 64) ∷ (128 + c % 64) ∷ []
    else if ltb c 65536
    then (224 + c / 4096) ∷ (128 + c / 64 % 64) ∷ (128 + c % 64) ∷ []
    else (240 + c / 262144) ∷ (128 + c / 4096 % 64) ∷ (128 + c / 64 % 64) ∷ (128 + c % 64) ∷ []

unfoldable pub as_bytes : String → List ℕ
as_bytes empty = []
as_bytes (c then s) = char_bytes (code c) ++ as_bytes s

unfoldable pub is_word_char : ℕ → Bool
is_word_char byte =
    leb 48 byte && leb byte 57
    || leb 65 byte && leb byte 90
    || leb 97 byte && leb byte 122
    || eqb byte 95

abbrev pub lower_byte : ℕ → ℕ
lower_byte b = if leb 65 b && leb b 90 then b + 32 else b

-- `<[u8]>::eq_ignore_ascii_case`
abbrev pub bytes_eq : List ℕ → List ℕ → Bool
bytes_eq [] [] = true
bytes_eq (a ∷ xs) (b ∷ ys) =
    let rest = bytes_eq xs ys in if lower_byte a == lower_byte b then rest else false
bytes_eq _ _ = false

abbrev pub take : ℕ → List ℕ → List ℕ
take zero xs = []
take (suc n) [] = []
take (suc n) (x ∷ xs) = x ∷ take n xs

abbrev pub drop : ℕ → List ℕ → List ℕ
drop zero xs = xs
drop (suc n) [] = []
drop (suc n) (x ∷ xs) = drop n xs

-- Whether the byte at a place is a word's; every place that is asked for is one of the text.
abbrev pub word_at : ℕ → List ℕ → Bool
word_at n [] = false
word_at zero (x ∷ xs) = is_word_char x
word_at (suc n) (x ∷ xs) = word_at n xs

unfoldable pub has_word_boundaries : List ℕ → ℕ → ℕ → Bool
has_word_boundaries bytes start last =
    (eqb start 0 || not (word_at (start - 1) bytes))
    && (eqb last (length bytes) || not (word_at last bytes))

unfoldable pub matches_at : List ℕ → List ℕ → ℕ → Bool
matches_at bytes keyword start =
    bytes_eq (take (length keyword) (drop start bytes)) keyword
    && has_word_boundaries bytes start (start + length keyword)

-- The places from `start` on, as many as are given.
unfoldable pub search_from : List ℕ → List ℕ → ℕ → ℕ → Bool
search_from bytes keyword zero start = false
search_from bytes keyword (suc places) start =
    let rest = search_from bytes keyword places (suc start) in
    if matches_at bytes keyword start then true else rest

unfoldable pub contains_keyword_case_insensitive : List ℕ → List ℕ → Bool
contains_keyword_case_insensitive bytes keyword =
    if ltb (length bytes) (length keyword)
    then false
    else search_from bytes keyword (suc (length bytes - length keyword)) 0

abbrev has_keyword : String → String → Bool
has_keyword content keyword =
    contains_keyword_case_insensitive (as_bytes content) (as_bytes keyword)

unfoldable pub detect_log_level_fast : String → String
detect_log_level_fast content =
    if has_keyword content "error"
      || has_keyword content "fatal"
      || has_keyword content "panic"
      || has_keyword content "exception"
      || has_keyword content "traceback"
    then "error"
    else if has_keyword content "warn" || has_keyword content "warning"
    then "warn"
    else "info"

unfoldable pub normalize_plain_text_level : String → Option String
normalize_plain_text_level level =
    if eq_ignore_ascii_case level "error"
      || eq_ignore_ascii_case level "fatal"
      || eq_ignore_ascii_case level "panic"
    then some "error"
    else if eq_ignore_ascii_case level "warn" || eq_ignore_ascii_case level "warning"
    then some "warn"
    else if eq_ignore_ascii_case level "info"
    then some "info"
    else if eq_ignore_ascii_case level "debug"
    then some "debug"
    else if eq_ignore_ascii_case level "trace"
    then some "trace"
    else none

-- What `BRACKET_LEVEL_RE` and `PREFIX_LEVEL_RE` capture.
pub record LevelRegexes : Type 0 where
  pub bracket : String → Option String
  pub prefix : String → Option String

unfoldable pub detect_log_level_regex : LevelRegexes → String → Option String
detect_log_level_regex regexes content = elim (regexes.bracket content) [
  | some level ↦ normalize_plain_text_level level
  | none ↦ elim (regexes.prefix content) [
    | some level ↦ normalize_plain_text_level level
    | none ↦ none
  ]
]

abbrev or_info : Option String → String
or_info none = "info"
or_info (some level) = level

unfoldable pub detect_log_level : LevelRegexes → String → String
detect_log_level regexes content =
    let fast = detect_log_level_fast content in
    if not (fast == "info") then fast else or_info (detect_log_level_regex regexes content)

unfoldable pub normalize_numeric_level : ℤ → Option String
normalize_numeric_level (negsuc n) = none
normalize_numeric_level (pos n) =
    if eqb n 10
    then some "trace"
    else if eqb n 20
    then some "debug"
    else if eqb n 30
    then some "info"
    else if eqb n 40
    then some "warn"
    else if eqb n 50 || eqb n 60
    then some "error"
    else none

-- `parse::<i64>` of the digits: the number so far, while all are digits.
unfoldable pub parse_digits : ℕ → String → Option ℕ
parse_digits n empty = some n
parse_digits n (c then s) =
    let rest = parse_digits (n * 10 + (code c - 48)) s in
    if leb 48 (code c) && leb (code c) 57 then rest else none

abbrev signed : Bool → Option ℕ → Option ℤ
signed negative none = none
signed false (some n) = if ltb n (2 ^ 63) then some (pos n) else none
signed true (some zero) = some (pos 0)
signed true (some (suc n)) = if ltb n (2 ^ 63) then some (negsuc n) else none

abbrev parse_unsigned : String → Option ℕ
parse_unsigned s = if s == "" then none else parse_digits 0 s

unfoldable pub parse_i64 : String → Option ℤ
parse_i64 empty = none
parse_i64 (c then s) =
    if eqb (code c) 45
    then signed true (parse_unsigned s)
    else if eqb (code c) 43
    then signed false (parse_unsigned s)
    else signed false (parse_unsigned (c then s))

unfoldable pub normalize_level_name : String → String
normalize_level_name lower =
    if mem lower ("warning" ∷ "warn" ∷ [])
    then "warn"
    else if mem lower ("error" ∷ "err" ∷ "fatal" ∷ "panic" ∷ [])
    then "error"
    else if lower == "trace"
    then "trace"
    else if lower == "debug"
    then "debug"
    else if mem lower ("info" ∷ "information" ∷ [])
    then "info"
    else lower

unfoldable pub normalize_level_token : String → Option String
normalize_level_token token =
    let lower = to_ascii_lowercase (trim token) in
    if lower == "" then none else elim (parse_i64 lower) [
      | some num ↦ normalize_numeric_level num
      | none ↦ some (normalize_level_name lower)
    ]
