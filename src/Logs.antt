-- ===== src/Logs.antt =====
-- src/logfmt.rs: the lines of a service's log. This module has the functions on text that the others use.
pub mod Level
pub mod Line
pub mod Agree
pub mod Search
pub mod Keyword
use Prim.Native.Char.{Char, code}
use Prim.Native.String.{String, [], ◌∷◌}
use devstack.Common.{
  ℕ, zero, suc, ◌-◌, Bool, false, ◌||◌, ◌&&◌, leb, eqb, if◌then◌else◌, Option, none, some, str_key,
  ◌==◌,
}

-- `char::is_whitespace`
unfoldable pub is_whitespace : Char → Bool
is_whitespace c =
    leb 9 (code c) && leb (code c) 13
    || eqb (code c) 32
    || eqb (code c) 133
    || eqb (code c) 160
    || eqb (code c) 5760
    || leb 8192 (code c) && leb (code c) 8202
    || eqb (code c) 8232
    || eqb (code c) 8233
    || eqb (code c) 8239
    || eqb (code c) 8287
    || eqb (code c) 12288

unfoldable pub trim_start : String → String
trim_start [] = []
trim_start (c ∷ s) = let rest = trim_start s in if is_whitespace c then rest else c ∷ s

unfoldable pub trim_end : String → String
trim_end [] = []
trim_end (c ∷ s) = let rest = trim_end s in if is_whitespace c && (rest == "") then [] else c ∷ rest

unfoldable pub trim : String → String
trim s = trim_start (trim_end s)

unfoldable pub starts_with : ℕ → String → Bool
starts_with first [] = false
starts_with first (c ∷ s) = eqb (code c) first

-- `strip_prefix` of one character
unfoldable pub strip_prefix : ℕ → String → Option String
strip_prefix first [] = none
strip_prefix first (c ∷ s) = if eqb (code c) first then some s else none

abbrev pub with_char : Char → Option (String × String) → Option (String × String)
with_char c none = none
with_char c (some (before, after)) = some (c ∷ before, after)

-- `find` of one character: the text before the first of them, and the text after it.
unfoldable pub split_at : ℕ → String → Option (String × String)
split_at char [] = none
split_at char (c ∷ s) =
    let rest = split_at char s in if eqb (code c) char then some ([], s) else with_char c rest

abbrev pub pick : ℕ → String → Char → Char
pick zero [] d = d
pick zero (c ∷ s) d = c
pick (suc n) [] d = d
pick (suc n) (c ∷ s) d = pick n s d

unfoldable pub lower_char : Char → Char
lower_char c =
    if leb b'A' (code c) && leb (code c) b'Z'
    then pick (code c - b'A') "abcdefghijklmnopqrstuvwxyz" c
    else c

unfoldable pub to_ascii_lowercase : String → String
to_ascii_lowercase [] = []
to_ascii_lowercase (c ∷ s) = lower_char c ∷ to_ascii_lowercase s

unfoldable pub eq_ignore_ascii_case : String → String → Bool
eq_ignore_ascii_case s t = to_ascii_lowercase s == to_ascii_lowercase t
