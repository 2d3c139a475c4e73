-- ===== src/Config/Names.antt =====
-- src/paths.rs: the names that can stand in a path.
use Prim.Native.Char.{Char, code}
use Prim.Native.String.{String, [], ◌∷◌}
use devstack.Common.{leb, eqb, ◌||◌, ◌&&◌, ◌==◌, Bool, true, false, if◌then◌else◌, str_key}
use devstack.Common.Outcome.{Result, ok, err, fail_if, ◌>>◌}

-- `is_ascii_alphanumeric`
unfoldable pub is_ascii_alphanumeric : Char → Bool
is_ascii_alphanumeric c =
    leb 48 (code c) && leb (code c) 57
    || leb 65 (code c) && leb (code c) 90
    || leb 97 (code c) && leb (code c) 122

-- `.`, `_` and `-` beside the letters and digits
unfoldable pub is_name_char : Char → Bool
is_name_char c = is_ascii_alphanumeric c || eqb (code c) 46 || eqb (code c) 95 || eqb (code c) 45

-- `chars().all(…)`
unfoldable pub all_chars : (Char → Bool) → String → Bool
all_chars p [] = true
all_chars p (c ∷ s) = if p c then all_chars p s else false

-- `error` stands for the messages, which differ in the kind of the name.
unfoldable pub validate_name_for_path_component : {E : Type 0} → E → String → Result E (Unit {0})
validate_name_for_path_component error value =
    fail_if (value == "") error
    >> fail_if ((value == ".") || (value == "..")) error
    >> (if all_chars is_name_char value then ok tt else err error)
