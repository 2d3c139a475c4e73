-- ===== src/Units/Command.antt =====
-- src/systemd.rs: the command that `spawn_child` makes of a unit's properties.

use Prim.Native.Char.{Char, code}
use Prim.Native.String.{String, [], ◌∷◌, ◌++◌}
use Prim.Native.String.append.{nil as append_nil, cons as append_cons}
use devstack.Common.{
  ◌≡◌, refl, ap, ◌∙◌, inl, inr, Bool, true, false, Option, none, some, eqb, if◌then◌else◌, str_key,
  nat_key, ◌==◌, Bool-cases, All,
}
use devstack.Common.BTreeMap.{BTreeMap}
use mathlib.Core.List.{List, [] as nil, ◌∷◌ as ◌then◌}
use devstack.Units.{ExecStart, UnitProperties}

abbrev pub drop_program : String → List String → List String
drop_program path nil = nil
drop_program path (first then argv) = if first == path then argv else first then argv

-- `cmd.args`: the program's own name, which an `argv` may start with, is not an argument.
unfoldable pub command_args : ExecStart → List String
command_args exec = drop_program exec.path exec.argv

abbrev with_front : Char → Option (String × String) → Option (String × String)
with_front c none = none
with_front c (some (key, value)) = some (c ∷ key, value)

-- `split_once('=')`
unfoldable pub split_once : String → Option (String × String)
split_once [] = none
split_once (c ∷ s) =
    let rest = split_once s in if eqb (code c) 61 then some ([], s) else with_front c rest

abbrev with_entry : Option (String × String) → List (String × String) → List (String × String)
with_entry none entries = entries
with_entry (some entry) entries = entry then entries

-- `cmd.env` of every item that has an `=`
unfoldable pub command_env : List String → List (String × String)
command_env nil = nil
command_env (item then items) = with_entry (split_once item) (command_env items)

-- `format!("{key}={value}")`
unfoldable pub env_items : List (String × String) → List String
env_items nil = nil
env_items ((key, value) then entries) = (key ++ ("=" ++ value)) then env_items entries

-- A name that an environment can hold: it has no `=`.
unfoldable pub has_no_equals : String → Bool
has_no_equals [] = true
has_no_equals (c ∷ s) = if eqb (code c) 61 then false else has_no_equals s

-- What the operating system is asked to run, with no input and output and in a process group of its own.
pub record ChildCommand : Type 0 where
  pub program : String
  pub args : List String
  pub current_dir : String
  pub env : List (String × String)

-- `spawn_child` up to the call of `spawn`
unfoldable pub child_command : UnitProperties → ChildCommand
child_command props = record {
  program = props.exec_start.path;
  args = command_args props.exec_start;
  current_dir = props.working_directory;
  env = command_env props.environment;
}

split_once-item :
    (key value : String)
    → has_no_equals key ≡ true
    → split_once (key ++ ("=" ++ value)) ≡ some (key, value)
unfolding split_once has_no_equals
split_once-item [] value h =
    ap split_once (append_nil ("=" ++ value))
    ∙ ap split_once (append_cons _ [] value)
    ∙ rw (append_nil value) refl
split_once-item (c ∷ key) value h = elim (Bool-cases (eqb (code c) 61)) [
  | inl t ↦ cc (rw t at h)
  | inr f ↦
      rw (append_cons c key ("=" ++ value))
        (rw (f, split_once) (ap (with_front c) (split_once-item key value (rw f at h))))
]

-- The environment that a unit's items stand for is set again as it was.
pub command_env-env_items :
    (env : BTreeMap String String)
    → All (λ (entry : String × String). has_no_equals entry.0 ≡ true) env
    → command_env (env_items env) ≡ env
unfolding command_env env_items
command_env-env_items nil h = refl
command_env-env_items ((key, value) then env) h =
    rw (split_once-item key value h.0, command_env)
      (ap (λ z. (key, value) then z) (command_env-env_items env h.1))
