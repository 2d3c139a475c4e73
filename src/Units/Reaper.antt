-- ===== src/Units/Reaper.antt =====
-- src/systemd.rs: one pass of the reaper over the units, and the status of a unit.

use devstack.Common.{
  String, Bool, true, false, not, ◌&&◌, ◌||◌, Option, none, some, List, [], ◌∷◌, if◌then◌else◌,
  str_key, nat_key, any, option_map,
}
use devstack.Common.BTreeMap.{BTreeMap, get, remove, values, modify, modify_each}
use devstack.Common.Int.{ℤ}
use devstack.Ports.{KillReply}
use devstack.Units.{
  Child, LocalUnit, LocalExitStatus, UnitStatus, Json, Disk, LocalSystemd, exit_result,
  group_exists, is_some, persist_units,
}

-- What `child.try_wait()` answers.
pub data TryWait : Type 0 where
  exited : (status : LocalExitStatus) → TryWait
  still_running wait_error : TryWait

-- The answers of the operating system while the lock is held.
pub record World : Type 0 where
  pub try_wait : Child → TryWait
  pub probe : ℤ → KillReply

unfoldable pub exit_unit : LocalExitStatus → LocalUnit → LocalUnit
exit_unit status unit = record unit { child = none; last_status = some status }

-- What the pass does to one unit: the unit, whether it is to be removed, and whether it has changed.
pub record Reaped : Type 0 where
  pub unit : LocalUnit
  pub gone : Bool
  pub changed : Bool

abbrev keep : LocalUnit → Reaped
keep unit = record { unit = unit; gone = false; changed = false }

abbrev drop : LocalUnit → Reaped
drop unit = record { unit = unit; gone = true; changed = false }

unfoldable pub reap_child : LocalUnit → TryWait → Reaped
reap_child unit (exited status) = record {
  unit = exit_unit status unit;
  gone = not unit.props.remain_after_exit;
  changed = true;
}
reap_child unit still_running = keep unit
reap_child unit wait_error = drop unit

unfoldable pub reap_with : World → LocalUnit → Option Child → Reaped
reap_with world unit (some child) = reap_child unit (world.try_wait child)
reap_with world unit none =
    if unit.props.remain_after_exit && is_some unit.last_status
    then keep unit
    else if group_exists world.probe unit
    then keep unit
    else drop unit

unfoldable pub reap_unit : World → LocalUnit → Reaped
reap_unit world unit = reap_with world unit unit.child

abbrev pub reap_each : World → BTreeMap String LocalUnit → BTreeMap String LocalUnit
reap_each world units = modify_each (λ name unit. (reap_unit world unit).unit) units

unfoldable pub to_remove : World → BTreeMap String LocalUnit → List String
to_remove world [] = []
to_remove world ((name, unit) ∷ units) =
    let rest = to_remove world units in if (reap_unit world unit).gone then name ∷ rest else rest

unfoldable pub any_changed : World → BTreeMap String LocalUnit → Bool
any_changed world units = any (λ unit. (reap_unit world unit).changed) (values units)

unfoldable pub remove_all : List String → BTreeMap String LocalUnit → BTreeMap String LocalUnit
remove_all [] units = units
remove_all (name ∷ names) units = remove_all names (remove name units)

abbrev pub not_empty : List String → Bool
not_empty [] = false
not_empty (name ∷ names) = true

unfoldable pub reap :
    {Bytes : Type 0} → Json Bytes → Disk → World → LocalSystemd Bytes → LocalSystemd Bytes
reap json disk world st =
    let names = to_remove world st.units in
    let units = remove_all names (reap_each world st.units) in
    if not_empty names || any_changed world st.units
    then persist_units json disk units st
    else record st { units = units }

abbrev pub running_status : UnitStatus
running_status = record { active_state = "active"; sub_state = "running"; result = none }

abbrev pub exited_status : Bool → Option LocalExitStatus → UnitStatus
exited_status active last = record {
  active_state = if active then "active" else "inactive";
  sub_state = "exited";
  result = option_map exit_result last;
}

-- What the manager answers about a unit: nothing, since it has none, a status, or the error of `try_wait`.
pub data Answer : Type 0 where
  no_unit : Answer
  answer : (status : UnitStatus) → Answer
  failed : Answer

unfoldable pub child_status :
    {Bytes : Type 0}
    → Json Bytes
    → Disk
    → String
    → LocalUnit
    → LocalSystemd Bytes
    → TryWait
    → Answer × LocalSystemd Bytes
child_status json disk name unit st wait_error = (failed, st)
child_status json disk name unit st still_running = (answer running_status, st)
child_status json disk name unit st (exited status) = (
  answer (exited_status unit.props.remain_after_exit (some status)),
  persist_units json disk (modify name (exit_unit status) st.units) st,
)

unfoldable pub status_with :
    {Bytes : Type 0}
    → Json Bytes
    → Disk
    → World
    → String
    → LocalUnit
    → LocalSystemd Bytes
    → Option Child
    → Answer × LocalSystemd Bytes
status_with json disk world name unit st (some child) =
    child_status json disk name unit st (world.try_wait child)
status_with json disk world name unit st none =
    if unit.props.remain_after_exit && is_some unit.last_status
    then (answer (exited_status true unit.last_status), st)
    else if group_exists world.probe unit
    then (answer running_status, st)
    else (
      answer (exited_status false unit.last_status),
      persist_units json disk (remove name st.units) st,
    )

unfoldable pub unit_status :
    {Bytes : Type 0}
    → Json Bytes
    → Disk
    → World
    → String
    → LocalSystemd Bytes
    → Answer × LocalSystemd Bytes
unit_status json disk world name st = elim (get name st.units) [
  | none ↦ (no_unit, st)
  | some unit ↦ status_with json disk world name unit st unit.child
]
