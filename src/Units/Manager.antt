-- ===== src/Units/Manager.antt =====
-- src/systemd.rs: the operations of `LocalSystemd` on its units. Each takes its unit out of the map in a
-- first locked section and puts a new one there in a second; the unit is stopped in between, and other
-- operations may run then (`Synced` takes the sections one by one).
use devstack.Common.{ℕ, String, Option, none, some, List, [], str_key, nat_key, option_map}
use devstack.Common.BTreeMap.{get, insert, remove}
use devstack.Common.Outcome.{Result, ok, err, panic, out_of_fuel}
use devstack.Common.Int.{ℤ}
use devstack.Units.{
  UnitProperties, Child, LocalUnit, Json, Disk, LocalSystemd, as_i32, persist_units,
}
use devstack.Units.Stop.{ManagerError, spawn_failed, Kill, StopAnswers, stop_and_reap, sigterm}

unfoldable pub take_unit :
    {Bytes : Type 0}
    → Json Bytes
    → Disk
    → String
    → LocalSystemd Bytes
    → Option LocalUnit × LocalSystemd Bytes
take_unit json disk name st = (get name st.units, persist_units json disk (remove name st.units) st)

abbrev pub group_of : Child → Option ℤ
group_of child = option_map as_i32 child.id

unfoldable pub started_unit : UnitProperties → Child → LocalUnit
started_unit props child = record {
  props = props;
  child = some child;
  pgid = group_of child;
  last_status = none;
}

unfoldable pub put_unit :
    {Bytes : Type 0}
    → Json Bytes
    → Disk
    → String
    → UnitProperties
    → Child
    → LocalSystemd Bytes
    → LocalSystemd Bytes
put_unit json disk name props child st =
    persist_units json disk (insert name (started_unit props child) st.units) st

-- The signals sent, the result, and the state.
pub record Managed (Bytes : Type 0) : Type 0 where
  pub kills : List Kill
  pub result : Result ManagerError (Unit {0})
  pub state : LocalSystemd Bytes

-- `spawned` is the child that `spawn_child` returns, `none` for its error.
unfoldable pub spawn_unit :
    {Bytes : Type 0}
    → Json Bytes
    → Disk
    → String
    → UnitProperties
    → Option Child
    → List Kill
    → LocalSystemd Bytes
    → Managed Bytes
spawn_unit json disk name props none kills st = record {
  kills = kills;
  result = err spawn_failed;
  state = st;
}
spawn_unit json disk name props (some child) kills st = record {
  kills = kills;
  result = ok tt;
  state = put_unit json disk name props child st;
}

abbrev managed :
    {Bytes : Type 0}
    → List Kill
    → Result ManagerError (Unit {0})
    → LocalSystemd Bytes
    → Managed Bytes
managed kills result st = record { kills = kills; result = result; state = st }

-- `stop_and_reap(..)?`, and then the new child.
unfoldable pub then_spawn :
    {Bytes : Type 0}
    → Json Bytes
    → Disk
    → Option Child
    → String
    → UnitProperties
    → LocalSystemd Bytes
    → List Kill
    → Result ManagerError (Unit {0})
    → Managed Bytes
then_spawn json disk spawned name props st kills (ok done) =
    spawn_unit json disk name props spawned kills st
then_spawn json disk spawned name props st kills (err e) = managed kills (err e) st
then_spawn json disk spawned name props st kills panic = managed kills panic st
then_spawn json disk spawned name props st kills out_of_fuel = managed kills out_of_fuel st

unfoldable pub start_transient_service :
    {Bytes : Type 0}
    → Json Bytes
    → Disk
    → StopAnswers
    → Option Child
    → String
    → UnitProperties
    → LocalSystemd Bytes
    → Managed Bytes
start_transient_service json disk a spawned name props st =
    let (existing, st') = take_unit json disk name st in
    elim existing [
      | none ↦ spawn_unit json disk name props spawned [] st'
      | some unit ↦
          let stopped = stop_and_reap a sigterm unit in
          then_spawn json disk spawned name props st' stopped.kills stopped.result
    ]

unfoldable pub kill_unit :
    {Bytes : Type 0}
    → Json Bytes
    → Disk
    → StopAnswers
    → String
    → ℕ
    → LocalSystemd Bytes
    → Managed Bytes
kill_unit json disk a name signal st =
    let (unit, st') = take_unit json disk name st in
    elim unit [
      | none ↦ managed [] (ok tt) st'
      | some unit ↦
          let stopped = stop_and_reap a signal unit in managed stopped.kills stopped.result st'
    ]

unfoldable pub stop_unit :
    {Bytes : Type 0} → Json Bytes → Disk → StopAnswers → String → LocalSystemd Bytes → Managed Bytes
stop_unit json disk a name st =
    let (unit, st') = take_unit json disk name st in
    elim unit [
      | none ↦ managed [] (ok tt) st'
      | some unit ↦
          let stopped = stop_and_reap a sigterm unit in managed stopped.kills stopped.result st'
    ]

-- A unit that is not there is not an error.
unfoldable pub restart_unit :
    {Bytes : Type 0}
    → Json Bytes
    → Disk
    → StopAnswers
    → Option Child
    → String
    → LocalSystemd Bytes
    → Managed Bytes
restart_unit json disk a spawned name st =
    let (previous, st') = take_unit json disk name st in
    elim previous [
      | none ↦ managed [] (ok tt) st'
      | some unit ↦
          let stopped = stop_and_reap a sigterm unit in
          then_spawn json disk spawned name unit.props st' stopped.kills stopped.result
    ]
