-- ===== src/Units.antt =====
-- src/systemd.rs: the units of `LocalSystemd`, which runs services as child processes of the daemon
-- where there is no systemd, and the file that keeps them over a restart of the daemon. A child is the
-- id that its handle tells; serde_json and the disk are parameters.
pub mod Command
pub mod Stop
pub mod Manager
pub mod Reaper
pub mod Unchanged
pub mod Synced
pub mod Restarted
pub mod Started
pub mod Reported
use devstack.Common.{
  ℕ, ◌-◌, ◌%◌, ◌^◌, String, Bool, true, false, ◌&&◌, Option, none, some, List, [], ◌∷◌, ltb,
  if◌then◌else◌, str_key, nat_key,
}
use devstack.Common.BTreeMap.{BTreeMap, retain, map_values}
use devstack.Common.Int.{ℤ, pos, negsuc}
use devstack.Ports.{KillReply, delivered, not_permitted, no_process}

pub record ExecStart : Type 0 where
  pub path : String
  pub argv : List String
  pub ignore_failure : Bool

pub record UnitProperties : Type 0 where
  pub description : String
  pub working_directory : String
  pub environment : List String
  pub exec_start : ExecStart
  pub kill_mode : String
  pub kill_signal : ℕ
  pub timeout_stop_usec : ℕ
  pub send_sigkill : Bool
  pub restart : String
  pub restart_usec : ℕ
  pub start_limit_interval_usec : ℕ
  pub start_limit_burst : ℕ
  pub remain_after_exit : Bool

unfoldable pub new_properties : String → String → List String → ExecStart → UnitProperties
new_properties description working_directory environment exec_start = record {
  description = description;
  working_directory = working_directory;
  environment = environment;
  exec_start = exec_start;
  kill_mode = "control-group";
  kill_signal = 2;
  timeout_stop_usec = 2000000;
  send_sigkill = true;
  restart = "on-failure";
  restart_usec = 250000;
  start_limit_interval_usec = 30000000;
  start_limit_burst = 20;
  remain_after_exit = false;
}

unfoldable pub with_restart : String → UnitProperties → UnitProperties
with_restart restart props = record props { restart = restart }

unfoldable pub with_remain_after_exit : Bool → UnitProperties → UnitProperties
with_remain_after_exit remain props = record props { remain_after_exit = remain }

pub record UnitStatus : Type 0 where
  pub active_state : String
  pub sub_state : String
  pub result : Option String

pub record LocalExitStatus : Type 0 where
  pub success : Bool
  pub code : Option ℤ

unfoldable pub exit_result : LocalExitStatus → String
exit_result status = if status.success then "success" else "exit-code"

-- tokio's `Child`, of which the code asks the id.
pub record Child : Type 0 where
  pub id : Option ℕ

pub record LocalUnit : Type 0 where
  pub props : UnitProperties
  pub child : Option Child
  pub pgid : Option ℤ
  pub last_status : Option LocalExitStatus

pub record PersistedLocalUnit : Type 0 where
  pub props : UnitProperties
  pub pgid : Option ℤ
  pub last_status : Option LocalExitStatus

-- `pid as i32`
unfoldable pub as_i32 : ℕ → ℤ
as_i32 n = if ltb (n % 2 ^ 32) (2 ^ 31) then pos (n % 2 ^ 32) else negsuc (2 ^ 32 - 1 - n % 2 ^ 32)

-- `probe pgid` is what `kill(-pgid, 0)` answers.
unfoldable pub process_group_exists : (ℤ → KillReply) → ℤ → Bool
process_group_exists probe pgid = elim (probe pgid) [
  | delivered ↦ true
  | not_permitted ↦ true
  | no_process ↦ false
]

unfoldable pub group_exists : (ℤ → KillReply) → LocalUnit → Bool
group_exists probe unit = elim unit.pgid [
  | none ↦ false
  | some pgid ↦ process_group_exists probe pgid
]

abbrev pub is_some {ℓ} : {A : Type ℓ} → Option A → Bool
is_some none = false
is_some (some a) = true

unfoldable pub should_keep_loaded_unit : (ℤ → KillReply) → LocalUnit → Bool
should_keep_loaded_unit probe unit =
    if unit.props.remain_after_exit && is_some unit.last_status
    then true
    else group_exists probe unit

-- serde_json on the registry.
pub record Json (Bytes : Type 0) : Type 0 where
  pub to_vec_pretty : BTreeMap String PersistedLocalUnit → Option Bytes
  pub from_slice : Bytes → Option (BTreeMap String PersistedLocalUnit)

-- Which of the operations on the registry's files go through.
pub record Disk : Type 0 where
  pub removes : Bool
  pub writes : Bool
  pub renames : Bool

unfoldable pub persisted_unit : LocalUnit → PersistedLocalUnit
persisted_unit unit = record {
  props = unit.props;
  pgid = unit.pgid;
  last_status = unit.last_status;
}

unfoldable pub loaded_unit : PersistedLocalUnit → LocalUnit
loaded_unit unit = record {
  props = unit.props;
  child = none;
  pgid = unit.pgid;
  last_status = unit.last_status;
}

-- The registry's file, `none` when there is none.
unfoldable pub load_units : {Bytes : Type 0} → Json Bytes → Option Bytes → BTreeMap String LocalUnit
load_units json none = []
load_units json (some raw) = elim (json.from_slice raw) [
  | none ↦ []
  | some persisted ↦ map_values loaded_unit persisted
]

unfoldable pub persist_units_sync :
    {Bytes : Type 0} → Json Bytes → Disk → BTreeMap String LocalUnit → Option Bytes → Option Bytes
persist_units_sync json disk [] file = if disk.removes then none else file
persist_units_sync json disk (unit ∷ units) file =
    elim (json.to_vec_pretty (map_values persisted_unit (unit ∷ units))) [
      | none ↦ file
      | some bytes ↦ if disk.writes && disk.renames then some bytes else file
    ]

pub record LocalSystemd (Bytes : Type 0) : Type 0 where
  pub units : BTreeMap String LocalUnit
  pub registry : Option Bytes

-- What every locked section ends with when it has changed the units.
unfoldable pub persist_units :
    {Bytes : Type 0}
    → Json Bytes
    → Disk
    → BTreeMap String LocalUnit
    → LocalSystemd Bytes
    → LocalSystemd Bytes
persist_units json disk units st = record {
  units = units;
  registry = persist_units_sync json disk units st.registry;
}

-- A start of the daemon on the registry's file; the reaper that it spawns is `Reaper`.
unfoldable pub with_registry_path :
    {Bytes : Type 0} → Json Bytes → Disk → (ℤ → KillReply) → Option Bytes → LocalSystemd Bytes
with_registry_path json disk probe file =
    let loaded = retain (λ name unit. should_keep_loaded_unit probe unit) (load_units json file) in
    record { units = loaded; registry = persist_units_sync json disk loaded file }
