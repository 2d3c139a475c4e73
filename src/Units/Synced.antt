-- ===== src/Units/Synced.antt =====
-- src/systemd.rs: the registry's file keeps up with the units in memory, whatever order the locked
-- sections of the operations, the reaper's passes and the restarts of the daemon come in.

use devstack.Common.{
  String, ◌≡◌, refl, sym, ap, subst, inl, inr, Bool, true, false, ◌&&◌, Option, none, some, List,
  [], ◌∷◌, str_key, nat_key, Bool-cases, Option-cases,
}
use devstack.Common.BTreeMap.{BTreeMap, get, remove, retain, map_values}
use devstack.Common.Int.{ℤ}
use devstack.Ports.{KillReply}
use devstack.Units.{
  UnitProperties, Child, LocalUnit, PersistedLocalUnit, Json, Disk, LocalSystemd, loaded_unit,
  persisted_unit, load_units, persist_units_sync, persist_units, with_registry_path, is_some,
  group_exists,
}
use devstack.Units.Manager.{take_unit, put_unit}
use devstack.Units.Unchanged.{reap_each-unchanged}
use devstack.Units.Reaper.{
  World, TryWait, reap, to_remove, any_changed, not_empty, unit_status, status_with, child_status,
  wait_error, still_running, exited, remove_all,
}
use devstack.Units.Unchanged.{}

-- serde_json reads what it has written.
abbrev pub RoundTrips : {Bytes : Type 0} → Json Bytes → Type 0
RoundTrips {Bytes} json =
    (m : BTreeMap String PersistedLocalUnit)
    → (bytes : Bytes) × (json.to_vec_pretty m ≡ some bytes) × (json.from_slice bytes ≡ some m)

abbrev pub working_disk : Disk
working_disk = record { removes = true; writes = true; renames = true }

-- A unit without the handle of its child, which does not outlive the daemon.
abbrev pub without_child : LocalUnit → LocalUnit
without_child unit = record unit { child = none }

-- The file says of every unit in memory what there is to say, and of no other.
unfoldable pub IsSynced : {Bytes : Type 0} → Json Bytes → LocalSystemd Bytes → Type 0
IsSynced json st = load_units json st.registry ≡ map_values without_child st.units

-- The locked sections; an operation on a unit is a `take` and then a `put`, or a `take` alone.
pub data Section : Type 0 where
  take : (name : String) → Section
  put : (name : String) (props : UnitProperties) (child : Child) → Section
  reap_pass : (world : World) → Section
  query : (world : World) (name : String) → Section
  daemon_restart : (probe : ℤ → KillReply) → Section

unfoldable pub perform :
    {Bytes : Type 0} → Json Bytes → Section → LocalSystemd Bytes → LocalSystemd Bytes
perform json (take name) st = (take_unit json working_disk name st).1
perform json (put name props child) st = put_unit json working_disk name props child st
perform json (reap_pass world) st = reap json working_disk world st
perform json (query world name) st = (unit_status json working_disk world name st).1
perform json (daemon_restart probe) st = with_registry_path json working_disk probe st.registry

unfoldable pub perform_all :
    {Bytes : Type 0} → Json Bytes → List Section → LocalSystemd Bytes → LocalSystemd Bytes
perform_all json [] st = st
perform_all json (section ∷ sections) st = perform_all json sections (perform json section st)

map_values-persisted :
    (m : BTreeMap String LocalUnit)
    → map_values loaded_unit (map_values persisted_unit m) ≡ map_values without_child m
unfolding loaded_unit persisted_unit
map_values-persisted [] = refl
map_values-persisted ((name, unit) ∷ m) =
    ap (λ z. (name, without_child unit) ∷ z) (map_values-persisted m)

retain-loaded :
    (p : LocalUnit → Bool) (m : BTreeMap String PersistedLocalUnit)
    → map_values without_child (retain (λ name unit. p unit) (map_values loaded_unit m))
      ≡ retain (λ name unit. p unit) (map_values loaded_unit m)
unfolding loaded_unit retain
retain-loaded p [] = refl
retain-loaded p ((name, unit) ∷ m) = elim (Bool-cases (p (loaded_unit unit))) [
  | inl t ↦ rw t (ap (λ z. (name, loaded_unit unit) ∷ z) (retain-loaded p m))
  | inr f ↦ rw f (retain-loaded p m)
]

retain-load_units :
    {Bytes : Type 0} (json : Json Bytes) (p : LocalUnit → Bool) (file : Option Bytes)
    → map_values without_child (retain (λ name unit. p unit) (load_units json file))
      ≡ retain (λ name unit. p unit) (load_units json file)
unfolding load_units retain
retain-load_units json p none = refl
retain-load_units json p (some bytes) = elim (Option-cases (json.from_slice bytes)) [
  | inl lost ↦ rw (lost, load_units) refl
  | inr (m, there) ↦ rw (there, load_units) (retain-loaded p m)
]

empty_of : (names : List String) → not_empty names ≡ false → names ≡ []
empty_of [] h = refl
empty_of (name ∷ names) h = cc

module _ {Bytes : Type 0} (json : Json Bytes) (trips : RoundTrips json) where
  -- What was persisted is loaded again.
  load_units-persist :
      (units : BTreeMap String LocalUnit) (file : Option Bytes)
      → load_units json (persist_units_sync json working_disk units file)
        ≡ map_values without_child units
  unfolding load_units persist_units_sync
  load_units-persist [] file = refl
  load_units-persist ((name, unit) ∷ units) file =
      let (bytes, wrote, read) = trips (map_values persisted_unit ((name, unit) ∷ units)) in
      rw (wrote, persist_units_sync)
        (rw (read, load_units) (map_values-persisted ((name, unit) ∷ units)))

  persist_units-IsSynced :
      (units : BTreeMap String LocalUnit) (st : LocalSystemd Bytes)
      → IsSynced json (persist_units json working_disk units st)
  unfolding IsSynced persist_units
  persist_units-IsSynced units st = load_units-persist units st.registry

  with_registry_path-IsSynced :
      (probe : ℤ → KillReply) (file : Option Bytes)
      → IsSynced json (with_registry_path json working_disk probe file)
  unfolding IsSynced with_registry_path
  with_registry_path-IsSynced probe file = load_units-persist _ file

  child_status-IsSynced :
      (name : String) (unit : LocalUnit) (st : LocalSystemd Bytes) (t : TryWait)
      → IsSynced json st
      → IsSynced json (child_status json working_disk name unit st t).1
  unfolding child_status
  child_status-IsSynced name unit st (exited status) h = persist_units-IsSynced _ st
  child_status-IsSynced name unit st still_running h = h
  child_status-IsSynced name unit st wait_error h = h

  status_with-IsSynced :
      (world : World) (name : String) (unit : LocalUnit) (st : LocalSystemd Bytes)
      (child : Option Child)
      → IsSynced json st
      → IsSynced json (status_with json working_disk world name unit st child).1
  unfolding status_with
  status_with-IsSynced world name unit st (some child) h =
      child_status-IsSynced name unit st (world.try_wait child) h
  status_with-IsSynced world name unit st none h =
      elim (Bool-cases (unit.props.remain_after_exit && is_some unit.last_status)) [
        | inl t ↦ rw (t, status_with) h
        | inr f ↦ elim (Bool-cases (group_exists world.probe unit)) [
          | inl t ↦ rw (f, t, status_with) h
          | inr n ↦ rw (f, n, status_with) (persist_units-IsSynced (remove name st.units) st)
        ]
      ]

  unit_status-IsSynced :
      (world : World) (name : String) (st : LocalSystemd Bytes)
      → IsSynced json st
      → IsSynced json (unit_status json working_disk world name st).1
  unfolding unit_status
  unit_status-IsSynced world name st h = elim (Option-cases (get name st.units)) [
    | inl lost ↦ rw (lost, unit_status) h
    | inr (unit, there) ↦
        rw (there, unit_status) (status_with-IsSynced world name unit st unit.child h)
  ]

  reap-IsSynced :
      (world : World) (st : LocalSystemd Bytes)
      → IsSynced json st
      → IsSynced json (reap json working_disk world st)
  unfolding reap remove_all
  reap-IsSynced world st h = elim (Bool-cases (not_empty (to_remove world st.units))) [
    | inl t ↦ rw (t, reap) (persist_units-IsSynced _ st)
    | inr f ↦ elim (Bool-cases (any_changed world st.units)) [
      | inl t ↦ rw (f, t, reap) (persist_units-IsSynced _ st)
      | inr n ↦
          let none_gone : to_remove world st.units ≡ [] = empty_of (to_remove world st.units) f in
          rw (none_gone, n, reap)
            (subst
              (λ (units : BTreeMap String LocalUnit). IsSynced json (record st { units = units }))
              (sym (reap_each-unchanged world st.units n)) h)
    ]
  ]

  -- Each locked section keeps the file in step with the units in memory.
  pub perform-IsSynced :
      (section : Section) (st : LocalSystemd Bytes)
      → IsSynced json st
      → IsSynced json (perform json section st)
  unfolding perform take_unit put_unit
  perform-IsSynced (take name) st h = persist_units-IsSynced _ st
  perform-IsSynced (put name props child) st h = persist_units-IsSynced _ st
  perform-IsSynced (reap_pass world) st h = reap-IsSynced world st h
  perform-IsSynced (query world name) st h = unit_status-IsSynced world name st h
  perform-IsSynced (daemon_restart probe) st h = with_registry_path-IsSynced probe st.registry
