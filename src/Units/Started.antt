-- ===== src/Units/Started.antt =====
-- src/systemd.rs: the unit that an operation of `LocalSystemd` leaves under its name.
use devstack.Common.{
  ℕ, String, ◌≡◌, refl, ◌∙◌, ◌≢◌, inl, inr, Bool, true, false, Option, none, some, List, [],
  if◌then◌else◌, str_key, nat_key, ◌==◌, Bool-cases, Option-cases, option_map,
}
use devstack.Common.BTreeMap.{get, remove, get-insert, get-remove}
use devstack.Common.Outcome.{Result, ok, err, panic, out_of_fuel}
use devstack.Units.{UnitProperties, Child, LocalUnit, Json, Disk, LocalSystemd, persist_units}
use devstack.Units.Stop.{
  Wait-cases, wait_error, reap_child, ManagerError, Kill, StopAnswers, stop_and_reap, sigterm,
}
use devstack.Units.Manager.{
  take_unit, put_unit, started_unit, spawn_unit, then_spawn, start_transient_service, Managed,
}

abbrev pub is_ok : Result ManagerError (Unit {0}) → Bool
is_ok (ok done) = true
is_ok (err e) = false
is_ok panic = false
is_ok out_of_fuel = false

-- The unit for a new child, when the operation went through.
abbrev pub new_unit :
    UnitProperties → Option Child → Result ManagerError (Unit {0}) → Option LocalUnit
new_unit props spawned result =
    if is_ok result then option_map (started_unit props) spawned else none

stop_and_reap-ok :
    (a : StopAnswers) (signal : ℕ) (unit : LocalUnit)
    → a.wait ≢ wait_error
    → (stop_and_reap a signal unit).result ≡ ok tt
unfolding stop_and_reap reap_child
stop_and_reap-ok a signal unit n = elim (Option-cases unit.child) [
  | inl alone ↦ rw (alone, stop_and_reap) refl
  | inr (child, there) ↦ elim (Wait-cases a.wait) [
    | inl (status, e) ↦ rw (there, e) refl
    | inr (inl e) ↦ absurd (n e)
    | inr (inr e) ↦ rw (there, e) refl
  ]
]

-- A start succeeds when the child is spawned and waiting for the old one does not fail.
pub start_transient_service-ok :
    {Bytes : Type 0} (json : Json Bytes) (disk : Disk) (a : StopAnswers) (child : Child)
    (name : String) (props : UnitProperties) (st : LocalSystemd Bytes)
    → a.wait ≢ wait_error
    → (start_transient_service json disk a (some child) name props st).result ≡ ok tt
unfolding start_transient_service take_unit spawn_unit then_spawn
start_transient_service-ok json disk a child name props st n =
    elim (Option-cases (get name st.units)) [
      | inl lost ↦ rw (lost, start_transient_service) refl
      | inr (unit, there) ↦
          rw (there, start_transient_service)
            (rw (stop_and_reap-ok a sigterm unit n, then_spawn) refl)
    ]

module _ {Bytes : Type 0} (json : Json Bytes) (disk : Disk) (name other : String) where
  abbrev Leaves : UnitProperties → Option Child → LocalSystemd Bytes → Managed Bytes → Type 0
  Leaves props spawned st m =
      get other m.state.units
      ≡ (if name == other then new_unit props spawned m.result else get other st.units)

  abbrev without : LocalSystemd Bytes → LocalSystemd Bytes
  without st = persist_units json disk (remove name st.units) st

  get-without :
      (st : LocalSystemd Bytes)
      → get other (without st).units ≡ (if name == other then none else get other st.units)
  unfolding persist_units
  get-without st = get-remove name other st.units

  spawn_unit-Leaves :
      (props : UnitProperties) (spawned : Option Child) (kills : List Kill)
      (st : LocalSystemd Bytes)
      → Leaves props spawned st (spawn_unit json disk name props spawned kills (without st))
  unfolding spawn_unit put_unit persist_units
  spawn_unit-Leaves props none kills st = get-remove name other st.units
  spawn_unit-Leaves props (some child) kills st =
      get-insert name other (started_unit props child) (remove name st.units)
      ∙ elim (Bool-cases (name == other)) [
        | inl t ↦ rw t refl
        | inr f ↦ rw f (get-remove name other st.units ∙ rw f refl)
      ]

  then_spawn-Leaves :
      (props : UnitProperties) (spawned : Option Child) (kills : List Kill)
      (result : Result ManagerError (Unit {0})) (st : LocalSystemd Bytes)
      → Leaves props spawned st (then_spawn json disk spawned name props (without st) kills result)
  unfolding then_spawn
  then_spawn-Leaves props spawned kills (ok done) st = spawn_unit-Leaves props spawned kills st
  then_spawn-Leaves props spawned kills (err e) st = get-without st
  then_spawn-Leaves props spawned kills panic st = get-without st
  then_spawn-Leaves props spawned kills out_of_fuel st = get-without st

  -- After `start_transient_service`, on every branch: the unit of that name is the new one, for the
  -- spawned child, when the call succeeds, and there is none when stopping the old unit or spawning the
  -- child has failed; every other unit is as it was.
  pub start_transient_service-get :
      (a : StopAnswers) (spawned : Option Child) (props : UnitProperties) (st : LocalSystemd Bytes)
      → let m = start_transient_service json disk a spawned name props st in
        get other m.state.units
        ≡ (if name == other then new_unit props spawned m.result else get other st.units)
  unfolding start_transient_service take_unit
  start_transient_service-get a spawned props st = elim (Option-cases (get name st.units)) [
    | inl lost ↦ rw (lost, start_transient_service) (spawn_unit-Leaves props spawned [] st)
    | inr (unit, there) ↦
        let stopped = stop_and_reap a sigterm unit in
        rw (there, start_transient_service)
          (then_spawn-Leaves props spawned stopped.kills stopped.result st)
  ]
