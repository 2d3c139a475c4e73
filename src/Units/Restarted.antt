-- ===== src/Units/Restarted.antt =====
-- src/systemd.rs: what a restarted daemon finds of the units of the daemon before it.

use devstack.Common.{
  String, ◌≡◌, refl, sym, ap, ◌∙◌, subst, inl, inr, Bool, true, false, ◌&&◌, ◌||◌, Option, none,
  some, List, [], ◌∷◌, if◌then◌else◌, str_key, nat_key, ◌==◌, Bool-cases, Option-cases, option_map,
}
use devstack.Common.BTreeMap.{
  BTreeMap, get, contains_key, remove, IsUnique, IsUnique-insert, IsUnique-retain, get-retain,
  IsUnique-modify, IsUnique-remove, map_values, get-map_values, contains_key-map_values,
}
use devstack.Common.Int.{ℤ}
use devstack.Ports.{KillReply, delivered, not_permitted, no_process}
use devstack.Units.{
  Child, LocalUnit, Json, LocalSystemd, persist_units, should_keep_loaded_unit, with_registry_path,
  is_some, group_exists, process_group_exists, load_units, process_group_exists,
}
use devstack.Units.Manager.{take_unit, put_unit}
use devstack.Units.Reaper.{
  World, TryWait, reap, reap_each, to_remove, remove_all, unit_status, status_with, child_status,
  wait_error, still_running, exited, no_unit, Answer,
}
use devstack.Units.Unchanged.{reap-units}
use devstack.Units.Synced.{
  RoundTrips, Section, take, put, reap_pass, query, daemon_restart, perform, perform_all,
  perform-IsSynced, IsSynced, without_child, working_disk,
}

IsUnique-map_values :
    {V W : Type 0} (f : V → W) (m : BTreeMap String V) → IsUnique m → IsUnique (map_values f m)
IsUnique-map_values f [] u = tt
IsUnique-map_values f ((b, v) ∷ m) u =
    (contains_key-map_values f b m ∙ u.0, IsUnique-map_values f m u.1)

contains_key-reap_each :
    (world : World) (a : String) (m : BTreeMap String LocalUnit)
    → contains_key a (reap_each world m) ≡ contains_key a m
contains_key-reap_each world a [] = refl
contains_key-reap_each world a ((b, v) ∷ m) = elim (Bool-cases (b == a)) [
  | inl t ↦ rw t refl
  | inr n ↦ rw n (contains_key-reap_each world a m)
]

IsUnique-reap_each :
    (world : World) (m : BTreeMap String LocalUnit) → IsUnique m → IsUnique (reap_each world m)
IsUnique-reap_each world [] u = tt
IsUnique-reap_each world ((b, v) ∷ m) u =
    (contains_key-reap_each world b m ∙ u.0, IsUnique-reap_each world m u.1)

IsUnique-remove_all :
    (names : List String) (m : BTreeMap String LocalUnit)
    → IsUnique m
    → IsUnique (remove_all names m)
unfolding remove_all
IsUnique-remove_all [] m u = u
IsUnique-remove_all (name ∷ names) m u =
    IsUnique-remove_all names (remove name m) (IsUnique-remove name m u)

abbrev pub first_start : {Bytes : Type 0} → LocalSystemd Bytes
first_start = record { units = []; registry = none }

-- Whether a process group is there, also one that may not be signalled.
abbrev pub is_there : (ℤ → KillReply) → Option ℤ → Bool
is_there probe none = false
is_there probe (some pgid) = elim (probe pgid) [ no_process ↦ false | _ ↦ true ]

-- A unit that a daemon finds again: its process group is there, or it remains and its exit was seen.
abbrev pub survives : (ℤ → KillReply) → LocalUnit → Bool
survives probe unit =
    is_there probe unit.pgid || unit.props.remain_after_exit && is_some unit.last_status

group_exists_eq :
    (probe : ℤ → KillReply) (unit : LocalUnit) → group_exists probe unit ≡ is_there probe unit.pgid
unfolding group_exists process_group_exists
group_exists_eq probe unit = elim (Option-cases unit.pgid) [
  | inl n ↦ rw n refl
  | inr (pgid, e) ↦ rw e (reply (probe pgid))
]
  where
    reply :
        (r : KillReply)
        → (elim r [ delivered ↦ true | not_permitted ↦ true | no_process ↦ false ])
          ≡ elim r [ no_process ↦ false | _ ↦ true ]
    reply delivered = refl
    reply not_permitted = refl
    reply no_process = refl

should_keep_loaded_unit_eq :
    (probe : ℤ → KillReply) (unit : LocalUnit)
    → should_keep_loaded_unit probe unit ≡ survives probe unit
unfolding should_keep_loaded_unit
should_keep_loaded_unit_eq probe unit =
    let there = group_exists_eq probe unit in
    elim (Bool-cases (unit.props.remain_after_exit && is_some unit.last_status)) [
      | inl t ↦ rw (t, should_keep_loaded_unit) (sym (either_true (is_there probe unit.pgid)))
      | inr f ↦
          rw (f, should_keep_loaded_unit) (there ∙ sym (either_false (is_there probe unit.pgid)))
    ]
  where
    either_true : (b : Bool) → (b || true) ≡ true
    either_true true = refl
    either_true false = refl

    either_false : (b : Bool) → (b || false) ≡ b
    either_false true = refl
    either_false false = refl

module _ {Bytes : Type 0} (json : Json Bytes) (trips : RoundTrips json) where
  child_status-IsUnique :
      (name : String) (unit : LocalUnit) (st : LocalSystemd Bytes) (t : TryWait)
      → IsUnique st.units
      → IsUnique (child_status json working_disk name unit st t).1.units
  unfolding child_status persist_units
  child_status-IsUnique name unit st (exited status) u = IsUnique-modify name _ st.units u
  child_status-IsUnique name unit st still_running u = u
  child_status-IsUnique name unit st wait_error u = u

  status_with-IsUnique :
      (world : World) (name : String) (unit : LocalUnit) (st : LocalSystemd Bytes)
      (child : Option Child)
      → IsUnique st.units
      → IsUnique (status_with json working_disk world name unit st child).1.units
  unfolding status_with persist_units
  status_with-IsUnique world name unit st (some child) u =
      child_status-IsUnique name unit st (world.try_wait child) u
  status_with-IsUnique world name unit st none u =
      elim (Bool-cases (unit.props.remain_after_exit && is_some unit.last_status)) [
        | inl t ↦ rw (t, status_with) u
        | inr f ↦ elim (Bool-cases (group_exists world.probe unit)) [
          | inl t ↦ rw (f, t, status_with) u
          | inr n ↦ rw (f, n, status_with) (IsUnique-remove name st.units u)
        ]
      ]

  perform-IsUnique :
      (section : Section) (st : LocalSystemd Bytes)
      → IsSynced json st
      → IsUnique st.units
      → IsUnique (perform json section st).units
  unfolding perform take_unit put_unit persist_units unit_status reap with_registry_path IsSynced
  perform-IsUnique (take name) st h u = IsUnique-remove name st.units u
  perform-IsUnique (put name props child) st h u = IsUnique-insert name _ st.units u
  perform-IsUnique (reap_pass world) st h u =
      subst IsUnique (sym (reap-units json working_disk world st))
        (IsUnique-remove_all (to_remove world st.units) _ (IsUnique-reap_each world st.units u))
  perform-IsUnique (query world name) st h u = elim (Option-cases (get name st.units)) [
    | inl lost ↦
        let same : unit_status json working_disk world name st ≡ (no_unit, st) =
          rw (lost, unit_status) refl in
        subst (λ (z : Answer × LocalSystemd Bytes). IsUnique z.1.units) (sym same) u
    | inr (unit, there) ↦
        let same : unit_status json working_disk world name st
            ≡ status_with json working_disk world name unit st unit.child =
          rw (there, unit_status) refl in
        subst (λ (z : Answer × LocalSystemd Bytes). IsUnique z.1.units) (sym same)
          (status_with-IsUnique world name unit st unit.child u)
  ]
  perform-IsUnique (daemon_restart probe) st h u =
      IsUnique-retain _ _ (subst IsUnique (sym h) (IsUnique-map_values without_child st.units u))

  abbrev IsSound : LocalSystemd Bytes → Type 0
  IsSound st = IsSynced json st × IsUnique st.units

  perform_all-IsSound :
      (sections : List Section) (st : LocalSystemd Bytes)
      → IsSound st
      → IsSound (perform_all json sections st)
  unfolding perform_all
  perform_all-IsSound [] st s = s
  perform_all-IsSound (section ∷ sections) st s =
      perform_all-IsSound sections (perform json section st)
        (perform-IsSynced json trips section st s.0, perform-IsUnique section st s.0 s.1)

  -- The daemon that is started after any sequence of locked sections has the units that there were
  -- then, without the handles of their children: those whose process group exists, or that remain after
  -- an exit that was seen, and no others. The disk works and serde_json reads what it has written.
  pub with_registry_path-perform_all :
      (sections : List Section) (probe : ℤ → KillReply) (name : String)
      → let st = perform_all json sections first_start in
        get name (with_registry_path json working_disk probe st.registry).units
        ≡ elim (get name st.units) [
          | none ↦ none
          | some unit ↦ if survives probe unit then some (without_child unit) else none
        ]
  unfolding with_registry_path IsSynced load_units
  with_registry_path-perform_all sections probe name =
      let st = perform_all json sections first_start in
      let (synced, unique) = perform_all-IsSound sections first_start (refl, tt) in
      let loaded : get name (load_units json st.registry)
          ≡ option_map without_child (get name st.units) =
        rw synced (get-map_values without_child name st.units) in
      let kept =
        get-retain (λ name unit. should_keep_loaded_unit probe unit) name
          (load_units json st.registry)
          (subst IsUnique (sym synced) (IsUnique-map_values without_child st.units unique)) in
      elim (Option-cases (get name st.units)) [
        | inl lost ↦ rw lost (kept ∙ rw (loaded ∙ ap (option_map without_child) lost) refl)
        | inr (unit, there) ↦
            let same = should_keep_loaded_unit_eq probe (without_child unit) in
            rw there (kept ∙ rw (loaded ∙ ap (option_map without_child) there, same) refl)
      ]
