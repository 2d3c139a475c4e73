-- ===== src/Units/Reported.antt =====
-- src/systemd.rs: the reaper and the status of a unit go by the same tests.

use devstack.Common.{
  String, ◌≡◌, refl, sym, ap, ◌∙◌, subst, inl, inr, Bool, true, false, not, ◌&&◌, Option, none,
  some, List, [], ◌∷◌, arith, if◌then◌else◌, str_key, nat_key, ◌==◌, Bool-cases, key_cases, mem,
}
use devstack.Common.BTreeMap.{
  BTreeMap, get, contains_key, remove, IsUnique, get-remove, get-modify_each,
}
use devstack.Units.{LocalUnit, Child, Json, Disk, LocalSystemd, is_some, group_exists}
use devstack.Units.Reaper.{
  World, Reaped, TryWait, exited, still_running, wait_error, Answer, no_unit, answer, failed, reap,
  reap_unit, reap_with, reap_child, reap_each, to_remove, remove_all, unit_status, status_with,
  child_status,
}
use devstack.Units.Unchanged.{reap-units}

get-remove_all :
    (names : List String) (a : String) (m : BTreeMap String LocalUnit)
    → get a (remove_all names m) ≡ (if mem a names then none else get a m)
unfolding remove_all
get-remove_all [] a m = refl
get-remove_all (name ∷ names) a m = elim (key_cases name a) [
  | inl (t, e) ↦ rw t (
      get-remove_all names a (remove name m) ∙ elim (Bool-cases (mem a names)) [
        | inl h ↦ rw h refl
        | inr h ↦ rw h (get-remove name a m ∙ rw t refl)
      ])
  | inr (f, n) ↦ rw f (rw (get-remove_all names a (remove name m), get-remove name a m, f) refl)
]

mem-to_remove_of_not :
    (world : World) (a : String) (m : BTreeMap String LocalUnit)
    → contains_key a m ≡ false
    → mem a (to_remove world m) ≡ false
unfolding to_remove
mem-to_remove_of_not world a [] h = refl
mem-to_remove_of_not world a ((b, unit) ∷ m) h = ground (arith, mem-to_remove_of_not world a m)

mem-to_remove :
    (world : World) (a : String) (unit : LocalUnit) (m : BTreeMap String LocalUnit)
    → IsUnique m
    → get a m ≡ some unit
    → mem a (to_remove world m) ≡ (reap_unit world unit).gone
unfolding to_remove
mem-to_remove world a unit [] u h = cc
mem-to_remove world a unit ((b, w) ∷ m) u h = elim (key_cases b a) [
  | inl (t, e) ↦
      let same : w ≡ unit = cc (rw t at h) in
      let gone : mem a (to_remove world m) ≡ false =
        mem-to_remove_of_not world a m (subst (λ z. contains_key z m ≡ false) e u.0) in
      subst (λ (z : LocalUnit). mem a (to_remove world ((b, w) ∷ m)) ≡ (reap_unit world z).gone)
        same
        (elim (Bool-cases (reap_unit world w).gone) [
          | inl g ↦ rw (g, t) refl
          | inr k ↦ rw (k, gone) refl
        ])
  | inr (f, n) ↦
      let rest = mem-to_remove world a unit m u.1 (rw f at h) in
      elim (Bool-cases (reap_unit world w).gone) [ inl g ↦ rw (g, f) rest | inr k ↦ rw k rest ]
]

abbrev pub left_by : Reaped → Option LocalUnit
left_by reaped = if reaped.gone then none else some reaped.unit

contains_key-is_some :
    (a : String) (m : BTreeMap String LocalUnit) → contains_key a m ≡ is_some (get a m)
contains_key-is_some a [] = refl
contains_key-is_some a ((b, v) ∷ m) = elim (Bool-cases (b == a)) [
  | inl t ↦ rw t refl
  | inr n ↦ rw n (contains_key-is_some a m)
]

left_by-gone : (reaped : Reaped) → not (is_some (left_by reaped)) ≡ reaped.gone
left_by-gone reaped = elim (Bool-cases reaped.gone) [ inl t ↦ rw t refl | inr f ↦ rw f refl ]

-- A unit after a pass of the reaper.
pub reap-get :
    {Bytes : Type 0} (json : Json Bytes) (disk : Disk) (world : World) (name : String)
    (unit : LocalUnit) (st : LocalSystemd Bytes)
    → IsUnique st.units
    → get name st.units ≡ some unit
    → get name (reap json disk world st).units ≡ left_by (reap_unit world unit)
reap-get json disk world name unit st u there =
    ap (get name) (reap-units json disk world st)
    ∙ get-remove_all (to_remove world st.units) name (reap_each world st.units)
    ∙ rw
        (
          mem-to_remove world name unit st.units u there,
          get-modify_each (λ name unit. (reap_unit world unit).unit) name st.units,
          there,
        )
        refl

pub unit_status-eq :
    {Bytes : Type 0} (json : Json Bytes) (disk : Disk) (world : World) (name : String)
    (unit : LocalUnit) (st : LocalSystemd Bytes)
    → get name st.units ≡ some unit
    → unit_status json disk world name st ≡ status_with json disk world name unit st unit.child
unfolding unit_status
unit_status-eq json disk world name unit st there = rw (there, unit_status) refl

pub unit_status-eq_none :
    {Bytes : Type 0} (json : Json Bytes) (disk : Disk) (world : World) (name : String)
    (st : LocalSystemd Bytes)
    → get name st.units ≡ none
    → unit_status json disk world name st ≡ (no_unit, st)
unfolding unit_status
unit_status-eq_none json disk world name st lost = rw (lost, unit_status) refl

-- What an answer says of the pass: nothing, when it is an error.
abbrev pub agrees : Answer → Bool → Bool
agrees no_unit gone = false
agrees failed gone = gone
agrees (answer status) gone = (if gone then "inactive" else "active") == status.active_state

child_status-agrees :
    {Bytes : Type 0} (json : Json Bytes) (disk : Disk) (name : String) (unit : LocalUnit)
    (st : LocalSystemd Bytes) (t : TryWait)
    → agrees (child_status json disk name unit st t).0 (reap_child unit t).gone ≡ true
unfolding child_status reap_child
child_status-agrees json disk name unit st (exited status) =
    elim (Bool-cases unit.props.remain_after_exit) [ inl t ↦ rw t refl | inr f ↦ rw f refl ]
child_status-agrees json disk name unit st still_running = refl
child_status-agrees json disk name unit st wait_error = refl

status_with-agrees :
    {Bytes : Type 0} (json : Json Bytes) (disk : Disk) (world : World) (name : String)
    (unit : LocalUnit) (st : LocalSystemd Bytes) (child : Option Child)
    → agrees (status_with json disk world name unit st child).0 (reap_with world unit child).gone
      ≡ true
unfolding status_with reap_with
status_with-agrees json disk world name unit st (some child) =
    child_status-agrees json disk name unit st (world.try_wait child)
status_with-agrees json disk world name unit st none =
    elim (Bool-cases (unit.props.remain_after_exit && is_some unit.last_status)) [
      | inl t ↦ rw (t, status_with, reap_with) refl
      | inr f ↦ elim (Bool-cases (group_exists world.probe unit)) [
        | inl t ↦ rw (f, t, status_with, reap_with) refl
        | inr n ↦ rw (f, n, status_with, reap_with) refl
      ]
    ]

-- While the operating system gives the same answers, the reaper drops a unit exactly when its status is
-- reported inactive, and leaves it there exactly when it is reported active; a unit on which `try_wait`
-- fails, which has no status, is dropped.
pub unit_status-reap :
    {Bytes : Type 0} (json : Json Bytes) (disk : Disk) (world : World) (name : String)
    (unit : LocalUnit) (st : LocalSystemd Bytes)
    → IsUnique st.units
    → get name st.units ≡ some unit
    → agrees
        (unit_status json disk world name st).0
        (not (contains_key name (reap json disk world st).units))
      ≡ true
unfolding reap_unit
unit_status-reap json disk world name unit st u there =
    subst (λ gone. agrees (unit_status json disk world name st).0 gone ≡ true)
      (sym (
        ap not (contains_key-is_some name (reap json disk world st).units)
        ∙ ap (λ o. not (is_some o)) (reap-get json disk world name unit st u there)
        ∙ left_by-gone (reap_unit world unit)))
      (rw (unit_status-eq json disk world name unit st there)
        (status_with-agrees json disk world name unit st unit.child))
