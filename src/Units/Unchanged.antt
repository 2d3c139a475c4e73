-- ===== src/Units/Unchanged.antt =====
-- src/systemd.rs: a pass of the reaper that sees no change in a unit leaves it as it is.

use devstack.Common.{
  String, ◌≡◌, refl, ap, inl, inr, false, ◌&&◌, ◌||◌, Option, none, some, [], ◌∷◌, str_key, nat_key,
  Bool-cases,
}
use devstack.Common.BTreeMap.{BTreeMap}
use devstack.Units.{
  Child, LocalUnit, is_some, group_exists, persist_units, Json, Disk, LocalSystemd,
}
use devstack.Units.Reaper.{
  World, TryWait, reap_unit, reap_child, reap_with, reap_each, any_changed, wait_error,
  still_running, exited, reap, remove_all, to_remove, not_empty,
}

reap_child-unchanged :
    (unit : LocalUnit) (t : TryWait)
    → (reap_child unit t).changed ≡ false
    → (reap_child unit t).unit ≡ unit
unfolding reap_child
reap_child-unchanged unit (exited status) h = cc
reap_child-unchanged unit still_running h = refl
reap_child-unchanged unit wait_error h = refl

reap_with-unchanged :
    (world : World) (unit : LocalUnit) (child : Option Child)
    → (reap_with world unit child).changed ≡ false
    → (reap_with world unit child).unit ≡ unit
unfolding reap_with
reap_with-unchanged world unit (some child) h = reap_child-unchanged unit (world.try_wait child) h
reap_with-unchanged world unit none h =
    elim (Bool-cases (unit.props.remain_after_exit && is_some unit.last_status)) [
      | inl t ↦ rw (t, reap_with) refl
      | inr f ↦ elim (Bool-cases (group_exists world.probe unit)) [
        | inl t ↦ rw (f, t) refl
        | inr n ↦ rw (f, n) refl
      ]
    ]

pub reap_each-unchanged :
    (world : World) (m : BTreeMap String LocalUnit)
    → any_changed world m ≡ false
    → reap_each world m ≡ m
unfolding any_changed reap_unit
reap_each-unchanged world [] h = refl
reap_each-unchanged world ((name, unit) ∷ m) h = elim (Bool-cases (reap_unit world unit).changed) [
  | inl t ↦ cc (rw t at h)
  | inr f ↦
      rw (reap_with-unchanged world unit unit.child f)
        (ap (λ z. (name, unit) ∷ z) (reap_each-unchanged world m (rw f at h)))
]

-- The units after a pass, whether it has written them to the file or not.
pub reap-units :
    {Bytes : Type 0} (json : Json Bytes) (disk : Disk) (world : World) (st : LocalSystemd Bytes)
    → (reap json disk world st).units
      ≡ remove_all (to_remove world st.units) (reap_each world st.units)
unfolding reap persist_units
reap-units json disk world st =
    elim (Bool-cases (not_empty (to_remove world st.units) || any_changed world st.units)) [
      | inl t ↦ rw (t, reap) refl
      | inr f ↦ rw (f, reap) refl
    ]
