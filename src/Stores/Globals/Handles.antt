-- ===== src/Stores/Globals/Handles.antt =====
-- src/stores/globals.rs: no background task of a replaced record is left running.

use devstack.Common.{
  ℕ, String, ◌≡◌, refl, ◌∙◌, ◌≢◌, inl, inr, Option, none, some, List, [], ◌++◌, str_key, nat_key,
  Option-cases, beq_refl, beq-false_of_ne,
}
use devstack.Common.BTreeMap.{get, insert, remove, get-insert, get-remove}
use devstack.Model.Service.{ServiceRecord, taken, stop_api_capture, stop_health_monitor, stop_watch}
use devstack.Stores.Globals.{GlobalRecord, GlobalStore, upsert_global, get_global, stop_all}

-- The handles of a service's background tasks.
abbrev pub handles_of : ServiceRecord → List ℕ
handles_of service =
    taken service.handles.health ++ taken service.handles.watch ++ taken service.handles.api_capture

abbrev pub handles_of_entry : Option GlobalRecord → List ℕ
handles_of_entry none = []
handles_of_entry (some g) = handles_of g.service

-- `upsert_global` stops every background task of the record that it replaces; the new record is found
-- under its key then, and the records under other keys stay.
pub upsert_global_lem :
    (g : GlobalRecord) (store : GlobalStore)
    → ((upsert_global g store).0 ≡ handles_of_entry (get_global g.key store))
      × (get_global g.key (upsert_global g store).1 ≡ some g)
      × ((other : String)
          → g.key ≢ other
          → get_global other (upsert_global g store).1 ≡ get_global other store)
unfolding upsert_global get_global stop_all stop_health_monitor stop_watch stop_api_capture
upsert_global_lem g store =
    let found : get g.key (insert g.key g (remove g.key store)) ≡ some g =
      get-insert g.key g.key g (remove g.key store) ∙ rw (beq_refl g.key) refl in
    let others : (other : String)
        → g.key ≢ other
        → get other (insert g.key g (remove g.key store)) ≡ get other store =
      λ other ne.
        get-insert g.key other g (remove g.key store)
        ∙ rw (beq-false_of_ne g.key other ne)
            (get-remove g.key other store ∙ rw (beq-false_of_ne g.key other ne) refl) in
    elim (Option-cases (get g.key store)) [
      | inl lost ↦ rw (lost, upsert_global) (refl, found, others)
      | inr (previous, there) ↦ rw (there, upsert_global) (refl, found, others)
    ]
