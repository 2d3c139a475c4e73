-- ===== src/Stores/Runs/Lookups.antt =====
-- src/stores/runs.rs: what the store has after a run was created or changed.
use devstack.Common.{
  String, ◌≡◌, refl, ◌∙◌, ◌≢◌, ◌⊎◌, inl, inr, true, none, some, str_key, nat_key, Bool-cases,
  Option-cases, beq_refl, beq-false_of_ne,
}
use devstack.Common.BTreeMap.{
  get, contains_key, insert, get-insert, get_of_not_contains, modify, get-modify,
}
use devstack.Common.Outcome.{ok, err}
use devstack.Model.Run.{RunRecord}
use devstack.Stores.Runs.{
  RunStore, already_exists, not_found, create_run, get_run, with_run_mut, contains_run,
}

-- A run under an id that is taken is refused. Any other run is found under its id then, and no other
-- run changes.
pub create_run_lem :
    (run : RunRecord) (store : RunStore)
    → ((contains_run run.run_id store ≡ true) × (create_run run store ≡ err already_exists))
      ⊎ ((store' : RunStore) × (get_run run.run_id store ≡ none)
          × (create_run run store ≡ ok store')
          × (get_run run.run_id store' ≡ some run)
          × ((other : String) → run.run_id ≢ other → get_run other store' ≡ get_run other store))
unfolding create_run get_run contains_run
create_run_lem run store = elim (Bool-cases (contains_key run.run_id store)) [
  | inl t ↦ inl (t, rw (t, create_run) refl)
  | inr f ↦ inr (
    insert run.run_id run store,
    get_of_not_contains run.run_id store f,
    rw (f, create_run) refl,
    get-insert run.run_id run.run_id run store ∙ rw (beq_refl run.run_id) refl,
    λ other ne.
        get-insert run.run_id other run store ∙ rw (beq-false_of_ne run.run_id other ne) refl,
  )
]

-- A change through `with_run_mut` changes that run alone, as the function says, and passes on the
-- function's result; without such a run it is an error.
pub with_run_mut_lem {ℓ} :
    {A : Type ℓ} (f : RunRecord → A × RunRecord) (run_id : String) (store : RunStore)
    → ((get_run run_id store ≡ none) × (with_run_mut run_id f store ≡ err not_found))
      ⊎ ((run : RunRecord) × (store' : RunStore) × (get_run run_id store ≡ some run)
          × (with_run_mut run_id f store ≡ ok ((f run).0, store'))
          × (get_run run_id store' ≡ some (f run).1)
          × ((other : String) → run_id ≢ other → get_run other store' ≡ get_run other store))
unfolding with_run_mut get_run
with_run_mut_lem f run_id store = elim (Option-cases (get run_id store)) [
  | inl lost ↦ inl (lost, rw (lost, with_run_mut) refl)
  | inr (run, there) ↦ inr (
    run,
    modify run_id (λ r. (f r).1) store,
    there,
    rw (there, with_run_mut) refl,
    get-modify run_id run_id (λ r. (f r).1) store ∙ rw (beq_refl run_id) (rw there refl),
    λ other ne.
        get-modify run_id other (λ r. (f r).1) store ∙ rw (beq-false_of_ne run_id other ne) refl,
  )
]
