-- ===== src/Stores/Tasks/Running.antt =====
-- src/stores/tasks.rs: which tasks run, and what the clean-up keeps.
use devstack.Common.{
  ℕ, zero, suc, String, ◌≡◌, refl, sym, ap, ◌∙◌, subst, ◌≢◌, ◌↔◌, ◌⊎◌, inl, inr, Bool, true, false,
  ◌&&◌, ◌||◌, Option, none, some, [], ◌∷◌, arith, ltb, if◌then◌else◌, str_key, nat_key, Bool-cases,
  Option-cases, key_cases, beq_refl, beq-false_of_ne, any,
}
use devstack.Common.BTreeMap.{
  BTreeMap, get, values, IsUnique, contains_key_of_get, get-retain, modify, get-modify,
}
use devstack.Common.Outcome.{ok, err}
use devstack.Common.Int.{pos, negsuc, ℤ}
use devstack.Model.Event.{TaskExecutionState, same_task_state, same_name}
use devstack.Stores.Runs.{not_found}
use devstack.Stores.Tasks.{
  mark_completed, mark_failed, DetachedTaskExecution, TaskStore, Clock, cleanup_finished_tasks,
  cutoff, finish, get_task, has_running_task, is_running_as, outlives, same_scope,
  update_task_state, same_project_dir,
}

any-values :
    {V : Type 0} (p : V → Bool) (id : String) (t : V) (m : BTreeMap String V)
    → get id m ≡ some t
    → p t ≡ true
    → any p (values m) ≡ true
any-values p id t [] g h = cc
any-values p id t ((b, w) ∷ m) g h = elim (key_cases b id) [
  | inl (e, _) ↦
      let same : w ≡ t = cc (rw e at g) in let here : p w ≡ true = ap p same ∙ h in rw here refl
  | inr (f, _) ↦ let there = any-values p id t m (rw f at g) h in ground (arith, there)
]

found-any :
    {V : Type 0} (p : V → Bool) (m : BTreeMap String V)
    → IsUnique m
    → any p (values m) ≡ true
    → (id : String) × (t : V) × (get id m ≡ some t) × (p t ≡ true)
found-any p [] u h = cc
found-any p ((b, w) ∷ m) u h = elim (Bool-cases (p w)) [
  | inl t ↦ (b, w, rw (beq_refl b) refl, t)
  | inr f ↦
      let later : any p (values m) ≡ true = rw f at h in
      let (id, t, g, q) = found-any p m u.1 later in
      elim (key_cases b id) [
        | inl (_, e) ↦ cc (u.0, contains_key_of_get b m t (subst (λ z. get z m ≡ some t) (sym e) g))
        | inr (n, _) ↦ (id, t, rw n g, q)
      ]
]

both_true : (a b : Bool) → (a && b) ≡ true → (a ≡ true) × (b ≡ true)
both_true true b h = (refl, h)
both_true false b h = cc

same_task_state_iff : (a b : TaskExecutionState) → (same_task_state a b ≡ true) ↔ (a ≡ b)
same_task_state_iff a b = ground arith

-- A task of a run is in the scope of that run; a task of no run is in the scope of its directory, where
-- directories are the same that have one canonical path, or of which neither exists.
abbrev pub InScope :
    (String → Option String) → Option String → String → Option String → String → Type 0
InScope canonical existing dir candidate project_dir =
    ((id : String) × (existing ≡ some id) × (candidate ≡ some id))
    ⊎ ((existing ≡ none)
        × (candidate ≡ none)
        × (((path : String) × (canonical dir ≡ some path) × (canonical project_dir ≡ some path))
            ⊎ ((canonical dir ≡ none) × (canonical project_dir ≡ none))))

same_name_iff :
    (a b : Option String)
    → (same_name a b ≡ true)
      ↔ (((x : String) × (a ≡ some x) × (b ≡ some x)) ⊎ ((a ≡ none) × (b ≡ none)))
same_name_iff none none = (λ _. inr (refl, refl), λ _. refl)
same_name_iff none (some b) = (λ h. cc, elim [ inl (x, e, _) ↦ cc | inr (_, e) ↦ cc ])
same_name_iff (some a) none = (λ h. cc, elim [ inl (x, _, e) ↦ cc | inr (e, _) ↦ cc ])
same_name_iff (some a) (some b) = (
  λ h. let e = (str_key.beq_iff a b).0 h in inl (b, ap some e, refl),
  elim [ inl (x, e, f) ↦ let same : a ≡ b = cc in (str_key.beq_iff a b).1 same | inr (e, _) ↦ cc ],
)

same_scope_iff :
    (canonical : String → Option String) (existing : Option String) (dir : String)
    (candidate : Option String) (project_dir : String)
    → (same_scope canonical existing dir candidate project_dir ≡ true)
      ↔ InScope canonical existing dir candidate project_dir
unfolding same_scope same_project_dir
same_scope_iff canonical none dir none project_dir =
    let paths = same_name_iff (canonical dir) (canonical project_dir) in
    (
      λ h. inr (refl, refl, paths.0 h),
      elim [ inl (id, e, _) ↦ cc | inr (_, _, same) ↦ paths.1 same ],
    )
same_scope_iff canonical none dir (some b) project_dir =
    (λ h. cc, elim [ inl (id, e, _) ↦ cc | inr (_, e, _) ↦ cc ])
same_scope_iff canonical (some a) dir none project_dir =
    (λ h. cc, elim [ inl (id, _, e) ↦ cc | inr (e, _, _) ↦ cc ])
same_scope_iff canonical (some a) dir (some b) project_dir = (
  λ h. let e = (str_key.beq_iff a b).0 h in inl (b, ap some e, refl),
  elim [
    | inl (x, e, f) ↦ let same : a ≡ b = cc in (str_key.beq_iff a b).1 same
    | inr (e, _, _) ↦ cc
  ],
)

-- `has_running_task` answers yes exactly when the store has a running task of that name in the same
-- run or, for a task of no run, in the same directory; directories that do not exist count as one.
-- Each id has one entry in the store.
pub has_running_task_iff :
    (canonical : String → Option String) (name : String) (run_id : Option String)
    (project_dir : String) (store : TaskStore)
    → IsUnique store
    → (has_running_task canonical name run_id project_dir store ≡ true) ↔ (
        (id : String) × (t : DetachedTaskExecution) × (get_task id store ≡ some t)
        × (t.state ≡ TaskExecutionState.running)
        × (t.task ≡ name)
        × InScope canonical t.run_id t.project_dir run_id project_dir)
unfolding has_running_task is_running_as get_task
has_running_task_iff canonical name run_id project_dir store u = (
  λ h.
      let (id, t, g, q) = found-any (is_running_as canonical name run_id project_dir) store u h in
      let (state_and_name, scope) = both_true _ _ q in
      let (state_ok, name_ok) = both_true _ _ state_and_name in
      (
        id,
        t,
        g,
        (same_task_state_iff t.state TaskExecutionState.running).0 state_ok,
        (str_key.beq_iff t.task name).0 name_ok,
        (same_scope_iff canonical t.run_id t.project_dir run_id project_dir).0 scope,
      ),
  λ (id, t, g, state_ok, name_ok, scope).
      any-values (is_running_as canonical name run_id project_dir) id t store g (
        rw
          (
            (same_task_state_iff t.state TaskExecutionState.running).1 state_ok,
            (str_key.beq_iff t.task name).1 name_ok,
            is_running_as,
          )
          ((same_scope_iff canonical t.run_id t.project_dir run_id project_dir).1 scope)),
)

-- What an exit code says; none is that of a task that could not run.
abbrev pub outcome : Option ℤ → TaskExecutionState
outcome none = TaskExecutionState.failed
outcome (some (pos zero)) = TaskExecutionState.completed
outcome (some _) = TaskExecutionState.failed

finish-outcome :
    (clock : Clock) (code : Option ℤ) (t : DetachedTaskExecution)
    → (finish clock code t).state ≡ outcome code
unfolding mark_completed mark_failed
finish-outcome clock none t = refl
finish-outcome clock (some (pos zero)) t = refl
finish-outcome clock (some (pos (suc n))) t = refl
finish-outcome clock (some (negsuc n)) t = refl

-- Finishing an unknown task is an error. Finishing a task returns it as the store has it then, and
-- changes no other task: with exit code 0 it has completed, with another code or none it has failed.
pub update_task_state_lem :
    (clock : Clock) (id : String) (code : Option ℤ) (store : TaskStore)
    → ((get_task id store ≡ none) × (update_task_state clock id code store ≡ err not_found))
      ⊎ ((t : DetachedTaskExecution) × (store' : TaskStore) × (update_task_state clock id code store
            ≡ ok (t, store'))
          × (get_task id store' ≡ some t)
          × (t.state ≡ outcome code)
          × ((other : String) → id ≢ other → get_task other store' ≡ get_task other store))
unfolding update_task_state get_task
update_task_state_lem clock id code store = elim (Option-cases (get id store)) [
  | inl lost ↦ inl (lost, rw (lost, update_task_state) refl)
  | inr (t, g) ↦ inr (
    finish clock code t,
    modify id (finish clock code) store,
    rw (g, update_task_state) refl,
    get-modify id id (finish clock code) store ∙ rw (beq_refl id) (rw g refl),
    finish-outcome clock code t,
    λ other ne.
        get-modify id other (finish clock code) store ∙ rw (beq-false_of_ne id other ne) refl,
  )
]

-- The clean-up keeps each running task, and of the others exactly those that started after the
-- cutoff.
-- Each id has one entry in the store.
pub cleanup_finished_tasks-get :
    (earliest max_age : ℕ) (id : String) (clock : Clock) (store : TaskStore)
    → IsUnique store
    → get_task id (cleanup_finished_tasks earliest clock max_age store).1
      ≡ elim (get_task id store) [
        | none ↦ none
        | some t ↦
            if same_task_state t.state TaskExecutionState.running
              || ltb (cutoff earliest clock max_age) t.started_at_instant
            then some t
            else none
      ]
unfolding cleanup_finished_tasks get_task outlives
cleanup_finished_tasks-get earliest max_age id clock store u =
    get-retain (λ key t. outlives (cutoff earliest clock max_age) t) id store u
    ∙ elim (Option-cases (get id store)) [
      | inl lost ↦ rw lost refl
      | inr (t, g) ↦ rw g (elim (Bool-cases (same_task_state t.state TaskExecutionState.running)) [
        | inl on ↦ rw (on, outlives) refl
        | inr off ↦ rw (off, outlives) refl
      ])
    ]
