-- ===== src/Tasks/Latest.antt =====
-- src/services/tasks/history.rs: which execution of a task is the latest.

use devstack.Common.BTreeMap.{get, get-insert}
use devstack.Common.{
  String, ◌≡◌, refl, sym, ap, ◌∙◌, subst, ◌⊎◌, inl, inr, Option, none, some, List, [], ◌∷◌,
  if◌then◌else◌, str_key, nat_key, ◌==◌, Bool-cases, key_cases, All,
}
use devstack.Tasks.Sooner.{Sooner, Sooner-irrefl, Sooner-trans, Sooner-before, finished_later_cases}
use devstack.Tasks.{
  TaskExecution, Latest, finished_later, takes_entry, note_execution, latest_from, latest_by_task,
  TaskHistory,
}

-- The executions of one task, the oldest entry first.
abbrev pub of_task : String → List TaskExecution → List TaskExecution
of_task name [] = []
of_task name (x ∷ xs) = if x.task == name then x ∷ of_task name xs else of_task name xs

-- The execution comes in the list, those in front of it are not later, and those behind it are sooner.
abbrev pub IsLatest : TaskExecution → List TaskExecution → Type 0
IsLatest x [] = ⊥
IsLatest x (y ∷ ys) = ((y ≡ x) × All (λ z. Sooner z x) ys) ⊎ ((¬ Sooner x y) × IsLatest x ys)

-- What the loop keeps of two executions.
abbrev pub later_of : TaskExecution → TaskExecution → TaskExecution
later_of current x = if finished_later x current then x else current

abbrev pub latest_of : TaskExecution → List TaskExecution → TaskExecution
latest_of current [] = current
latest_of current (x ∷ xs) = latest_of (later_of current x) xs

abbrev pub latest_execution : List TaskExecution → Option TaskExecution
latest_execution [] = none
latest_execution (x ∷ xs) = some (latest_of x xs)

-- The entry that is left, where the map has one for the task already.
abbrev continued : Option TaskExecution → List TaskExecution → Option TaskExecution
continued none xs = latest_execution xs
continued (some current) xs = some (latest_of current xs)

-- What an execution does to the entry of its task.
abbrev noted : TaskExecution → Option TaskExecution → Option TaskExecution
noted x o = if takes_entry x o then some x else o

noted-some : (x current : TaskExecution) → noted x (some current) ≡ some (later_of current x)
noted-some x current = elim (Bool-cases (finished_later x current)) [
  | inl t ↦ rw t refl
  | inr f ↦ rw f refl
]

get-note_execution :
    (name : String) (x : TaskExecution) (m : Latest)
    → get name (note_execution x m) ≡ (if x.task == name then noted x (get name m) else get name m)
unfolding note_execution
get-note_execution name x m = elim (key_cases x.task name) [
  | inl (t, same) ↦
      let entry = ap (λ z. takes_entry x (get z m)) same in
      elim (Bool-cases (takes_entry x (get name m))) [
        | inl replaced ↦ rw (entry, replaced, t) (get-insert x.task name x m ∙ rw t refl)
        | inr kept ↦ rw (entry, kept, t) refl
      ]
  | inr (f, _) ↦ elim (Bool-cases (takes_entry x (get x.task m))) [
    | inl replaced ↦ rw (replaced, f) (get-insert x.task name x m ∙ rw f refl)
    | inr kept ↦ rw (kept, f) refl
  ]
]

continued-noted :
    (x : TaskExecution) (o : Option TaskExecution) (xs : List TaskExecution)
    → continued (noted x o) xs ≡ continued o (x ∷ xs)
continued-noted x none xs = refl
continued-noted x (some current) xs = rw (noted-some x current) refl

continued-nil : (o : Option TaskExecution) → o ≡ continued o []
continued-nil none = refl
continued-nil (some current) = refl

get-latest_from :
    (name : String) (xs : List TaskExecution) (m : Latest)
    → get name (latest_from xs m) ≡ continued (get name m) (of_task name xs)
unfolding latest_from
get-latest_from name [] m = continued-nil (get name m)
get-latest_from name (x ∷ xs) m =
    let step = get-latest_from name xs (note_execution x m) in
    let here = get-note_execution name x m in
    elim (Bool-cases (x.task == name)) [
      | inl t ↦ rw t (step ∙ rw (here, t) (continued-noted x (get name m) (of_task name xs)))
      | inr f ↦ rw f (step ∙ rw (here, f) refl)
    ]

abbrev Chosen : TaskExecution → List TaskExecution → TaskExecution → Type 0
Chosen current xs last = IsLatest last (current ∷ xs) × (¬ Sooner last current)

latest_of-IsLatest :
    (current : TaskExecution) (xs : List TaskExecution) → Chosen current xs (latest_of current xs)
latest_of-IsLatest current [] = (inl (refl, tt), Sooner-irrefl current)
latest_of-IsLatest current (x ∷ xs) = elim (finished_later_cases x current) [
  | inl (t, later) ↦
      let (found, behind) = latest_of-IsLatest x xs in
      let last : ¬ Sooner (latest_of x xs) current =
        λ h. behind (Sooner-before (latest_of x xs) current x h later) in
      let kept : later_of current x ≡ x = rw t refl in
      subst (λ w. Chosen current (x ∷ xs) (latest_of w xs)) (sym kept) (inr (last, found), last)
  | inr (f, sooner) ↦
      let (found, ahead) = latest_of-IsLatest current xs in
      let last = latest_of current xs in
      let past : Sooner x last = Sooner-before x current last sooner ahead in
      let not_last : ¬ Sooner last x = λ h. Sooner-irrefl x (Sooner-trans x last x past h) in
      let kept : later_of current x ≡ current = rw f refl in
      subst (λ w. Chosen current (x ∷ xs) (latest_of w xs)) (sym kept)
        (placed x last found past not_last ahead, ahead)
]
  where
    placed :
        (x last : TaskExecution)
        → IsLatest last (current ∷ xs)
        → Sooner x last
        → ¬ Sooner last x
        → ¬ Sooner last current
        → IsLatest last (current ∷ x ∷ xs)
    placed x last (inl (same, rest)) past not_last ahead = inl (same, (past, rest))
    placed x last (inr (_, rest)) past not_last ahead = inr (ahead, inr (not_last, rest))

latest_execution-IsLatest :
    (xs : List TaskExecution)
    → ((xs ≡ []) × (latest_execution xs ≡ none))
      ⊎ ((x : TaskExecution) × (latest_execution xs ≡ some x) × IsLatest x xs)
latest_execution-IsLatest [] = inl (refl, refl)
latest_execution-IsLatest (x ∷ xs) = inr (latest_of x xs, refl, (latest_of-IsLatest x xs).0)

-- A task without an execution in the history has no entry. The entry of any other task is one of its
-- executions: those in front of it in the history are not later, and those behind it are sooner, by the
-- time of their end and, where these are equal, by the time of their start.
pub latest_by_task-IsLatest :
    (history : TaskHistory) (name : String)
    → ((of_task name history ≡ []) × (get name (latest_by_task history) ≡ none))
      ⊎ ((x : TaskExecution) × (get name (latest_by_task history) ≡ some x)
          × IsLatest x (of_task name history))
unfolding latest_by_task
latest_by_task-IsLatest history name =
    let same = get-latest_from name history [] in
    elim (latest_execution-IsLatest (of_task name history)) [
      | inl (nothing, e) ↦ inl (nothing, same ∙ e)
      | inr (x, e, found) ↦ inr (x, same ∙ e, found)
    ]
