-- ===== src/Tasks/Sooner.antt =====
-- src/services/tasks/history.rs: the order of executions by their ends and, where these are equal, by
-- their starts.

use devstack.Common.{
  ◌≡◌, refl, sym, ◌∙◌, subst, ◌≢◌, ◌⊎◌, inl, inr, Bool, true, false, str_key, nat_key, Bool-cases,
  key_cases,
}
use devstack.Common.Order.{
  is_before, is_before_irrefl, is_before_trans, is_before_connex, str_ltb_eq,
}
use devstack.Tasks.{TaskExecution, finished_later}

-- The first execution finished before the second, or at the same time and started before it.
abbrev pub Sooner : TaskExecution → TaskExecution → Type 0
Sooner x y =
    (is_before x.finished_at y.finished_at ≡ true)
    ⊎ ((x.finished_at ≡ y.finished_at) × (is_before x.started_at y.started_at ≡ true))

pub Sooner-irrefl : (x : TaskExecution) → ¬ Sooner x x
Sooner-irrefl x (inl h) = cc (h, is_before_irrefl x.finished_at)
Sooner-irrefl x (inr (e, h)) = cc (h, is_before_irrefl x.started_at)

pub Sooner-trans : (x y z : TaskExecution) → Sooner x y → Sooner y z → Sooner x z
Sooner-trans x y z (inl h) (inl k) =
    inl (is_before_trans x.finished_at y.finished_at z.finished_at h k)
Sooner-trans x y z (inl h) (inr (e, k)) = inl (subst (λ t. is_before x.finished_at t ≡ true) e h)
Sooner-trans x y z (inr (e, h)) (inl k) =
    inl (subst (λ t. is_before t z.finished_at ≡ true) (sym e) k)
Sooner-trans x y z (inr (e, h)) (inr (f, k)) =
    inr (e ∙ f, is_before_trans x.started_at y.started_at z.started_at h k)

-- Neither sooner than the other: the same times.
same_times :
    (x y : TaskExecution)
    → ¬ Sooner x y
    → ¬ Sooner y x
    → (x.finished_at ≡ y.finished_at) × (x.started_at ≡ y.started_at)
same_times x y n m =
    let no : (b : Bool) → (b ≢ true) → b ≡ false =
      λ b h. elim (Bool-cases b) [ inl t ↦ absurd (h t) | inr f ↦ f ] in
    let ends : x.finished_at ≡ y.finished_at =
      is_before_connex x.finished_at y.finished_at (no _ (λ h. n (inl h)))
        (no _ (λ h. m (inl h))) in
    (
      ends,
      is_before_connex x.started_at y.started_at (no _ (λ h. n (inr (ends, h))))
          (no _ (λ h. m (inr (sym ends, h)))),
    )

Sooner-decides : (x y : TaskExecution) → Sooner x y ⊎ (¬ Sooner x y)
Sooner-decides x y = elim (Bool-cases (is_before x.finished_at y.finished_at)) [
  | inl t ↦ inl (inl t)
  | inr f ↦ elim (key_cases x.finished_at y.finished_at) [
    | inr (_, ne) ↦ inr (elim [ inl h ↦ cc (h, f) | inr (e, h) ↦ absurd (ne e) ])
    | inl (_, e) ↦ elim (Bool-cases (is_before x.started_at y.started_at)) [
      | inl t ↦ inl (inr (e, t))
      | inr g ↦ inr (elim [ inl h ↦ cc (h, f) | inr (_, h) ↦ cc (h, g) ])
    ]
  ]
]

-- What is sooner than a second is sooner than all that are not sooner than the second.
pub Sooner-before : (x y z : TaskExecution) → Sooner x y → ¬ Sooner z y → Sooner x z
Sooner-before x y z h n = elim (Sooner-decides y z) [
  | inl later ↦ Sooner-trans x y z h later
  | inr m ↦ moved h (same_times y z m n)
]
  where
    moved :
        Sooner x y → (y.finished_at ≡ z.finished_at) × (y.started_at ≡ z.started_at) → Sooner x z
    moved (inl k) (ends, _) = inl (subst (λ t. is_before x.finished_at t ≡ true) ends k)
    moved (inr (e, k)) (ends, starts) =
        inr (e ∙ ends, subst (λ t. is_before x.started_at t ≡ true) starts k)

-- The test of the source answers no exactly when the first execution is the sooner one.
pub finished_later_cases :
    (x current : TaskExecution)
    → ((finished_later x current ≡ true) × (¬ Sooner x current))
      ⊎ ((finished_later x current ≡ false) × Sooner x current)
finished_later_cases x current =
    let ends = str_ltb_eq current.finished_at x.finished_at in
    let starts = str_ltb_eq x.started_at current.started_at in
    elim (Bool-cases (is_before current.finished_at x.finished_at)) [
      | inl t ↦ inl (rw (ends, t) refl, λ h. Sooner-irrefl x (Sooner-trans x current x h (inl t)))
      | inr f ↦ elim (key_cases x.finished_at current.finished_at) [
        | inr (other, ne) ↦ inr (
          rw (ends, f, other) refl,
          elim (Bool-cases (is_before x.finished_at current.finished_at)) [
            | inl t ↦ inl t
            | inr g ↦ absurd (ne (is_before_connex x.finished_at current.finished_at g f))
          ],
        )
        | inl (same, e) ↦ elim (Bool-cases (is_before x.started_at current.started_at)) [
          | inl t ↦ inr (rw (ends, f, same, starts, t) refl, inr (e, t))
          | inr g ↦ inl (
            rw (ends, f, same, starts, g) refl,
            elim [
              | inl h ↦ cc (
                h,
                subst (λ t. is_before x.finished_at t ≡ false) e (is_before_irrefl x.finished_at),
              )
              | inr (_, h) ↦ cc (h, g)
            ],
          )
        ]
      ]
    ]
