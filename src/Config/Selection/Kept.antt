-- ===== src/Config/Selection/Kept.antt =====
-- The services that `filter_to` of src/config/plan.rs keeps, and their order.
use devstack.Common.{
  String, ◌≡◌, refl, sym, ◌∙◌, subst, inl, inr, Bool, true, List, [], ◌∷◌, ◌++◌, arith,
  if◌then◌else◌, str_key, nat_key, Bool-cases, key_cases, beq_refl, filter, count, mem,
}
use devstack.Common.BTreeMap.{get, keys, retain}
use devstack.Common.Outcome.{ok}
use devstack.Config.Model.{StackPlan}
use devstack.Config.Plan.{Services}
use devstack.Config.Plan.Order.{IsOrdered, DependsOn}
use devstack.Config.Selection.{needed_of, filter_to}
use devstack.Config.Selection.Filtered.{needed_of_total, contains_key-retain}

pub get-retain :
    (p : String → Bool) (services : Services) (y : String)
    → p y ≡ true
    → get y (retain (λ name _. p name) services) ≡ get y services
unfolding retain
get-retain p [] y h = refl
get-retain p ((n, s) ∷ rest) y h = elim (key_cases n y) [
  | inl (t, e) ↦
      let here : p n ≡ true = subst (λ z. p z ≡ true) (sym e) h in ground (arith, t, here)
  | inr (f, _) ↦ ground (arith, f, get-retain p rest y h)
]

pub count-filter :
    (p : String → Bool) (names : List String) (y : String)
    → count y (filter p names) ≡ (if p y then count y names else 0)
count-filter p [] y = ground arith
count-filter p (x ∷ names) y = elim (key_cases x y) [
  | inl (t, e) ↦
      subst (λ z. count z (filter p (x ∷ names)) ≡ (if p z then count z (x ∷ names) else 0)) e
        (ground (arith, beq_refl x, count-filter p names x))
  | inr (f, _) ↦ ground (arith, f, count-filter p names y)
]

pub count-keys-retain :
    (p : String → Bool) (services : Services) (y : String)
    → count y (keys (retain (λ name _. p name) services))
      ≡ (if p y then count y (keys services) else 0)
unfolding retain
count-keys-retain p [] y = ground arith
count-keys-retain p ((n, s) ∷ rest) y = elim (key_cases n y) [
  | inl (t, e) ↦
      subst
        (λ z.
          count z (keys (retain (λ name _. p name) ((n, s) ∷ rest)))
          ≡ (if p z then count z (keys ((n, s) ∷ rest)) else 0))
        e (ground (arith, beq_refl n, count-keys-retain p rest n))
  | inr (f, _) ↦ ground (arith, f, count-keys-retain p rest y)
]

-- The plan that `filter_to` returns, given the names that it found.
abbrev pub kept : StackPlan → List String → StackPlan
kept plan needed = record {
  name = plan.name;
  services = retain (λ name _. mem name needed) plan.services;
  order = filter (λ name. mem name needed) plan.order;
}

pub filter_to_inv :
    (plan plan' : StackPlan) (targets : List String)
    → filter_to plan targets ≡ ok plan'
    → (needed : List String) × (needed_of plan.services targets ≡ ok needed)
      × (kept plan needed ≡ plan')
unfolding filter_to
filter_to_inv plan plan' targets e = elim (needed_of_total plan.services targets) [
  | inl (needed, n) ↦ (needed, n, cc (rw (n, filter_to) at e))
  | inr n ↦ cc (rw (n, filter_to) at e)
]

filter-snoc :
    (p : String → Bool) (names : List String) (x : String)
    → filter p (names ++ x ∷ []) ≡ (if p x then filter p names ++ x ∷ [] else filter p names)
filter-snoc p [] x = ground arith
filter-snoc p (n ∷ names) x = ground (arith, filter-snoc p names x)

mem-filter :
    (p : String → Bool) (names : List String) (y : String)
    → p y ≡ true
    → mem y (filter p names) ≡ mem y names
mem-filter p [] y h = refl
mem-filter p (n ∷ names) y h = elim (key_cases n y) [
  | inl (t, e) ↦
      let here : p n ≡ true = subst (λ z. p z ≡ true) (sym e) h in ground (arith, t, here)
  | inr (f, _) ↦ ground (arith, f, mem-filter p names y h)
]

module _ (services : Services) (needed : List String) where
  abbrev is_kept : String → Bool
  is_kept name = mem name needed

  abbrev kept_services : Services
  kept_services = retain (λ name _. is_kept name) services

  DependsOn-kept :
      (x dep : String)
      → is_kept x ≡ true
      → DependsOn kept_services x dep
      → DependsOn services x dep × (is_kept dep ≡ true)
  DependsOn-kept x dep k on = (
    record {
      service = on.service;
      found = sym (get-retain is_kept services x k) ∙ on.found;
      listed = on.listed;
      present = ground (arith, contains_key-retain is_kept services dep, on.present);
    },
    ground (arith, contains_key-retain is_kept services dep, on.present),
  )

  -- What is kept of an order is an order of what is kept.
  pub IsOrdered-filter :
      (seen names : List String)
      → IsOrdered services seen names
      → IsOrdered kept_services (filter is_kept seen) (filter is_kept names)
  IsOrdered-filter seen [] o = tt
  IsOrdered-filter seen (x ∷ names) o =
      let rest : IsOrdered kept_services (filter is_kept (seen ++ x ∷ [])) (filter is_kept names) =
        IsOrdered-filter (seen ++ x ∷ []) names o.1 in
      elim (Bool-cases (is_kept x)) [
        | inl t ↦
            let rest' : IsOrdered kept_services (filter is_kept seen ++ x ∷ [])
                (filter is_kept names) =
              subst (λ l. IsOrdered kept_services l (filter is_kept names))
                (filter-snoc is_kept seen x ∙ rw t) rest in
            rw t (
              (λ dep on.
                  let (on', k) = DependsOn-kept x dep t on in
                  mem-filter is_kept seen dep k ∙ o.0 dep on'),
              rest',
            )
        | inr f ↦ rw f (
            subst (λ l. IsOrdered kept_services l (filter is_kept names))
              (filter-snoc is_kept seen x ∙ rw f) rest)
      ]

-- The kept services are the least set that holds the targets and all dependencies: the targets are
-- kept, the kept set is closed under dependencies and lies in every closed set that holds the
-- targets, and each kept service is unchanged.
