-- ===== src/Config/Selection/Plans.antt =====
-- What `filter_to` and `stack_plan_filtered` of src/config/plan.rs promise.
use devstack.Config.Selection.Kept.{
  get-retain, count-filter, count-keys-retain, kept, filter_to_inv, IsOrdered-filter,
}
use devstack.Common.{
  String, ◌≡◌, sym, ap, ◌∙◌, subst, ◌↔◌, inl, inr, Bool, true, List, [], if◌then◌else◌, str_key,
  nat_key, Bool-cases, Option-cases, All, count, mem,
}
use devstack.Common.BTreeMap.{get, contains_key, keys}
use mathlib.Core.Path.{fun_ext}
use devstack.Common.Outcome.{ok, err, bind_ok}
use devstack.Config.Model.{StackPlan, ConfigFile, unknown_service}
use devstack.Config.Selection.Closure.{IsClosed, All-mem, close-ne-err}
use devstack.Config.Plan.Sorted.{topo_sort-count, topo_sort-IsOrdered}
use devstack.Config.Plan.{Services, topo_sort}
use devstack.Config.Plan.Order.{IsOrdered}
use devstack.Config.Selection.{needed_of, filter_to, stack_plan_filtered, is_empty, stack_plan}
use devstack.Config.Selection.Filtered.{
  needed_of_total, All-get, contains_key-retain, needed_of-IsClosed, needed_of-least,
}

pub record IsLeastPart (services : Services) (targets : List String) (part : Services)
    : Type 1 where
  pub has_targets : (t : String) → mem t targets ≡ true → contains_key t part ≡ true
  pub closed : IsClosed services (λ n. contains_key n part ≡ true)
  pub least :
      (P : String → Type 0)
      → IsClosed services P
      → All P targets
      → (n : String) → contains_key n part ≡ true
      → P n
  pub unchanged : (n : String) → contains_key n part ≡ true → get n part ≡ get n services

module _ (plan plan' : StackPlan) (targets : List String)
    (filtered : filter_to plan targets ≡ ok plan') where
  abbrev Part : StackPlan → Type 1
  Part p = IsLeastPart plan.services targets p.services

  -- `filter_to` keeps the least part of the stack that its targets need.
  pub filter_to-IsLeastPart : IsLeastPart plan.services targets plan'.services
  filter_to-IsLeastPart =
      let (needed, n, same) = filter_to_inv plan plan' targets filtered in
      let (closed, has) = needed_of-IsClosed plan.services targets needed n in
      let inside : (y : String) → contains_key y (kept plan needed).services ≡ mem y needed = λ y.
        contains_key-retain (λ z. mem z needed) plan.services y
        ∙ elim (Bool-cases (mem y needed)) [ inl t ↦ rw t (closed.present y t) | inr f ↦ rw f ] in
      subst Part same (record {
        has_targets = λ t m. inside t ∙ has t m;
        closed = record {
          present = λ y k. closed.present y (sym (inside y) ∙ k);
          deps = λ y s k g.
              rw (fun_ext (λ z. ap (λ b. b ≡ true) (inside z)))
                (closed.deps y s (sym (inside y) ∙ k) g);
        };
        least = λ P c t y k.
            All-get P needed (needed_of-least plan.services targets needed n P c t) y
              (sym (inside y) ∙ k);
        unchanged = λ y k. get-retain (λ z. mem z needed) plan.services y (sym (inside y) ∙ k);
      })

  -- It keeps the order: what was listed once, behind its dependencies, is so still.
  pub filter_to-IsOrdered :
      IsOrdered plan.services [] plan.order
      → ((y : String) → count y plan.order ≡ count y (keys plan.services))
      → IsOrdered plan'.services [] plan'.order
        × ((y : String) → count y plan'.order ≡ count y (keys plan'.services))
  filter_to-IsOrdered o c =
      let (needed, n, same) = filter_to_inv plan plan' targets filtered in
      subst
        (λ (p : StackPlan).
          IsOrdered p.services [] p.order
          × ((y : String) → count y p.order ≡ count y (keys p.services)))
        same
        (
          IsOrdered-filter plan.services needed [] plan.order o,
          λ y.
              count-filter (λ z. mem z needed) plan.order y
              ∙ ap (λ m. if mem y needed then m else 0) (c y)
              ∙ sym (count-keys-retain (λ z. mem z needed) plan.services y),
        )

-- `filter_to` fails on an unknown service exactly when no closed set of services of the stack holds
-- its targets: when one of them, or a dependency that they need, is not in the stack.
pub filter_to_unknown_iff :
    (plan : StackPlan) (targets : List String)
    → (filter_to plan targets ≡ err unknown_service)
      ↔ ¬ (
          (P : String → Bool) × IsClosed plan.services (λ n. P n ≡ true)
          × All (λ n. P n ≡ true) targets)
unfolding filter_to needed_of
filter_to_unknown_iff plan targets = (
  (λ e (P, closed, t). elim (needed_of_total plan.services targets) [
    | inl (needed, n) ↦ cc (rw (n, filter_to) at e)
    | inr n ↦ close-ne-err plan.services (λ n. P n ≡ true) closed _ targets [] unknown_service t n
  ]),
  (λ no_set. elim (needed_of_total plan.services targets) [
    | inl (needed, n) ↦
        let (closed, has) = needed_of-IsClosed plan.services targets needed n in
        absurd (no_set ((λ z. mem z needed), closed, All-mem plan.services needed targets has))
    | inr n ↦ rw (n, filter_to)
  ]),
)

stack_plan-IsOrdered :
    (config : ConfigFile) (name : String) (plan : StackPlan)
    → stack_plan config name ≡ ok plan
    → IsOrdered plan.services [] plan.order
      × ((y : String) → count y plan.order ≡ count y (keys plan.services))
unfolding stack_plan
stack_plan-IsOrdered config name plan e = elim (Option-cases (get name config.stacks)) [
  | inl n ↦ cc (rw (n, stack_plan) at e)
  | inr (stack, s) ↦
      let (order, sorted, last) =
        bind_ok (topo_sort stack.services)
          (λ order. ok (record { name = name; services = stack.services; order = order }))
          (rw (s, stack_plan) at e) in
      subst
        (λ (p : StackPlan).
          IsOrdered p.services [] p.order
          × ((y : String) → count y p.order ≡ count y (keys p.services)))
        {x = record { name = name; services = stack.services; order = order }} {y = plan} (cc last)
        (
          topo_sort-IsOrdered stack.services order sorted,
          topo_sort-count stack.services order sorted,
        )
]

-- The plan of a stack, whole or for some of its services, lists each of its services once for each
-- entry of its map and nothing else, and every service behind all of its dependencies.
pub stack_plan_filtered-IsOrdered :
    (config : ConfigFile) (name : String) (only : List String) (plan : StackPlan)
    → stack_plan_filtered config name only ≡ ok plan
    → IsOrdered plan.services [] plan.order
      × ((y : String) → count y plan.order ≡ count y (keys plan.services))
unfolding stack_plan_filtered
stack_plan_filtered-IsOrdered config name only plan e =
    let (whole, w, last) =
      bind_ok (stack_plan config name)
        (λ plan. if is_empty only then ok plan else filter_to plan only) e in
    let sorted = stack_plan-IsOrdered config name whole w in
    elim (Bool-cases (is_empty only)) [
      | inl t ↦
          subst
            (λ (p : StackPlan).
              IsOrdered p.services [] p.order
              × ((y : String) → count y p.order ≡ count y (keys p.services)))
            {x = whole} {y = plan} (cc (rw t at last)) sorted
      | inr f ↦ filter_to-IsOrdered whole plan only (rw f at last) sorted.0 sorted.1
    ]
