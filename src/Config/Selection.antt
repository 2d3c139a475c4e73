-- ===== src/Config/Selection.antt =====
-- src/config/plan.rs: the plan of a stack, and `filter_to`, the part of it that some services need.
pub mod Closure
mod Filtered
mod Kept
pub mod Plans
use devstack.Common.{
  ℕ, zero, suc, ◌+◌, String, Bool, true, false, none, some, List, [], ◌∷◌, ◌++◌, if◌then◌else◌,
  str_key, nat_key, length, filter, mem,
}
use devstack.Common.BTreeMap.{get, retain}
use devstack.Common.Outcome.{ok, err, out_of_fuel, ◌>>=◌}
use devstack.Config.Model.{ConfigFile, StackPlan, stack_not_found, unknown_service}
use devstack.Config.Plan.{Services, PlanResult, topo_sort}

-- `while let Some(name) = queue.pop_front()`: the names needed by those of the queue.
unfoldable pub close : ℕ → Services → List String → List String → PlanResult (List String)
close fuel services [] needed = ok needed
close zero services (name ∷ queue) needed = out_of_fuel
close (suc fuel) services (name ∷ queue) needed = elim (get name services) [
  | none ↦ err unknown_service
  | some service ↦
      let old = mem name needed in
      close fuel services (if old then queue else queue ++ service.deps)
        (if old then needed else name ∷ needed)
]

-- Every dependency of the stack: no more names are queued for the services that are found.
unfoldable pub dep_total : Services → ℕ
dep_total [] = 0
dep_total ((name, service) ∷ rest) = length service.deps + dep_total rest

-- The names that `filter_to` keeps.
unfoldable pub needed_of : Services → List String → PlanResult (List String)
needed_of services targets = close (length targets + dep_total services) services targets []

unfoldable pub filter_to : StackPlan → List String → PlanResult StackPlan
filter_to plan targets = do
  needed ← needed_of plan.services targets
  ok (record {
    name = plan.name;
    services = retain (λ name _. mem name needed) plan.services;
    order = filter (λ name. mem name needed) plan.order;
  })

unfoldable pub stack_plan : ConfigFile → String → PlanResult StackPlan
stack_plan config name = elim (get name config.stacks) [
  | none ↦ err stack_not_found
  | some stack ↦ do
    order ← topo_sort stack.services
    ok (record { name = name; services = stack.services; order = order })
]

abbrev pub is_empty {ℓ} : {A : Type ℓ} → List A → Bool
is_empty [] = true
is_empty (x ∷ xs) = false

unfoldable pub stack_plan_filtered : ConfigFile → String → List String → PlanResult StackPlan
stack_plan_filtered config name only = do
  plan ← stack_plan config name
  if is_empty only then ok plan else filter_to plan only

unfoldable pub globals_map : ConfigFile → Services
globals_map config = elim config.globals [ none ↦ [] | some globals ↦ globals ]
