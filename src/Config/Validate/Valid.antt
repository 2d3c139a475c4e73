-- ===== src/Config/Validate/Valid.antt =====
-- src/config/validate.rs: what a configuration that passes the checks has.
use devstack.Config.Validate.Checks.{
  IsName, IsValidService, guards_ok, names-IsName, not-false, validate_service-IsValid,
}
use devstack.Common.{
  String, ◌≡◌, refl, ◌⊎◌, inl, inr, true, false, not, Option, none, some, List, [], ◌∷◌, str_key,
  nat_key, Bool-cases, Option-cases, All,
}
use devstack.Common.BTreeMap.{BTreeMap, get, contains_key, get_of_contains_key, All-get}
use devstack.Common.Outcome.{ok, err, ◌>>=◌, for_each, bind_ok, seq_ok, fail_if_ok, for_each_ok}
use devstack.Config.Model.{ServiceConfig, StackConfig, ConfigFile, ConfigError, StackPlan}
use devstack.Config.Plan.{topo_sort}
use devstack.Config.Plan.Order.{IsOrdered}
use devstack.Config.Plan.Sorted.{topo_sort-IsOrdered}
use devstack.Config.Selection.{stack_plan}
use devstack.Config.Validate.{
  Tasks, globals_of, names_of, is_empty_list, missing_default, validate, validate_dep,
  validate_global, validate_stack, validate_stack_service,
}

pub record IsValidStack (tasks : Option Tasks) (stack : StackConfig) : Type 0 where
  pub services_valid :
      (name : String) (svc : ServiceConfig)
      → get name stack.services ≡ some svc
      → IsValidService true tasks name svc
        × All (λ dep. contains_key dep stack.services ≡ true) svc.deps
  pub sorted : (order : List String) × (topo_sort stack.services ≡ ok order)

pub record IsValidConfig (config : ConfigFile) : Type 0 where
  pub default_known :
      (stack : String) → config.default_stack ≡ some stack → contains_key stack config.stacks ≡ true
  pub stacks_valid :
      (name : String) (stack : StackConfig)
      → get name config.stacks ≡ some stack
      → IsValidStack config.tasks stack
  pub task_names_valid : All IsName (names_of config.tasks)
  pub globals_valid :
      (name : String) (svc : ServiceConfig)
      → get name (globals_of config.globals) ≡ some svc
      → IsValidService false config.tasks name svc × (svc.deps ≡ [])

stack-IsValid :
    (tasks : Option Tasks) (name : String) (stack : StackConfig)
    → validate_stack tasks (name, stack) ≡ ok tt
    → IsValidStack tasks stack
unfolding validate_stack validate_stack_service validate_dep
stack-IsValid tasks name stack h =
    let (u, checked, sorting) =
      bind_ok (for_each (validate_stack_service tasks stack.services) stack.services)
        (λ _. topo_sort stack.services >>= λ order. ok tt) h in
    let (order, sorted, _) = bind_ok (topo_sort stack.services) (λ order. ok tt) sorting in
    let each = for_each_ok (validate_stack_service tasks stack.services) stack.services checked in
    record {
      services_valid = λ svc_name svc found.
          let both = seq_ok _ _ (All-get _ svc_name svc stack.services each found) in
          (
            validate_service-IsValid true tasks svc_name svc both.0,
            guards_ok (λ dep. contains_key dep stack.services) ConfigError.unknown_dep svc.deps
                both.1,
          );
      sorted = (order, sorted);
    }

default-known :
    (config : ConfigFile) (stack : String)
    → missing_default config ≡ false
    → config.default_stack ≡ some stack
    → contains_key stack config.stacks ≡ true
default-known config stack h e = not-false (contains_key stack config.stacks) (rw e at h)

no-deps : (deps : List String) → not (is_empty_list deps) ≡ false → deps ≡ []
no-deps [] h = refl
no-deps (dep ∷ deps) h = cc

not_contains_of_get :
    (name : String) (stacks : BTreeMap String StackConfig)
    → get name stacks ≡ none
    → contains_key name stacks ≡ false
not_contains_of_get name stacks lost = elim (Bool-cases (contains_key name stacks)) [
  | inl t ↦ let (stack, found) = get_of_contains_key name stacks t in cc (lost, found)
  | inr f ↦ f
]

-- A configuration that passes the checks is valid: the default stack exists; every service of a
-- stack and every global service has a name that can be a file's name, a port from 1024 to 65535 if
-- it fixes one and the text "none" if it gives a text, known tasks before and after its start, one
-- readiness check, a port and the scheme http if it asks for the capture of its requests, which no
-- global service does, and patterns to watch if it restarts on changes; every dependency is a service of its stack, no global
-- service has dependencies, and every stack can be sorted.
pub validate-IsValidConfig : (config : ConfigFile) → validate config ≡ ok tt → IsValidConfig config
unfolding validate validate_global
validate-IsValidConfig config h =
    let (h₂, globals) = seq_ok _ _ h in
    let (h₁, tasks) = seq_ok _ _ h₂ in
    let (default, stacks) = seq_ok _ _ h₁ in
    record {
      default_known = λ stack e.
          default-known config stack (fail_if_ok _ ConfigError.default_stack_not_found default) e;
      stacks_valid = λ name stack found. stack-IsValid config.tasks name stack (
          All-get _ name stack config.stacks
            (for_each_ok (validate_stack config.tasks) config.stacks stacks) found);
      task_names_valid = names-IsName (names_of config.tasks) tasks;
      globals_valid = λ name svc found.
          let both = seq_ok _ _ (
            All-get _ name svc (globals_of config.globals)
              (for_each_ok (validate_global config.tasks) (globals_of config.globals) globals)
              found) in
          (
            validate_service-IsValid false config.tasks name svc both.0,
            no-deps svc.deps (fail_if_ok _ ConfigError.global_with_deps both.1),
          );
    }

-- Once a configuration has passed the checks, every stack of it has a plan, in which every service
-- stands behind its dependencies; a name that is no stack is the only error.
pub stack_plan_of_validate :
    (config : ConfigFile) (name : String)
    → validate config ≡ ok tt
    → ((stack : StackConfig) × (plan : StackPlan) × (get name config.stacks ≡ some stack)
        × (stack_plan config name ≡ ok plan)
        × (plan.services ≡ stack.services)
        × IsOrdered stack.services [] plan.order)
      ⊎ ((contains_key name config.stacks ≡ false)
          × (stack_plan config name ≡ err ConfigError.stack_not_found))
unfolding stack_plan
stack_plan_of_validate config name h = elim (Option-cases (get name config.stacks)) [
  | inl lost ↦ inr (not_contains_of_get name config.stacks lost, rw (lost, stack_plan) refl)
  | inr (stack, found) ↦
      let (order, sorted) =
        ((validate-IsValidConfig config h).stacks_valid name stack found).sorted in
      inl (
        stack,
        record { name = name; services = stack.services; order = order },
        found,
        rw (found, stack_plan) (rw sorted refl),
        refl,
        topo_sort-IsOrdered stack.services order sorted,
      )
]
