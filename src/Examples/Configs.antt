-- ===== src/Examples/Configs.antt =====
-- A configuration with a stack of three services: `web` depends on `api` and `db`, and `api` on `db`.
use devstack.Common.{
  ℕ, String, ◌≡◌, refl, ◌↔◌, ◌⊎◌, Bool, true, false, none, some, List, [], ◌∷◌, str_key, nat_key,
  All, count,
}
use devstack.Common.BTreeMap.{get, contains_key, insert, remove, keys, retain, IsUnique}
use devstack.Common.Outcome.{ok, err}
use devstack.Config.Model.{
  ServiceConfig, StackPlan, ConfigFile, ConfigError, StackConfig, circular_dependency,
  unknown_service,
}
use devstack.Config.Plan.{
  Services, topo_sort, add_dep, add_deps, build_graph, count_dep, dependents, init_graph, place,
  ready, release,
}
use devstack.Config.Plan.Order.{IsOrdered}
use devstack.Config.Plan.Sorted.{
  topo_sort-IsOrdered, topo_sort-count, IsRanked, position, topo_sort-IsRanked,
  topo_sort_circular_iff, topo_sort_of_IsRanked, topo_sort_total,
}
use devstack.Config.Selection.{
  filter_to, close, dep_total, needed_of, stack_plan, stack_plan_filtered,
}
use devstack.Config.Selection.Plans.{
  IsLeastPart, filter_to-IsLeastPart, filter_to_unknown_iff, stack_plan_filtered-IsOrdered,
}
use devstack.Config.Names.{
  validate_name_for_path_component, all_chars, is_ascii_alphanumeric, is_name_char,
}
use devstack.Config.Service.{
  scheme, capture_api_explicitly_enabled, capture_api_requested, has_service_port, readiness_kind,
}
use devstack.Config.Selection.Closure.{IsClosed}
use devstack.Config.Validate.{
  validate, has_task, validate_dep, validate_global, validate_service,
  validate_service_auto_restart, validate_service_capture, validate_service_init_tasks,
  validate_service_port, validate_service_post_init_tasks, validate_service_readiness,
  validate_service_tasks, validate_stack, validate_stack_service,
}
use devstack.Config.Validate.Valid.{IsValidConfig, validate-IsValidConfig, stack_plan_of_validate}

abbrev pub service : List String → ServiceConfig
service deps = record {
  cmd = "run";
  deps = deps;
  scheme = none;
  port_env = none;
  port = none;
  capture_api = none;
  capture_api_body_limit = none;
  capture_api_ignore = [];
  readiness = none;
  env_file = none;
  env = [];
  cwd = none;
  watch = [];
  ignore = [];
  auto_restart = false;
  init = none;
  post_init = none;
  tasks = none;
}

abbrev pub demo : Services
demo = ("api", service ("db" ∷ [])) ∷ ("db", service []) ∷ ("web", service ("api" ∷ "db" ∷ [])) ∷ []

abbrev demo_order : List String
demo_order = "db" ∷ "api" ∷ "web" ∷ []

demo_sorted : topo_sort demo ≡ ok demo_order
unfolding topo_sort place init_graph build_graph add_deps add_dep count_dep ready release dependents
    insert remove
demo_sorted = refl

topo_sort-IsOrdered_example : IsOrdered demo [] demo_order
topo_sort-IsOrdered_example = topo_sort-IsOrdered demo demo_order demo_sorted

demo_counts : (y : String) → count y demo_order ≡ count y (keys demo)
demo_counts = topo_sort-count demo demo_order demo_sorted

topo_sort-count_example : count "api" demo_order ≡ count "api" (keys demo)
topo_sort-count_example = topo_sort-count demo demo_order demo_sorted "api"

demo-IsUnique : IsUnique demo
demo-IsUnique = (refl, (refl, (refl, tt)))

topo_sort_of_IsRanked_example : (order : List String) × (topo_sort demo ≡ ok order)
topo_sort_of_IsRanked_example =
    topo_sort_of_IsRanked demo (λ y. position y demo_order) demo-IsUnique
      (topo_sort-IsRanked demo demo_order demo_sorted)

topo_sort_total_example :
    ((order : List String) × (topo_sort demo ≡ ok order))
    ⊎ (topo_sort demo ≡ err circular_dependency)
topo_sort_total_example = topo_sort_total demo

abbrev cycle : Services
cycle = ("api", service ("web" ∷ [])) ∷ ("web", service ("api" ∷ [])) ∷ []

cycle-IsUnique : IsUnique cycle
cycle-IsUnique = (refl, (refl, tt))

topo_sort_circular_iff_example :
    (topo_sort cycle ≡ err circular_dependency) ↔ ¬ ((rank : String → ℕ) × IsRanked rank cycle)
topo_sort_circular_iff_example = topo_sort_circular_iff cycle cycle-IsUnique

abbrev plan : StackPlan
plan = record { name = "dev"; services = demo; order = demo_order }

abbrev api_plan : StackPlan
api_plan = record {
  name = "dev";
  services = ("api", service ("db" ∷ [])) ∷ ("db", service []) ∷ [];
  order = "db" ∷ "api" ∷ [];
}

api_filtered : filter_to plan ("api" ∷ []) ≡ ok api_plan
unfolding filter_to needed_of close retain dep_total
api_filtered = refl

filter_to-IsLeastPart_example : IsLeastPart demo ("api" ∷ []) api_plan.services
filter_to-IsLeastPart_example = filter_to-IsLeastPart plan api_plan ("api" ∷ []) api_filtered

abbrev config : ConfigFile
config = record {
  version = 1;
  stacks = ("dev", record { services = demo }) ∷ [];
  default_stack = some "dev";
  globals = none;
  tasks = none;
  env = [];
  env_file = none;
}

config_checked : validate config ≡ ok tt
unfolding validate validate_stack validate_stack_service validate_service validate_global
    validate_dep validate_service_port validate_service_capture validate_service_readiness
    validate_service_tasks validate_service_init_tasks validate_service_post_init_tasks
    validate_service_auto_restart validate_name_for_path_component all_chars is_name_char
    is_ascii_alphanumeric topo_sort place init_graph build_graph add_deps add_dep count_dep ready
    release dependents insert remove has_service_port capture_api_requested
    capture_api_explicitly_enabled scheme readiness_kind has_task
config_checked = refl

validate-IsValidConfig_example : IsValidConfig config
validate-IsValidConfig_example = validate-IsValidConfig config config_checked

stack_plan_of_validate_example :
    ((stack : StackConfig) × (p : StackPlan) × (get "dev" config.stacks ≡ some stack)
      × (stack_plan config "dev" ≡ ok p)
      × (p.services ≡ stack.services)
      × IsOrdered stack.services [] p.order)
    ⊎ ((contains_key "dev" config.stacks ≡ false)
        × (stack_plan config "dev" ≡ err ConfigError.stack_not_found))
stack_plan_of_validate_example = stack_plan_of_validate config "dev" config_checked

filter_to_unknown_iff_example :
    (filter_to plan ("cache" ∷ []) ≡ err unknown_service)
    ↔ ¬ (
        (P : String → Bool) × IsClosed demo (λ n. P n ≡ true)
        × All (λ n. P n ≡ true) ("cache" ∷ []))
filter_to_unknown_iff_example = filter_to_unknown_iff plan ("cache" ∷ [])

api_planned : stack_plan_filtered config "dev" ("api" ∷ []) ≡ ok api_plan
unfolding stack_plan_filtered stack_plan filter_to needed_of close retain dep_total topo_sort place
    init_graph build_graph add_deps add_dep count_dep ready release dependents insert remove
api_planned = refl

stack_plan_filtered-IsOrdered_example :
    IsOrdered api_plan.services [] api_plan.order
    × ((y : String) → count y api_plan.order ≡ count y (keys api_plan.services))
stack_plan_filtered-IsOrdered_example =
    stack_plan_filtered-IsOrdered config "dev" ("api" ∷ []) api_plan api_planned
