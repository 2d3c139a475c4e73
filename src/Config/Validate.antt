-- ===== src/Config/Validate.antt =====
-- src/config/validate.rs: the checks of a configuration file.
pub mod Checks
pub mod Valid
use devstack.Common.{
  String, Bool, true, false, not, ◌&&◌, Option, none, some, List, [], ◌∷◌, leb, if◌then◌else◌,
  str_key, nat_key, ◌==◌,
}
use devstack.Common.BTreeMap.{BTreeMap, contains_key, keys}
use devstack.Common.Outcome.{Result, ok, ◌>>=◌, ◌>>◌, fail_if, for_each}
use devstack.Config.Model.{
  PortConfig, ServiceConfig, TaskConfig, StackConfig, ConfigFile, ConfigError, fixed,
}
use devstack.Config.Names.{validate_name_for_path_component}
use devstack.Config.Service.{
  scheme, capture_api_explicitly_enabled, capture_api_requested, has_service_port, readiness_kind,
}
use devstack.Config.Plan.{Services, topo_sort}

abbrev pub Checked : Type 0
Checked = Result ConfigError (Unit {0})

abbrev pub Tasks : Type 0
Tasks = BTreeMap String TaskConfig

unfoldable pub validate_service_port : ServiceConfig → Checked
validate_service_port svc = elim svc.port [
  | none ↦ ok tt
  | some (PortConfig.fixed port) ↦
      fail_if (not (leb 1024 port && leb port 65535)) ConfigError.port_out_of_range
  | some (PortConfig.none_text value) ↦
      fail_if (not (value == "none")) ConfigError.invalid_port_value
]

unfoldable pub validate_service_capture : Bool → ServiceConfig → Checked
validate_service_capture allowed svc =
    if not (capture_api_requested svc)
    then ok tt
    else if not allowed
    then fail_if (capture_api_explicitly_enabled svc) ConfigError.capture_not_supported
    else if not (has_service_port svc)
    then fail_if (capture_api_explicitly_enabled svc) ConfigError.capture_needs_port
    else if not (scheme svc == "http")
    then fail_if (capture_api_explicitly_enabled svc) ConfigError.capture_needs_http
    else ok tt

unfoldable pub validate_service_readiness : ServiceConfig → Checked
validate_service_readiness svc = do kind ← readiness_kind (has_service_port svc) svc; ok tt

abbrev pub names_of : Option Tasks → List String
names_of none = []
names_of (some tasks) = keys tasks

unfoldable pub validate_service_tasks : ServiceConfig → Checked
validate_service_tasks svc =
    for_each (validate_name_for_path_component ConfigError.invalid_task_name) (names_of svc.tasks)

abbrev pub has_key : String → Option Tasks → Bool
has_key name none = false
has_key name (some tasks) = contains_key name tasks

unfoldable pub has_task : String → ServiceConfig → Option Tasks → Bool
has_task name svc global_tasks = if has_key name svc.tasks then true else has_key name global_tasks

abbrev pub listed : Option (List String) → List String
listed none = []
listed (some names) = names

unfoldable pub validate_service_init_tasks : Option Tasks → ServiceConfig → Checked
validate_service_init_tasks global_tasks svc =
    for_each (λ name. fail_if (not (has_task name svc global_tasks)) ConfigError.unknown_init_task)
      (listed svc.init)

unfoldable pub validate_service_post_init_tasks : Option Tasks → ServiceConfig → Checked
validate_service_post_init_tasks global_tasks svc =
    for_each
      (λ name. fail_if (not (has_task name svc global_tasks)) ConfigError.unknown_post_init_task)
      (listed svc.post_init)

abbrev pub is_empty_list : List String → Bool
is_empty_list [] = true
is_empty_list (_ ∷ _) = false

unfoldable pub validate_service_auto_restart : ServiceConfig → Checked
validate_service_auto_restart svc =
    fail_if (svc.auto_restart && is_empty_list svc.watch) ConfigError.auto_restart_needs_watch

-- The checks that the services of stacks and the global services share.
unfoldable pub validate_service : Bool → Option Tasks → String × ServiceConfig → Checked
validate_service allowed tasks (name, svc) =
    validate_name_for_path_component ConfigError.invalid_service_name name
    >> validate_service_port svc
    >> validate_service_capture allowed svc
    >> validate_service_readiness svc
    >> validate_service_tasks svc
    >> validate_service_init_tasks tasks svc
    >> validate_service_post_init_tasks tasks svc
    >> validate_service_auto_restart svc

unfoldable pub validate_dep : Services → String → Checked
validate_dep services dep = fail_if (not (contains_key dep services)) ConfigError.unknown_dep

unfoldable pub validate_stack_service : Option Tasks → Services → String × ServiceConfig → Checked
validate_stack_service tasks services (name, svc) =
    validate_service true tasks (name, svc) >> for_each (validate_dep services) svc.deps

unfoldable pub validate_stack : Option Tasks → String × StackConfig → Checked
validate_stack tasks (stack_name, stack) = do
  for_each (validate_stack_service tasks stack.services) stack.services
  order ← topo_sort stack.services
  ok tt

unfoldable pub validate_global : Option Tasks → String × ServiceConfig → Checked
validate_global tasks (name, svc) =
    validate_service false tasks (name, svc)
    >> fail_if (not (is_empty_list svc.deps)) ConfigError.global_with_deps

abbrev pub globals_of : Option Services → Services
globals_of none = []
globals_of (some globals) = globals

abbrev pub missing_default : ConfigFile → Bool
missing_default config = elim config.default_stack [
  | none ↦ false
  | some stack ↦ not (contains_key stack config.stacks)
]

unfoldable pub validate : ConfigFile → Checked
validate config =
    fail_if (missing_default config) ConfigError.default_stack_not_found
    >> for_each (validate_stack config.tasks) config.stacks
    >> for_each (validate_name_for_path_component ConfigError.invalid_task_name)
        (names_of config.tasks)
    >> for_each (validate_global config.tasks) (globals_of config.globals)
