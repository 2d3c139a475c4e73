-- ===== src/Config/Model.antt =====
-- src/config/model.rs: the types of the configuration file and the defaults of a service.
-- A `PathBuf` is its text, and a `UniqueMap` the map inside it.
use devstack.Common.{ℕ, String, Bool, Option, List, str_key}
use devstack.Common.BTreeMap.{BTreeMap}

pub data PortConfig : Type 0 where
  none_text : String → PortConfig
  fixed : ℕ → PortConfig

pub record ReadinessHttp : Type 0 where
  pub path : String
  pub expect_status : Option (List ℕ)

-- `ReadinessTcp` and `ReadinessExit` have no fields: only their presence counts.
pub record ReadinessConfig : Type 0 where
  pub tcp : Bool
  pub http : Option ReadinessHttp
  pub log_regex : Option String
  pub cmd : Option String
  pub delay_ms : Option ℕ
  pub exit : Bool
  pub timeout_ms : Option ℕ

pub record TaskDefinition : Type 0 where
  pub cmd : String
  pub cwd : Option String
  pub watch : List String
  pub env : BTreeMap String String
  pub env_file : Option String

pub data TaskConfig : Type 0 where
  command : String → TaskConfig
  structured : TaskDefinition → TaskConfig

pub record ServiceConfig : Type 0 where
  pub cmd : String
  pub deps : List String
  pub scheme : Option String
  pub port_env : Option String
  pub port : Option PortConfig
  pub capture_api : Option Bool
  pub capture_api_body_limit : Option ℕ
  pub capture_api_ignore : List String
  pub readiness : Option ReadinessConfig
  pub env_file : Option String
  pub env : BTreeMap String String
  pub cwd : Option String
  pub watch : List String
  pub ignore : List String
  pub auto_restart : Bool
  pub init : Option (List String)
  pub post_init : Option (List String)
  pub tasks : Option (BTreeMap String TaskConfig)

pub record StackConfig : Type 0 where
  pub services : BTreeMap String ServiceConfig

pub record ConfigFile : Type 0 where
  pub version : ℕ
  pub stacks : BTreeMap String StackConfig
  pub default_stack : Option String
  pub globals : Option (BTreeMap String ServiceConfig)
  pub tasks : Option (BTreeMap String TaskConfig)
  pub env : BTreeMap String String
  pub env_file : Option String

pub record StackPlan : Type 0 where
  pub name : String
  pub services : BTreeMap String ServiceConfig
  pub order : List String

-- What a function of the configuration can fail with, an error of the source each.
pub data ConfigError : Type 0 where
  stack_not_found unknown_service circular_dependency default_stack_not_found : ConfigError
  invalid_service_name invalid_task_name unknown_dep global_with_deps : ConfigError
  port_out_of_range invalid_port_value : ConfigError
  capture_not_supported capture_needs_port capture_needs_http : ConfigError
  expect_status_not_two expect_status_reversed readiness_none readiness_many : ConfigError
  unknown_init_task unknown_post_init_task auto_restart_needs_watch : ConfigError
  duplicate_key : ConfigError
  limit_empty limit_without_count limit_not_a_number limit_unit limit_too_large : ConfigError
