-- ===== src/Model/Service.antt =====
-- src/model/lifecycle.rs, readiness.rs and service.rs: a service of a run, and its operations.

use devstack.Common.{
  ℕ, String, Bool, true, false, not, ◌&&◌, Option, none, some, List, [], ◌∷◌, if◌then◌else◌,
  str_key, nat_key,
}
use devstack.Common.BTreeMap.{BTreeMap}

pub data ServiceState : Type 0 where
  starting ready degraded stopped failed : ServiceState

-- `==` on service states
abbrev pub same_state : ServiceState → ServiceState → Bool
same_state starting starting = true
same_state ready ready = true
same_state degraded degraded = true
same_state stopped stopped = true
same_state failed failed = true
same_state _ _ = false

pub data ReadinessKind : Type 0 where
  tcp : ReadinessKind
  http : (path : String) (expect_min expect_max : ℕ) → ReadinessKind
  log_regex : (pattern : String) → ReadinessKind
  cmd : (command : String) → ReadinessKind
  delay : (duration_ms : ℕ) → ReadinessKind
  exit : ReadinessKind
  no_check : ReadinessKind

-- The timeout in milliseconds.
pub record ReadinessSpec : Type 0 where
  pub kind : ReadinessKind
  pub timeout : ℕ

pub record ServiceSpec : Type 0 where
  pub name : String
  pub deps : List String
  pub readiness : ReadinessSpec
  pub auto_restart : Bool
  pub watch_patterns : List String
  pub ignore_patterns : List String

pub record ServiceLaunchPlan : Type 0 where
  pub unit_name : String
  pub cwd : String
  pub env : BTreeMap String String
  pub cmd : String
  pub log_path : String
  pub port : Option ℕ
  pub listen_port : Option ℕ
  pub scheme : String
  pub url : Option String
  pub capture_api : Bool
  pub capture_api_body_limit : ℕ
  pub capture_api_ignore : List String
  pub watch_hash : String
  pub watch_fingerprint : List ℕ
  pub watch_extra_files : List String

pub record ServiceRuntimeState : Type 0 where
  pub state : ServiceState
  pub last_failure : Option String
  pub last_started_at : Option String
  pub watch_paused : Bool

abbrev pub default_runtime : ServiceRuntimeState
default_runtime = record {
  state = starting;
  last_failure = none;
  last_started_at = none;
  watch_paused = false;
}

pub record ServiceHandles : Type 0 where
  pub health : Option ℕ
  pub watch : Option ℕ
  pub api_capture : Option ℕ

pub record ServiceRecord : Type 0 where
  pub spec : ServiceSpec
  pub launch : ServiceLaunchPlan
  pub runtime : ServiceRuntimeState
  pub handles : ServiceHandles

unfoldable pub new_service : ServiceSpec → ServiceLaunchPlan → ServiceRecord
new_service spec launch = record {
  spec = spec;
  launch = launch;
  runtime = default_runtime;
  handles = record { health = none; watch = none; api_capture = none };
}

-- `set_state`, at the time `now`
unfoldable pub set_state : String → ServiceState → ServiceRecord → ServiceRecord
set_state now state s = record s {
  runtime = record (s.runtime) {
    state = state;
    last_started_at = if same_state state ready then some now else s.runtime.last_started_at;
  };
}

unfoldable pub set_failure : String → ServiceRecord → ServiceRecord
set_failure reason s = record s {
  runtime = record (s.runtime) { state = failed; last_failure = some reason };
}

-- The handle that was there is stopped.
abbrev pub taken : Option ℕ → List ℕ
taken none = []
taken (some handle) = handle ∷ []

unfoldable pub stop_health_monitor : ServiceRecord → ServiceRecord × List ℕ
stop_health_monitor s =
    (record s { handles = record (s.handles) { health = none } }, taken s.handles.health)

unfoldable pub stop_watch : ServiceRecord → ServiceRecord × List ℕ
stop_watch s = (record s { handles = record (s.handles) { watch = none } }, taken s.handles.watch)

unfoldable pub stop_api_capture : ServiceRecord → ServiceRecord × List ℕ
stop_api_capture s =
    (record s { handles = record (s.handles) { api_capture = none } }, taken s.handles.api_capture)

unfoldable pub watch_active : ServiceRecord → Bool
watch_active s =
    s.spec.auto_restart
    && (elim s.handles.watch [ none ↦ false | some handle ↦ true ])
    && not s.runtime.watch_paused
