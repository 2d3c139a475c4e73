-- ===== src/Config/Validate/Checks.antt =====
-- src/config/validate.rs: what the checks of one service show.

use devstack.Common.BTreeMap.{contains_key}
use devstack.Common.{
  ℕ, ◌≤◌, String, ◌≡◌, refl, sym, ◌≢◌, ◌⊎◌, inl, inr, Bool, true, false, not, ◌&&◌, ◌||◌, Option,
  none, some, List, [], ◌∷◌, arith, leb, if◌then◌else◌, str_key, nat_key, ◌==◌, Bool-cases,
  key_cases, All,
}
use devstack.Common.Outcome.{
  Result, ok, err, fail_if, for_each, bind_ok, seq_ok, fail_if_ok, for_each_ok,
}
use devstack.Config.Model.{PortConfig, ServiceConfig, ConfigError}
use devstack.Config.Names.{validate_name_for_path_component, all_chars, is_name_char}
use devstack.Model.Service.{ReadinessKind}
use devstack.Config.Service.{
  capture_api_requested, capture_api_explicitly_enabled, has_service_port, readiness_kind, scheme,
}
use devstack.Config.Validate.{
  Tasks, has_key, has_task, listed, names_of, validate_service, validate_service_init_tasks,
  validate_service_post_init_tasks, validate_service_tasks, is_empty_list,
  validate_service_auto_restart, validate_service_port, validate_service_capture,
  validate_service_readiness,
}

-- A name that can be a file's name.
pub record IsName (name : String) : Type 0 where
  pub not_empty : (name == "") ≡ false
  pub not_dot : (name == ".") ≡ false
  pub not_dots : (name == "..") ≡ false
  pub chars : all_chars is_name_char name ≡ true

-- A task of the service itself, or one of the configuration.
abbrev pub IsKnownTask : ServiceConfig → Option Tasks → String → Type 0
IsKnownTask svc tasks task =
    ((own : Tasks) × (svc.tasks ≡ some own) × (contains_key task own ≡ true))
    ⊎ ((shared : Tasks) × (tasks ≡ some shared) × (contains_key task shared ≡ true))

pub record IsValidService (allowed : Bool) (tasks : Option Tasks) (name : String)
    (svc : ServiceConfig) : Type 0 where
  pub name_valid : IsName name
  pub port_valid :
      (port : ℕ) → svc.port ≡ some (PortConfig.fixed port) → (1024 ≤ port) × (port ≤ 65535)
  pub text_valid : (text : String) → svc.port ≡ some (PortConfig.none_text text) → text ≡ "none"
  pub task_names_valid : All IsName (names_of svc.tasks)
  pub init_known : All (IsKnownTask svc tasks) (listed svc.init)
  pub post_init_known : All (IsKnownTask svc tasks) (listed svc.post_init)
  pub readiness_valid :
      (kind : ReadinessKind) × (readiness_kind (has_service_port svc) svc ≡ ok kind)
  pub captured :
      svc.capture_api ≡ some true
      → (allowed ≡ true) × (has_service_port svc ≡ true) × (scheme svc ≡ "http")
  pub watched : svc.auto_restart ≡ true → svc.watch ≢ []

if_ok :
    {E : Type 0} (b : Bool) (e : E)
    → ◌≡◌ {A = Result E (Unit {0})} (if b then ok tt else err e) (ok tt)
    → b ≡ true
if_ok true e h = refl
if_ok false e h = cc

pub not-false : (b : Bool) → not b ≡ false → b ≡ true
not-false true h = refl
not-false false h = sym h

validate_name_for_path_component-IsName :
    {E : Type 0} (e : E) (name : String)
    → validate_name_for_path_component e name ≡ ok tt
    → IsName name
unfolding validate_name_for_path_component
validate_name_for_path_component-IsName e name h =
    let (two, last) = seq_ok _ _ h in
    let (empty, dots) = seq_ok _ _ two in
    let neither = fail_if_ok ((name == ".") || (name == "..")) e dots in
    record {
      not_empty = fail_if_ok (name == "") e empty;
      not_dot = ground (arith, neither);
      not_dots = ground (arith, neither);
      chars = if_ok (all_chars is_name_char name) e last;
    }

has_key-listed :
    (task : String) (o : Option Tasks)
    → has_key task o ≡ true
    → (tasks : Tasks) × (o ≡ some tasks) × (contains_key task tasks ≡ true)
has_key-listed task none h = cc
has_key-listed task (some tasks) h = (tasks, refl, h)

has_task-IsKnownTask :
    (svc : ServiceConfig) (tasks : Option Tasks) (task : String)
    → has_task task svc tasks ≡ true
    → IsKnownTask svc tasks task
unfolding has_task
has_task-IsKnownTask svc tasks task h = elim (Bool-cases (has_key task svc.tasks)) [
  | inl own ↦ inl (has_key-listed task svc.tasks own)
  | inr f ↦ inr (has_key-listed task tasks (rw f at h))
]

All-map :
    {A : Type 0} {P Q : A → Type 0} (xs : List A) → ((x : A) → P x → Q x) → All P xs → All Q xs
All-map [] f h = tt
All-map (x ∷ xs) f h = (f x h.0, All-map xs f h.1)

pub names-IsName :
    (names : List String)
    → for_each (validate_name_for_path_component ConfigError.invalid_task_name) names ≡ ok tt
    → All IsName names
names-IsName names h =
    All-map names (validate_name_for_path_component-IsName ConfigError.invalid_task_name)
      (for_each_ok (validate_name_for_path_component ConfigError.invalid_task_name) names h)

-- A loop that fails on the first entry without a property.
pub guards_ok :
    {A : Type 0} (p : A → Bool) (e : ConfigError) (xs : List A)
    → for_each (λ x. fail_if (not (p x)) e) xs ≡ ok tt
    → All (λ x. p x ≡ true) xs
guards_ok p e xs h =
    All-map xs (λ x g. not-false (p x) (fail_if_ok (not (p x)) e g))
      (for_each_ok (λ x. fail_if (not (p x)) e) xs h)

port-in_range :
    (svc : ServiceConfig) (port : ℕ)
    → validate_service_port svc ≡ ok tt
    → svc.port ≡ some (PortConfig.fixed port)
    → (1024 ≤ port) × (port ≤ 65535)
unfolding validate_service_port
port-in_range svc port h e =
    let inside =
      not-false (leb 1024 port && leb port 65535)
        (fail_if_ok _ ConfigError.port_out_of_range (rw (e, validate_service_port) at h)) in
    (ground (arith, inside), ground (arith, inside))

port-none_text :
    (svc : ServiceConfig) (text : String)
    → validate_service_port svc ≡ ok tt
    → svc.port ≡ some (PortConfig.none_text text)
    → text ≡ "none"
unfolding validate_service_port
port-none_text svc text h e = (str_key.beq_iff text "none").0 (
    not-false (text == "none")
      (fail_if_ok _ ConfigError.invalid_port_value (rw (e, validate_service_port) at h)))

restart-watched :
    (svc : ServiceConfig)
    → validate_service_auto_restart svc ≡ ok tt
    → svc.auto_restart ≡ true
    → svc.watch ≢ []
unfolding validate_service_auto_restart
restart-watched svc h on none_listed =
    let bad =
      fail_if_ok (svc.auto_restart && is_empty_list svc.watch) ConfigError.auto_restart_needs_watch
        h in
    let good : (svc.auto_restart && is_empty_list svc.watch) ≡ true = rw (on, none_listed) refl in
    cc (bad, good)

readiness-chosen :
    (svc : ServiceConfig)
    → validate_service_readiness svc ≡ ok tt
    → (kind : ReadinessKind) × (readiness_kind (has_service_port svc) svc ≡ ok kind)
unfolding validate_service_readiness
readiness-chosen svc h =
    let (kind, chosen, _) = bind_ok (readiness_kind (has_service_port svc) svc) (λ kind. ok tt) h in
    (kind, chosen)

-- A guard that fails, for a service that asks for the capture, has not been met.
capture-allowed :
    (allowed : Bool) (svc : ServiceConfig)
    → validate_service_capture allowed svc ≡ ok tt
    → svc.capture_api ≡ some true
    → (allowed ≡ true) × (has_service_port svc ≡ true) × (scheme svc ≡ "http")
unfolding validate_service_capture capture_api_requested capture_api_explicitly_enabled
    has_service_port scheme
capture-allowed allowed svc h on = elim (Bool-cases allowed) [
  | inr f ↦ cc (rw (on, f, validate_service_capture) at h)
  | inl t ↦ elim (Bool-cases (has_service_port svc)) [
    | inr f ↦ cc (rw (on, t, f, validate_service_capture) at h)
    | inl port ↦ elim (key_cases (scheme svc) "http") [
      | inr (f, _) ↦ cc (rw (on, t, port, f, validate_service_capture) at h)
      | inl (_, same) ↦ (t, port, same)
    ]
  ]
]

pub validate_service-IsValid :
    (allowed : Bool) (tasks : Option Tasks) (name : String) (svc : ServiceConfig)
    → validate_service allowed tasks (name, svc) ≡ ok tt
    → IsValidService allowed tasks name svc
unfolding validate_service validate_service_tasks validate_service_init_tasks
    validate_service_post_init_tasks
validate_service-IsValid allowed tasks name svc h =
    let (h₇, restart) = seq_ok _ _ h in
    let (h₆, post_init) = seq_ok _ _ h₇ in
    let (h₅, init) = seq_ok _ _ h₆ in
    let (h₄, own_tasks) = seq_ok _ _ h₅ in
    let (h₃, readiness) = seq_ok _ _ h₄ in
    let (h₂, capture) = seq_ok _ _ h₃ in
    let (named, port) = seq_ok _ _ h₂ in
    record {
      name_valid =
          validate_name_for_path_component-IsName ConfigError.invalid_service_name name named;
      port_valid = λ p e. port-in_range svc p port e;
      text_valid = λ text e. port-none_text svc text port e;
      task_names_valid = names-IsName (names_of svc.tasks) own_tasks;
      init_known = All-map (listed svc.init) (has_task-IsKnownTask svc tasks) (
          guards_ok (λ task. has_task task svc tasks) ConfigError.unknown_init_task
            (listed svc.init) init);
      post_init_known = All-map (listed svc.post_init) (has_task-IsKnownTask svc tasks) (
          guards_ok (λ task. has_task task svc tasks) ConfigError.unknown_post_init_task
            (listed svc.post_init) post_init);
      readiness_valid = readiness-chosen svc readiness;
      captured = capture-allowed allowed svc capture;
      watched = restart-watched svc restart;
    }
