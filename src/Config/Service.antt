-- ===== src/Config/Service.antt =====
-- src/config/model.rs: what a service's configuration means, with its defaults.

use devstack.Common.{
  ℕ, String, Bool, true, false, not, ◌||◌, Option, none, some, List, [], ◌∷◌, ◌++◌, ltb,
  if◌then◌else◌, str_key, nat_key, ◌==◌, mem, option_map,
}
use devstack.Common.Outcome.{Result, ok, err, ◌>>=◌}
use devstack.Config.Model.{
  PortConfig, ServiceConfig, ReadinessConfig, ReadinessHttp, ConfigError, expect_status_not_two,
  expect_status_reversed, readiness_none, readiness_many,
}
use devstack.Model.Service.{ReadinessKind, ReadinessSpec}

-- `PortConfig::is_none`
unfoldable pub port_is_none : PortConfig → Bool
port_is_none (PortConfig.none_text value) = value == "none"
port_is_none (PortConfig.fixed port) = false

-- `PortConfig::fixed`
unfoldable pub port_fixed : PortConfig → Option ℕ
port_fixed (PortConfig.none_text value) = none
port_fixed (PortConfig.fixed port) = some port

abbrev pub unwrap_or {ℓ} : {A : Type ℓ} → A → Option A → A
unwrap_or a none = a
unwrap_or a (some b) = b

abbrev pub is_some {ℓ} : {A : Type ℓ} → Option A → Bool
is_some none = false
is_some (some a) = true

unfoldable pub scheme : ServiceConfig → String
scheme svc = unwrap_or "http" svc.scheme

unfoldable pub port_env : ServiceConfig → String
port_env svc = unwrap_or "PORT" svc.port_env

unfoldable pub capture_api_requested : ServiceConfig → Bool
capture_api_requested svc = unwrap_or true svc.capture_api

unfoldable pub capture_api_explicitly_enabled : ServiceConfig → Bool
capture_api_explicitly_enabled svc = unwrap_or false svc.capture_api

unfoldable pub has_service_port : ServiceConfig → Bool
has_service_port svc = unwrap_or true (option_map (λ port. not (port_is_none port)) svc.port)

unfoldable pub http_capture_by_default : ServiceConfig → Bool
http_capture_by_default svc =
    unwrap_or false (option_map (λ s. s == "http") svc.scheme)
    || unwrap_or false (option_map (λ (r : ReadinessConfig). is_some r.http) svc.readiness)

unfoldable pub capture_api_enabled : Bool → Bool → String → ServiceConfig → Bool
capture_api_enabled allowed has_port scheme svc =
    if not allowed || not (capture_api_requested svc) || not has_port || not (scheme == "http")
    then false
    else capture_api_explicitly_enabled svc || http_capture_by_default svc

-- The loop of `capture_api_ignore_paths`: a pattern that is there already is left out.
unfoldable pub push_new : List String → List String → List String
push_new paths [] = paths
push_new paths (pattern ∷ patterns) =
    if mem pattern paths then push_new paths patterns else push_new (paths ++ pattern ∷ []) patterns

-- `defaults` is `DEFAULT_CAPTURE_API_IGNORE_PATHS`.
unfoldable pub capture_api_ignore_paths : List String → ServiceConfig → List String
capture_api_ignore_paths defaults svc = push_new defaults svc.capture_api_ignore

unfoldable pub normalize_expect_status : Option (List ℕ) → Result ConfigError (ℕ × ℕ)
normalize_expect_status none = ok (200, 399)
normalize_expect_status (some (min ∷ max ∷ [])) =
    if ltb max min then err expect_status_reversed else ok (min, max)
normalize_expect_status (some _) = err expect_status_not_two

abbrev http_kinds : Option ReadinessHttp → Result ConfigError (List ReadinessKind)
http_kinds none = ok []
http_kinds (some r) = do
  (min, max) ← normalize_expect_status r.expect_status
  ok (ReadinessKind.http r.path min max ∷ [])

abbrev pub kinds_of {ℓ} : {A : Type ℓ} → (A → ReadinessKind) → Option A → List ReadinessKind
kinds_of f none = []
kinds_of f (some a) = f a ∷ []

-- The checks that a readiness configuration names: `chosen`.
unfoldable pub chosen_kinds : ReadinessConfig → Result ConfigError (List ReadinessKind)
chosen_kinds r = do
  https ← http_kinds r.http
  ok (
      (if r.tcp then ReadinessKind.tcp ∷ [] else [])
      ++ https
      ++ kinds_of ReadinessKind.log_regex r.log_regex
      ++ kinds_of ReadinessKind.cmd r.cmd
      ++ kinds_of ReadinessKind.delay r.delay_ms
      ++ (if r.exit then ReadinessKind.exit ∷ [] else []))

abbrev exactly_one : List ReadinessKind → Result ConfigError ReadinessKind
exactly_one [] = err readiness_none
exactly_one (kind ∷ []) = ok kind
exactly_one (_ ∷ _ ∷ _) = err readiness_many

unfoldable pub readiness_kind : Bool → ServiceConfig → Result ConfigError ReadinessKind
readiness_kind has_port svc = elim svc.readiness [
  | some r ↦ chosen_kinds r >>= exactly_one
  | none ↦ ok (if has_port then ReadinessKind.tcp else ReadinessKind.no_check)
]

abbrev timeout_ms : Option ReadinessConfig → Option ℕ
timeout_ms none = none
timeout_ms (some r) = r.timeout_ms

-- The timeout in milliseconds.
unfoldable pub readiness_spec : Bool → ServiceConfig → Result ConfigError ReadinessSpec
readiness_spec has_port svc = do
  kind ← readiness_kind has_port svc
  ok (record { kind = kind; timeout = unwrap_or 30000 (timeout_ms svc.readiness) })
