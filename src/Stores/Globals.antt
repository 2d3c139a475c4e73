-- ===== src/Stores/Globals.antt =====
-- src/stores/globals.rs and src/model/global.rs: the global services, by their keys.
pub mod Handles
use devstack.Common.{ℕ, String, Option, none, some, List, [], ◌++◌, str_key, nat_key}
use devstack.Common.BTreeMap.{BTreeMap, get, insert, remove, values, modify}
use devstack.Common.Outcome.{Result, ok, err}
use devstack.Config.Model.{ServiceConfig, TaskConfig}
use devstack.Model.Service.{ServiceRecord, stop_health_monitor, stop_watch, stop_api_capture}
use devstack.Model.Run.{RunLifecycle}
use devstack.Stores.Runs.{StoreError, not_found}

pub record GlobalRecord : Type 0 where
  pub key : String
  pub name : String
  pub project_dir : String
  pub config_path : String
  pub service_config : ServiceConfig
  pub tasks_map : BTreeMap String TaskConfig
  pub service : ServiceRecord
  pub state : RunLifecycle
  pub created_at : String
  pub stopped_at : Option String

abbrev pub GlobalStore : Type 0
GlobalStore = BTreeMap String GlobalRecord

-- The handles that are stopped when a record goes out of use.
unfoldable pub stop_all : ServiceRecord → List ℕ
stop_all service =
    let (no_health, health) = stop_health_monitor service in
    let (no_watch, watch) = stop_watch no_health in
    let (no_capture, capture) = stop_api_capture no_watch in health ++ watch ++ capture

-- The handles that are stopped, and the store.
unfoldable pub upsert_global : GlobalRecord → GlobalStore → List ℕ × GlobalStore
upsert_global g store = elim (get g.key store) [
  | some previous ↦ (stop_all previous.service, insert g.key g (remove g.key store))
  | none ↦ ([], insert g.key g (remove g.key store))
]

unfoldable pub get_global : String → GlobalStore → Option GlobalRecord
get_global key store = get key store

unfoldable pub list_globals : GlobalStore → List GlobalRecord
list_globals store = values store

unfoldable pub with_global_mut {ℓ} :
    {A : Type ℓ}
    → String
    → (GlobalRecord → A × GlobalRecord)
    → GlobalStore
    → Result StoreError (A × GlobalStore)
with_global_mut key f store = elim (get key store) [
  | none ↦ err not_found
  | some g ↦ ok ((f g).0, modify key (λ x. (f x).1) store)
]
