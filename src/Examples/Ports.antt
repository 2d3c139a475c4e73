-- ===== src/Examples/Ports.antt =====
-- The ports of a refresh: `api` keeps the port that it had, and the others get new ones.
use devstack.Common.{
  ℕ, String, ◌≡◌, refl, ◌≢◌, true, Option, none, some, List, [], ◌∷◌, if◌then◌else◌, str_key,
  nat_key, ◌==◌,
}
use devstack.Common.BTreeMap.{get, insert, remove, retain}
use devstack.Common.Outcome.{ok}
use devstack.Config.Plan.{Services}
use devstack.Ports.{
  PortEnv, PortReservationRegistry, PortMap, allocate_ports, reserve_port, cleanup_stale, delivered,
  add_reservation, allocate_each, allocate_ephemeral_port, allocate_from, allocate_port,
  is_pid_alive, reserve_ephemeral_port, reserve_specific_port, with_registry,
}
use devstack.Ports.Reserve.{owner_of}
use devstack.App.Launch.Ports.{
  choose_port, resolve_ports_for_refresh, resolve_each, send, port_owner, allocate_needs,
  insert_all,
}
use devstack.App.Launch.Ports.Kept.{resolve_ports_for_refresh-known}
use devstack.App.Launch.Ports.Listen.{captured_port, captured_port-distinct}
use devstack.Examples.Configs.{service}

abbrev env : PortEnv
env = record { pid = 1; kill = λ pid. delivered; can_bind = λ port. true }

abbrev services : Services
services = ("api", service []) ∷ ("web", service []) ∷ []

abbrev existing : String → Option ℕ
existing name = if name == "api" then some 4000 else none

abbrev offers : List (Option ℕ)
offers = some 4000 ∷ some 4001 ∷ []

abbrev ports : PortMap
ports = ("api", some 4000) ∷ ("web", some 4001) ∷ []

abbrev empty_file : PortReservationRegistry
empty_file = record { reservations = [] }

abbrev file : PortReservationRegistry
file = (resolve_ports_for_refresh env "1" existing true offers services empty_file).1

resolved :
    resolve_ports_for_refresh env "1" existing true offers services empty_file ≡ (ok ports, file)
unfolding resolve_ports_for_refresh resolve_each choose_port send port_owner allocate_needs
    insert_all allocate_ports reserve_port with_registry allocate_each allocate_port
    allocate_ephemeral_port allocate_from reserve_specific_port add_reservation cleanup_stale
    is_pid_alive insert retain remove
resolved = refl

resolve_ports_for_refresh-known_example : get "api" ports ≡ some (some 4000)
resolve_ports_for_refresh-known_example =
    resolve_ports_for_refresh-known env "1" "api" existing true offers services empty_file file
      ports (service []) (some 4000) (refl, (refl, tt)) resolved refl refl

abbrev held : PortReservationRegistry
held = record { reservations = (4000, record { owner = "run:1:api"; daemon_pid = 1 }) ∷ [] }

abbrev held_file : PortReservationRegistry
held_file = (captured_port env "backend" true 4000 (some 4000) offers held).1

held_port : owner_of 4000 (cleanup_stale env held) ≡ some "run:1:api"
unfolding owner_of cleanup_stale retain is_pid_alive
held_port = refl

captured :
    captured_port env "backend" true 4000 (some 4000) offers held ≡ (ok (some 4001), held_file)
unfolding captured_port reserve_ephemeral_port with_registry allocate_ephemeral_port allocate_from
    add_reservation cleanup_stale retain is_pid_alive insert remove
captured = refl

captured_port-distinct_example : ◌≢◌ {A = ℕ} 4001 4000
captured_port-distinct_example =
    captured_port-distinct env "backend" "run:1:api" true 4000 4001 (some 4000) offers held
      held_file held_port captured
