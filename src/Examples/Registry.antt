-- ===== src/Examples/Registry.antt =====
-- Reservations of two daemons; the daemon that calls has the pid 1.
use devstack.Common.{
  ℕ, String, ◌≡◌, refl, subst, ◌≢◌, true, Option, none, some, List, [], ◌∷◌, str_key, nat_key,
}
use devstack.Common.BTreeMap.{get, contains_key, insert, remove, retain}
use devstack.Common.Outcome.{ok, err}
use devstack.Ports.{
  PortEnv, PortReservationRegistry, PortMap, allocate_ports, reserve_port, PortError, cleanup_stale,
  delivered, add_reservation, allocate_each, allocate_ephemeral_port, allocate_from, allocate_port,
  is_pid_alive, release_port, reserve_specific_port, with_registry, PortReservationEntry,
}
use devstack.Ports.Reserve.{owner_of, Extends}
use devstack.Ports.Allocate.{allocate_ports-Owned, allocate_ports_distinct}
use devstack.Ports.Exclusive.{reserve_port_exclusive, release_port-reserve_port}
use devstack.Examples.Configs.{demo}

abbrev env : PortEnv
env = record { pid = 1; kill = λ pid. delivered; can_bind = λ port. true }

abbrev empty_file : PortReservationRegistry
empty_file = record { reservations = [] }

abbrev owned_by : String → PortReservationRegistry
owned_by owner = record { reservations = (5000, record { owner = owner; daemon_pid = 1 }) ∷ [] }

abbrev first : String
first = "run:1:api"

abbrev second : String
second = "run:2:api"

alive : is_pid_alive env 1 ≡ true
unfolding is_pid_alive
alive = refl

reserved : reserve_port env 5000 first empty_file ≡ (ok tt, owned_by first)
unfolding reserve_port with_registry reserve_specific_port add_reservation cleanup_stale insert
    retain remove
reserved = refl

differ : first ≢ second
differ e = cc ((str_key.beq_iff first second).1 e)

abbrev api : String
api = "api"

abbrev db : String
db = "db"

api_is_not_db : api ≢ db
api_is_not_db e = cc ((str_key.beq_iff api db).1 e)

-- Another daemon, on the same machine.
abbrev other_env : PortEnv
other_env = record { pid = 2; kill = λ pid. delivered; can_bind = λ port. true }

first_alive : is_pid_alive other_env 1 ≡ true
unfolding is_pid_alive
first_alive = refl

holder_alive :
    (entry : PortReservationEntry)
    → get 5000 (owned_by first).reservations ≡ some entry
    → is_pid_alive other_env entry.daemon_pid ≡ true
holder_alive entry held =
    let held_by : PortReservationEntry = record { owner = first; daemon_pid = 1 } in
    let same : held_by ≡ entry = cc in
    subst (λ (x : PortReservationEntry). is_pid_alive other_env x.daemon_pid ≡ true) same
      first_alive

reserve_port_exclusive_example :
    (reserve_port other_env 5000 second (owned_by first)
      ≡ (err PortError.reserved_by_another, owned_by first))
    × (release_port other_env 5000 second (owned_by first)
        ≡ (err PortError.reserved_by_another, owned_by first))
reserve_port_exclusive_example =
    reserve_port_exclusive env other_env 5000 first second empty_file (owned_by first) tt alive
      differ reserved holder_alive

release_port-reserve_port_example :
    (file'' : PortReservationRegistry) × (release_port env 5000 first (owned_by first)
      ≡ (ok tt, file''))
    × (owner_of 5000 file'' ≡ none)
    × ((q : ℕ) → 5000 ≢ q → get q file''.reservations ≡ get q (owned_by first).reservations)
release_port-reserve_port_example =
    release_port-reserve_port env 5000 first empty_file (owned_by first) tt alive reserved

abbrev ports : PortMap
ports = ("api", some 4001) ∷ ("db", some 4002) ∷ ("web", some 4003) ∷ []

abbrev three_reserved : PortReservationRegistry
three_reserved = record {
  reservations =
      (4001, record { owner = "api"; daemon_pid = 1 })
      ∷ (4002, record { owner = "db"; daemon_pid = 1 })
      ∷ (4003, record { owner = "web"; daemon_pid = 1 })
      ∷ [];
}

abbrev offers : List (Option ℕ)
offers = some 4001 ∷ some 4001 ∷ some 4002 ∷ some 4003 ∷ []

allocated : allocate_ports env demo (λ name. name) offers empty_file ≡ (ok ports, three_reserved)
unfolding allocate_ports with_registry allocate_each allocate_port allocate_ephemeral_port
    allocate_from reserve_specific_port add_reservation cleanup_stale insert retain remove
allocated = refl

allocate_ports-Owned_example :
    ((name : String) → contains_key name ports ≡ contains_key name demo)
    × ((name : String) (port : ℕ)
        → get name ports ≡ some (some port)
        → owner_of port three_reserved ≡ some name)
    × Extends (cleanup_stale env empty_file) three_reserved
allocate_ports-Owned_example =
    allocate_ports-Owned env demo (λ name. name) offers empty_file three_reserved ports allocated

allocate_ports_distinct_example : ◌≢◌ {A = ℕ} 4001 4002
allocate_ports_distinct_example =
    allocate_ports_distinct env demo (λ name. name) offers empty_file three_reserved ports api db
      4001 4002 allocated refl refl api_is_not_db
