-- ===== src/App/Launch/Ports.antt =====
-- src/app/launch/prepare.rs: `resolve_ports_for_refresh`, which decides on the services' ports and reserves
-- them in the shared registry, and src/app/runtime.rs: the owners of ports.
pub mod Kept
pub mod Listen
use Prim.Native.String.{◌++◌ as ◌and◌}
use devstack.Common.{
  ℕ, String, Bool, true, false, Option, none, some, List, [], ◌∷◌, if◌then◌else◌, str_key, nat_key,
  ◌==◌,
}
use devstack.Common.BTreeMap.{insert}
use devstack.Common.Outcome.{Result, ok, err, panic, out_of_fuel}
use devstack.Config.Model.{PortConfig, ServiceConfig}
use devstack.Config.Plan.{Services}
use devstack.Ports.{
  PortEnv, PortError, PortMap, PortReservationRegistry, allocate_ports, reserve_port,
  reserve_available_port,
}

unfoldable pub port_owner : String → String → String
port_owner run_id service = "run:" and (run_id and (":" and service))

-- What becomes of a service's port: it is decided, or a port has to be allocated.
pub data Choice : Type 0 where
  decided : (port : Option ℕ) → Choice
  needs_port : Choice

-- The call that reserves the port.
pub data Request : Type 0 where
  no_request : Request
  reserve reserve_available : (port : ℕ) → Request

abbrev is_port : ℕ → Option ℕ → Bool
is_port value none = false
is_port value (some port) = port == value

-- `existing` is the port that the service's snapshot has.
unfoldable pub choose_port : Bool → Option ℕ → Option PortConfig → Choice × Request
choose_port reuse existing (some (PortConfig.none_text value)) = (decided none, no_request)
choose_port reuse existing (some (PortConfig.fixed value)) = (
  decided (some value),
  if is_port value existing then reserve value else reserve_available value,
)
choose_port true (some port) none = (decided (some port), reserve port)
choose_port true none none = (needs_port, no_request)
choose_port false existing none = (needs_port, no_request)

unfoldable pub send :
    PortEnv
    → String
    → Request
    → PortReservationRegistry
    → Result PortError (Unit {0}) × PortReservationRegistry
send env owner no_request file = (ok tt, file)
send env owner (reserve port) file = reserve_port env port owner file
send env owner (reserve_available port) file = reserve_available_port env port owner file

abbrev pub port_of : Choice → Option ℕ
port_of (decided port) = port
port_of needs_port = none

abbrev pub with_need : Choice → String → ServiceConfig → Services → Services
with_need (decided port) name service needs = needs
with_need needs_port name service needs = insert name service needs

abbrev pub Resolved : Type 0
Resolved = Result PortError (PortMap × Services) × PortReservationRegistry

abbrev after_reply : Result PortError (Unit {0}) → PortReservationRegistry → Resolved → Resolved
after_reply (ok done) file rest = rest
after_reply (err e) file rest = (err e, file)
after_reply panic file rest = (panic, file)
after_reply out_of_fuel file rest = (out_of_fuel, file)

-- The loop over the services: `ports` and `needs` are the maps that it fills.
unfoldable pub resolve_each :
    PortEnv
    → String
    → (String → Option ℕ)
    → Bool
    → Services
    → PortMap
    → Services
    → PortReservationRegistry
    → Resolved
resolve_each env run_id existing reuse [] ports needs file = (ok (ports, needs), file)
resolve_each env run_id existing reuse ((name, service) ∷ services) ports needs file =
    let (choice, request) = choose_port reuse (existing name) service.port in
    let (reply, file') = send env (port_owner run_id name) request file in
    after_reply reply file' (
      resolve_each env run_id existing reuse services (insert name (port_of choice) ports)
        (with_need choice name service needs) file')

-- `for (name, port) in allocated { port_map.insert(name, port); }`
unfoldable pub insert_all : PortMap → PortMap → PortMap
insert_all [] ports = ports
insert_all ((name, port) ∷ allocated) ports = insert_all allocated (insert name port ports)

abbrev with_allocated :
    PortMap
    → Result PortError PortMap × PortReservationRegistry
    → Result PortError PortMap × PortReservationRegistry
with_allocated ports (ok allocated, file) = (ok (insert_all allocated ports), file)
with_allocated ports (err e, file) = (err e, file)
with_allocated ports (panic, file) = (panic, file)
with_allocated ports (out_of_fuel, file) = (out_of_fuel, file)

unfoldable pub allocate_needs :
    PortEnv
    → String
    → List (Option ℕ)
    → Resolved
    → Result PortError PortMap × PortReservationRegistry
allocate_needs env run_id offers (err e, file) = (err e, file)
allocate_needs env run_id offers (panic, file) = (panic, file)
allocate_needs env run_id offers (out_of_fuel, file) = (out_of_fuel, file)
allocate_needs env run_id offers (ok (ports, []), file) = (ok ports, file)
allocate_needs env run_id offers (ok (ports, need ∷ needs), file) =
    with_allocated ports (allocate_ports env (need ∷ needs) (port_owner run_id) offers file)

unfoldable pub resolve_ports_for_refresh :
    PortEnv
    → String
    → (String → Option ℕ)
    → Bool
    → List (Option ℕ)
    → Services
    → PortReservationRegistry
    → Result PortError PortMap × PortReservationRegistry
resolve_ports_for_refresh env run_id existing reuse offers services file =
    allocate_needs env run_id offers (resolve_each env run_id existing reuse services [] [] file)
