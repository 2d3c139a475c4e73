-- ===== src/App/Launch/Ports/Listen.antt =====
-- src/app/commands/runs.rs: the ports that services listen on, which are not their public ports where the
-- capture proxy stands in between, and src/app/runtime.rs: how ports are given back.
use Prim.Native.String.{◌++◌ as ◌and◌}
use devstack.Common.{
  ℕ, String, ◌≡◌, ap, ◌∙◌, subst, ◌≢◌, inl, inr, Bool, true, false, Option, none, some, List, [],
  ◌∷◌, if◌then◌else◌, str_key, nat_key, ◌==◌, key_cases,
}
use devstack.Common.BTreeMap.{get, contains_key, insert, contains_key_of_get}
use devstack.Common.Outcome.{Result, ok, err, panic, out_of_fuel}
use devstack.Config.Model.{ServiceConfig}
use devstack.Config.Plan.{Services}
use devstack.Config.Service.{scheme, capture_api_enabled, is_some}
use devstack.Ports.{
  PortEnv, PortError, PortMap, PortReservationRegistry, reserve_port, reserve_ephemeral_port,
  allocate_ephemeral_port, release_port, cleanup_stale,
}
use devstack.Ports.Reserve.{owner_of, allocate_from-Extends, owner_of_inv}
use devstack.Ports.Allocate.{with_registry_inv}
use devstack.App.Launch.Ports.{port_owner}

unfoldable pub capture_backend_port_owner : String → String → String
capture_backend_port_owner run_id service =
    "run:" and (run_id and (":" and (service and ":api-capture-backend")))

abbrev after_reserve :
    ℕ
    → Result PortError (Unit {0}) × PortReservationRegistry
    → Result PortError (Option ℕ) × PortReservationRegistry
after_reserve port (ok done, file) = (ok (some port), file)
after_reserve port (err e, file) = (err e, file)
after_reserve port (panic, file) = (panic, file)
after_reserve port (out_of_fuel, file) = (out_of_fuel, file)

abbrev some_port :
    Result PortError ℕ × PortReservationRegistry
    → Result PortError (Option ℕ) × PortReservationRegistry
some_port (ok port, file) = (ok (some port), file)
some_port (err e, file) = (err e, file)
some_port (panic, file) = (panic, file)
some_port (out_of_fuel, file) = (out_of_fuel, file)

-- The listen port of a service that is captured: the port it had, when ports are used again and it is not
-- the public one, or a new one. `offers` are the ports that the operating system will offer.
unfoldable pub captured_port :
    PortEnv
    → String
    → Bool
    → ℕ
    → Option ℕ
    → List (Option ℕ)
    → PortReservationRegistry
    → Result PortError (Option ℕ) × PortReservationRegistry
captured_port env owner true public (some existing) offers file =
    if existing == public
    then some_port (reserve_ephemeral_port env owner offers file)
    else after_reserve existing (reserve_port env existing owner file)
captured_port env owner true public none offers file =
    some_port (reserve_ephemeral_port env owner offers file)
captured_port env owner false public existing offers file =
    some_port (reserve_ephemeral_port env owner offers file)

-- One service in the loop of `resolve_listen_ports_for_launch`.
unfoldable pub listen_port :
    PortEnv
    → String
    → Bool
    → Bool
    → Option ℕ
    → Option ℕ
    → List (Option ℕ)
    → PortReservationRegistry
    → Result PortError (Option ℕ) × PortReservationRegistry
listen_port env owner reuse false public existing offers file = (ok public, file)
listen_port env owner reuse true none existing offers file = (ok none, file)
listen_port env owner reuse true (some port) existing offers file =
    captured_port env owner reuse port existing offers file

abbrev port_in : String → PortMap → Option ℕ
port_in name ports = elim (get name ports) [ none ↦ none | some port ↦ port ]

abbrev captures : Option ℕ → ServiceConfig → Bool
captures public service = capture_api_enabled true (is_some public) (scheme service) service

abbrev continue_with :
    Result PortError (Option ℕ) × PortReservationRegistry
    → (Option ℕ → PortReservationRegistry → Result PortError PortMap × PortReservationRegistry)
    → Result PortError PortMap × PortReservationRegistry
continue_with (ok port, file) rest = rest port file
continue_with (err e, file) rest = (err e, file)
continue_with (panic, file) rest = (panic, file)
continue_with (out_of_fuel, file) rest = (out_of_fuel, file)

-- `listening` is the map that the loop fills; `offers` answers for each service.
unfoldable pub resolve_listen_ports_for_launch :
    PortEnv
    → String
    → PortMap
    → (String → Option ℕ)
    → Bool
    → (String → List (Option ℕ))
    → Services
    → PortMap
    → PortReservationRegistry
    → Result PortError PortMap × PortReservationRegistry
resolve_listen_ports_for_launch env run_id ports existing reuse offers [] listening file =
    (ok listening, file)
resolve_listen_ports_for_launch env run_id ports existing reuse offers ((name, service) ∷ services)
      listening file =
    let public = port_in name ports in
    continue_with
      (listen_port env (capture_backend_port_owner run_id name) reuse (captures public service)
        public (existing name) (offers name) file)
      (λ port file'.
        resolve_listen_ports_for_launch env run_id ports existing reuse offers services
          (insert name port listening) file')

unfoldable pub release_service_port :
    PortEnv
    → String
    → String
    → Option ℕ
    → PortReservationRegistry
    → Result PortError (Unit {0}) × PortReservationRegistry
release_service_port env run_id service none file = (ok tt, file)
release_service_port env run_id service (some port) file =
    release_port env port (port_owner run_id service) file

unfoldable pub release_service_capture_backend_port :
    PortEnv
    → String
    → String
    → Option ℕ
    → Option ℕ
    → PortReservationRegistry
    → Result PortError (Unit {0}) × PortReservationRegistry
release_service_capture_backend_port env run_id service none public file = (ok tt, file)
release_service_capture_backend_port env run_id service (some port) none file =
    release_port env port (capture_backend_port_owner run_id service) file
release_service_capture_backend_port env run_id service (some port) (some public) file =
    if port == public
    then (ok tt, file)
    else release_port env port (capture_backend_port_owner run_id service) file

-- A new port is not one that was reserved.
reserve_ephemeral_port-fresh :
    (env : PortEnv) (owner other : String) (port public : ℕ) (offers : List (Option ℕ))
    (file file' : PortReservationRegistry)
    → owner_of public (cleanup_stale env file) ≡ some other
    → reserve_ephemeral_port env owner offers file ≡ (ok port, file')
    → port ≢ public
unfolding reserve_ephemeral_port allocate_ephemeral_port
reserve_ephemeral_port-fresh env owner other port public offers file file' held h same =
    let (s', e, last) =
      with_registry_inv env (allocate_ephemeral_port env owner) offers file file' port h in
    let (extends, mine, fresh) =
      allocate_from-Extends env owner offers (cleanup_stale env file) port s' e in
    let (entry, there, whose) = owner_of_inv public (cleanup_stale env file) other held in
    let taken = contains_key_of_get public (cleanup_stale env file).reservations entry there in
    cc (subst (λ p. contains_key p (cleanup_stale env file).reservations ≡ false) same fresh, taken)

some_port_inv :
    (reply : Result PortError ℕ × PortReservationRegistry) (port : ℕ)
    (file' : PortReservationRegistry)
    → some_port reply ≡ (ok (some port), file')
    → reply ≡ (ok port, file')
some_port_inv (ok p, file) port file' h =
    let same : p ≡ port = cc (ap (λ z. z.0) h) in λ i. (ok (same i), ap (λ z. z.1) h i)
some_port_inv (err e, file) port file' h = cc (ap (λ z. z.0) h)
some_port_inv (panic, file) port file' h = cc (ap (λ z. z.0) h)
some_port_inv (out_of_fuel, file) port file' h = cc (ap (λ z. z.0) h)

after_reserve_inv :
    (reply : Result PortError (Unit {0}) × PortReservationRegistry) (existing port : ℕ)
    (file' : PortReservationRegistry)
    → after_reserve existing reply ≡ (ok (some port), file')
    → existing ≡ port
after_reserve_inv (ok done, file) existing port file' h = cc (ap (λ z. z.0) h)
after_reserve_inv (err e, file) existing port file' h = cc (ap (λ z. z.0) h)
after_reserve_inv (panic, file) existing port file' h = cc (ap (λ z. z.0) h)
after_reserve_inv (out_of_fuel, file) existing port file' h = cc (ap (λ z. z.0) h)

-- A service whose requests are captured never listens on its public port, whether its port is used again
-- or a new one is taken, when the public port is reserved at the time.
pub captured_port-distinct :
    (env : PortEnv) (owner other : String) (reuse : Bool) (public port : ℕ) (existing : Option ℕ)
    (offers : List (Option ℕ)) (file file' : PortReservationRegistry)
    → owner_of public (cleanup_stale env file) ≡ some other
    → captured_port env owner reuse public existing offers file ≡ (ok (some port), file')
    → port ≢ public
unfolding captured_port
captured_port-distinct env owner other false public port existing offers file file' held h =
    reserve_ephemeral_port-fresh env owner other port public offers file file' held
      (some_port_inv _ port file' h)
captured_port-distinct env owner other true public port none offers file file' held h =
    reserve_ephemeral_port-fresh env owner other port public offers file file' held
      (some_port_inv _ port file' h)
captured_port-distinct env owner other true public port (some existing) offers file file' held h =
    elim (key_cases existing public) [
      | inl (t, e) ↦
          reserve_ephemeral_port-fresh env owner other port public offers file file' held (
            some_port_inv (reserve_ephemeral_port env owner offers file) port file'
              (rw (t, captured_port) at h))
      | inr (f, n) ↦
          let same =
            after_reserve_inv (reserve_port env existing owner file) existing port file'
              (rw (f, captured_port) at h) in
          λ e. n (same ∙ e)
    ]
