-- ===== src/Ports.antt =====
-- src/port.rs: the reservations of ports that all daemons share through one locked file.
-- The operating system is a parameter: the daemon's pid, the answer of `kill(pid, 0)`, whether a port
-- can be bound, and the ports that binding to port 0 gives, in turn. Locking, parsing and printing the
-- file do not fail here.
pub mod Reserve
pub mod Allocate
pub mod Exclusive
use devstack.Common.{
  ℕ, String, Bool, true, false, not, ◌&&◌, ◌||◌, Option, none, some, List, [], ◌∷◌, ltb, eqb,
  if◌then◌else◌, str_key, nat_key, ◌==◌,
}
use devstack.Common.BTreeMap.{BTreeMap, get, contains_key, insert, remove, retain}
use devstack.Common.Outcome.{Result, ok, err, panic, out_of_fuel, ◌>>=◌}
use devstack.Config.Model.{PortConfig, fixed, none_text}
use devstack.Config.Plan.{Services}

pub record PortReservationEntry : Type 0 where
  pub owner : String
  pub daemon_pid : ℕ

pub record PortReservationRegistry : Type 0 where
  pub reservations : BTreeMap ℕ PortReservationEntry

-- What `kill(pid, 0)` answers: it returned 0, it failed with EPERM, or it failed otherwise.
pub data KillReply : Type 0 where
  delivered not_permitted no_process : KillReply

pub record PortEnv : Type 0 where
  pub pid : ℕ
  pub kill : ℕ → KillReply
  pub can_bind : ℕ → Bool

pub data PortError : Type 0 where
  reserved_by_another unavailable bind_failed : PortError

-- The registry in memory, and the ports that the operating system will offer; `none` is a failed bind.
pub record Session : Type 0 where
  pub registry : PortReservationRegistry
  pub offers : List (Option ℕ)

abbrev pub i32_max : ℕ
i32_max = 2147483647

unfoldable pub is_pid_alive : PortEnv → ℕ → Bool
is_pid_alive env pid =
    if eqb pid 0 || ltb i32_max pid
    then false
    else elim (env.kill pid) [ delivered ↦ true | not_permitted ↦ true | no_process ↦ false ]

unfoldable pub cleanup_stale : PortEnv → PortReservationRegistry → PortReservationRegistry
cleanup_stale env r = record {
  reservations = retain (λ port entry. is_pid_alive env entry.daemon_pid) r.reservations;
}

unfoldable pub add_reservation : PortEnv → ℕ → String → Session → Session
add_reservation env port owner s = record s {
  registry = record {
    reservations =
        insert port (record { owner = owner; daemon_pid = env.pid }) s.registry.reservations;
  };
}

unfoldable pub reserve_specific_port :
    PortEnv → ℕ → String → Bool → Session → Result PortError Session
reserve_specific_port env port owner require_available s = elim (get port s.registry.reservations) [
  | some entry ↦ if entry.owner == owner then ok s else err reserved_by_another
  | none ↦
      if require_available && not (env.can_bind port)
      then err unavailable
      else ok (add_reservation env port owner s)
]

-- The `loop` of `allocate_ephemeral_port`, by recursion on what the operating system offers.
unfoldable pub allocate_from :
    PortEnv → String → List (Option ℕ) → PortReservationRegistry → Result PortError (ℕ × Session)
allocate_from env owner [] r = out_of_fuel
allocate_from env owner (none ∷ offers) r = err bind_failed
allocate_from env owner (some port ∷ offers) r =
    let next = allocate_from env owner offers r in
    if contains_key port r.reservations
    then next
    else ok (port, add_reservation env port owner (record { registry = r; offers = offers }))

unfoldable pub allocate_ephemeral_port : PortEnv → String → Session → Result PortError (ℕ × Session)
allocate_ephemeral_port env owner s = allocate_from env owner s.offers s.registry

-- The port of one service in the loop of `allocate_ports_in_registry`.
unfoldable pub allocate_port :
    PortEnv → String → Option PortConfig → Session → Result PortError (Option ℕ × Session)
allocate_port env owner (some (PortConfig.none_text value)) s = ok (none, s)
allocate_port env owner (some (PortConfig.fixed value)) s = do
  s' ← reserve_specific_port env value owner true s
  ok (some value, s')
allocate_port env owner none s = do
  (port, s') ← allocate_ephemeral_port env owner s
  ok (some port, s')

abbrev pub PortMap : Type 0
PortMap = BTreeMap String (Option ℕ)

unfoldable pub allocate_each :
    PortEnv
    → (String → String)
    → Services
    → PortMap
    → Session
    → Result PortError (PortMap × Session)
allocate_each env owner_for [] allocated s = ok (allocated, s)
allocate_each env owner_for ((name, service) ∷ rest) allocated s = do
  (port, s') ← allocate_port env (owner_for name) service.port s
  allocate_each env owner_for rest (insert name port allocated) s'

unfoldable pub release_entry : ℕ → String → Session → Result PortError Session
release_entry port owner s = elim (get port s.registry.reservations) [
  | some entry ↦
      if entry.owner == owner
      then ok
          (record s { registry = record { reservations = remove port s.registry.reservations } })
      else err reserved_by_another
  | none ↦ ok s
]

-- `with_registry`: the file after the call, and what the action returned. The registry is written back
-- only when the action succeeds.
unfoldable pub with_registry {ℓ} :
    {A : Type ℓ}
    → PortEnv
    → (Session → Result PortError (A × Session))
    → List (Option ℕ)
    → PortReservationRegistry
    → Result PortError A × PortReservationRegistry
with_registry env action offers file =
    elim (action (record { registry = cleanup_stale env file; offers = offers })) [
      | ok (output, s) ↦ (ok output, s.registry)
      | err e ↦ (err e, file)
      | panic ↦ (panic, file)
      | out_of_fuel ↦ (out_of_fuel, file)
    ]

-- An action that returns nothing: `Ok(())`.
abbrev pub returning_unit :
    (Session → Result PortError Session) → Session → Result PortError (Unit {0} × Session)
returning_unit action s = do s' ← action s; ok (tt, s')

unfoldable pub allocate_ports :
    PortEnv
    → Services
    → (String → String)
    → List (Option ℕ)
    → PortReservationRegistry
    → Result PortError PortMap × PortReservationRegistry
allocate_ports env services owner_for = with_registry env (allocate_each env owner_for services [])

unfoldable pub reserve_port :
    PortEnv
    → ℕ
    → String
    → PortReservationRegistry
    → Result PortError (Unit {0}) × PortReservationRegistry
reserve_port env port owner =
    with_registry env (returning_unit (reserve_specific_port env port owner false)) []

unfoldable pub reserve_available_port :
    PortEnv
    → ℕ
    → String
    → PortReservationRegistry
    → Result PortError (Unit {0}) × PortReservationRegistry
reserve_available_port env port owner =
    with_registry env (returning_unit (reserve_specific_port env port owner true)) []

unfoldable pub reserve_ephemeral_port :
    PortEnv
    → String
    → List (Option ℕ)
    → PortReservationRegistry
    → Result PortError ℕ × PortReservationRegistry
reserve_ephemeral_port env owner = with_registry env (allocate_ephemeral_port env owner)

unfoldable pub release_port :
    PortEnv
    → ℕ
    → String
    → PortReservationRegistry
    → Result PortError (Unit {0}) × PortReservationRegistry
release_port env port owner = with_registry env (returning_unit (release_entry port owner)) []
