-- ===== src/App/Launch/Ports/Kept.antt =====
-- src/app/launch/prepare.rs: the ports that a refresh leaves as they are decided.
use devstack.Common.{
  ℕ, String, ◌≡◌, refl, sym, ap, ◌∙◌, subst, ◌≢◌, inl, inr, Bool, true, false, Option, none, some,
  List, [], ◌∷◌, str_key, nat_key, key_cases, beq-false_of_ne,
}
use devstack.Common.BTreeMap.{get, contains_key, insert, IsUnique, get-insert, contains_key-insert}
use devstack.Common.Outcome.{Result, ok, err, panic, out_of_fuel}
use devstack.Config.Model.{ServiceConfig}
use devstack.Config.Plan.{Services}
use devstack.Ports.{PortEnv, PortError, PortMap, PortReservationRegistry}
use devstack.Ports.Allocate.{allocate_ports-Owned}
use devstack.App.Launch.Ports.{
  Choice, decided, needs_port, choose_port, port_of, with_need, Resolved, after_reply, resolve_each,
  insert_all, allocate_needs, send, with_allocated, allocate_ports, resolve_ports_for_refresh,
  port_owner, PortConfig,
}

after_reply_inv :
    (reply : Result PortError (Unit {0})) (file file' : PortReservationRegistry) (rest : Resolved)
    (output : PortMap × Services)
    → after_reply reply file rest ≡ (ok output, file')
    → rest ≡ (ok output, file')
after_reply_inv (ok done) file file' rest output h = h
after_reply_inv (err e) file file' rest output h = cc (ap (λ z. z.0) h)
after_reply_inv panic file file' rest output h = cc (ap (λ z. z.0) h)
after_reply_inv out_of_fuel file file' rest output h = cc (ap (λ z. z.0) h)

ok_ports :
    {a b : PortMap × Services}
    → ◌≡◌ {A = Result PortError (PortMap × Services)} (ok a) (ok b)
    → a ≡ b
ok_ports h = cc

contains_key-with_need :
    (choice : Choice) (name c : String) (service : ServiceConfig) (needs : Services)
    → name ≢ c
    → contains_key c (with_need choice name service needs) ≡ contains_key c needs
contains_key-with_need (decided port) name c service needs n = refl
contains_key-with_need needs_port name c service needs n =
    contains_key-insert name c service needs ∙ rw (beq-false_of_ne name c n) refl

module _ (env : PortEnv) (run_id : String) (existing : String → Option ℕ) (reuse : Bool)
    (c : String) where
  -- The services that are still to come do not touch the entry of another.
  resolve_each-other :
      (services : Services) (ports ports' : PortMap) (needs needs' : Services)
      (file file' : PortReservationRegistry)
      → contains_key c services ≡ false
      → resolve_each env run_id existing reuse services ports needs file
        ≡ (ok (ports', needs'), file')
      → (get c ports' ≡ get c ports) × (contains_key c needs' ≡ contains_key c needs)
  unfolding resolve_each
  resolve_each-other [] ports ports' needs needs' file file' absent h =
      let same = ok_ports (ap (λ z. z.0) h) in
      (ap (λ z. get c z.0) (sym same), ap (λ z. contains_key c z.1) (sym same))
  resolve_each-other ((name, service) ∷ services) ports ports' needs needs' file file' absent h =
      let choice = (choose_port reuse (existing name) service.port).0 in
      elim (key_cases name c) [
        | inl (t, e) ↦ cc (rw t at absent)
        | inr (f, n) ↦
            let (p, q) =
              resolve_each-other services _ ports' _ needs' _ file' (rw f at absent)
                (after_reply_inv _ _ file' _ (ports', needs') h) in
            (
              p ∙ get-insert name c (port_of choice) ports ∙ rw f refl,
              q ∙ contains_key-with_need choice name c service needs n,
            )
      ]

  resolve_each-decided :
      (services : Services) (ports ports' : PortMap) (needs needs' : Services)
      (file file' : PortReservationRegistry) (service : ServiceConfig) (port : Option ℕ)
      → IsUnique services
      → get c services ≡ some service
      → (choose_port reuse (existing c) service.port).0 ≡ decided port
      → contains_key c needs ≡ false
      → resolve_each env run_id existing reuse services ports needs file
        ≡ (ok (ports', needs'), file')
      → (get c ports' ≡ some port) × (contains_key c needs' ≡ false)
  unfolding resolve_each
  resolve_each-decided [] ports ports' needs needs' file file' service port u g d fresh h = cc
  resolve_each-decided ((name, w) ∷ services) ports ports' needs needs' file file' service port u g
        d fresh h =
      let (choice, request) = choose_port reuse (existing name) w.port in
      let (reply, file₁) = send env (port_owner run_id name) request file in
      let ports₁ : PortMap = insert name (port_of choice) ports in
      let needs₁ : Services = with_need choice name w needs in
      let rest =
        after_reply_inv reply file₁ file'
          (resolve_each env run_id existing reuse services ports₁ needs₁ file₁) (ports', needs')
          h in
      elim (key_cases name c) [
        | inl (t, e) ↦
            let same : w ≡ service = cc (rw t at g) in
            let settled : choice ≡ decided port =
              ap (λ n. (choose_port reuse (existing n) w.port).0) e
              ∙ ap (λ (z : ServiceConfig). (choose_port reuse (existing c) z.port).0) same
              ∙ d in
            let (p, q) =
              resolve_each-other services ports₁ ports' needs₁ needs' file₁ file'
                (subst (λ z. contains_key z services ≡ false) e u.0) rest in
            (
              p
                  ∙ get-insert name c (port_of choice) ports
                  ∙ rw t (ap (λ z. some (port_of z)) settled),
              q ∙ ap (λ z. contains_key c (with_need z name w needs)) settled ∙ fresh,
            )
        | inr (f, n) ↦
            resolve_each-decided services ports₁ ports' needs₁ needs' file₁ file' service port u.1
              (rw f at g) d (contains_key-with_need choice name c w needs n ∙ fresh) rest
      ]

get-insert_all :
    (allocated ports : PortMap) (c : String)
    → contains_key c allocated ≡ false
    → get c (insert_all allocated ports) ≡ get c ports
unfolding insert_all
get-insert_all [] ports c h = refl
get-insert_all ((name, port) ∷ allocated) ports c h = elim (key_cases name c) [
  | inl (t, e) ↦ cc (rw t at h)
  | inr (f, n) ↦
      get-insert_all allocated (insert name port ports) c (rw f at h)
      ∙ get-insert name c port ports
      ∙ rw f refl
]

ok_map : {a b : PortMap} → ◌≡◌ {A = Result PortError PortMap} (ok a) (ok b) → a ≡ b
ok_map h = cc

with_allocated_inv :
    (ports' ports : PortMap) (file : PortReservationRegistry)
    (reply : Result PortError PortMap × PortReservationRegistry)
    → with_allocated ports' reply ≡ (ok ports, file)
    → (allocated : PortMap) × (reply ≡ (ok allocated, file)) × (insert_all allocated ports' ≡ ports)
with_allocated_inv ports' ports file (ok allocated, file₀) h =
    (allocated, ap (λ z. (ok allocated, z)) (ap (λ z. z.1) h), ok_map (ap (λ z. z.0) h))
with_allocated_inv ports' ports file (err e, file₀) h = cc (ap (λ z. z.0) h)
with_allocated_inv ports' ports file (panic, file₀) h = cc (ap (λ z. z.0) h)
with_allocated_inv ports' ports file (out_of_fuel, file₀) h = cc (ap (λ z. z.0) h)

-- What the allocation adds does not touch the entry of a service that needs no port.
allocate_needs-get :
    (env : PortEnv) (run_id c : String) (offers : List (Option ℕ)) (resolved : Resolved)
    (ports : PortMap) (file : PortReservationRegistry)
    → allocate_needs env run_id offers resolved ≡ (ok ports, file)
    → (ports' : PortMap) × (needs : Services) × (file' : PortReservationRegistry) × (resolved
        ≡ (ok (ports', needs), file'))
      × (contains_key c needs ≡ false → get c ports ≡ get c ports')
unfolding allocate_needs
allocate_needs-get env run_id c offers (err e, file₀) ports file h = cc (ap (λ z. z.0) h)
allocate_needs-get env run_id c offers (panic, file₀) ports file h = cc (ap (λ z. z.0) h)
allocate_needs-get env run_id c offers (out_of_fuel, file₀) ports file h = cc (ap (λ z. z.0) h)
allocate_needs-get env run_id c offers (ok (ports', []), file₀) ports file h =
    (ports', [], file₀, refl, λ n. ap (get c) (sym (ok_map (ap (λ z. z.0) h))))
allocate_needs-get env run_id c offers (ok (ports', need ∷ needs), file₀) ports file h =
    let (allocated, e, same) =
      with_allocated_inv ports' ports file
        (allocate_ports env (need ∷ needs) (port_owner run_id) offers file₀) h in
    let (has, owned, kept) =
      allocate_ports-Owned env (need ∷ needs) (port_owner run_id) offers file₀ file allocated e in
    (
      ports',
      need ∷ needs,
      file₀,
      refl,
      λ n. ap (get c) (sym same) ∙ get-insert_all allocated ports' c (has c ∙ n),
    )

-- The port that is known before any is allocated: the service's own, none where it wants none, or the one
-- that it had.
abbrev pub known_port : Bool → Option ℕ → Option PortConfig → Option (Option ℕ)
known_port reuse existing (some (PortConfig.fixed value)) = some (some value)
known_port reuse existing (some (PortConfig.none_text value)) = some none
known_port true (some port) none = some (some port)
known_port true none none = none
known_port false existing none = none

choose_port-known :
    (reuse : Bool) (existing : Option ℕ) (config : Option PortConfig) (port : Option ℕ)
    → known_port reuse existing config ≡ some port
    → (choose_port reuse existing config).0 ≡ decided port
unfolding choose_port
choose_port-known reuse existing (some (PortConfig.fixed value)) port h = cc
choose_port-known reuse existing (some (PortConfig.none_text value)) port h = cc
choose_port-known true (some old) none port h = cc
choose_port-known true none none port h = cc
choose_port-known false existing none port h = cc

-- When the ports of a refresh are resolved, a service with a port of its own has that port, a service
-- that wants none has none, and where the run's ports are used again, a service that had a port keeps it,
-- whatever is reserved and allocated for the other services. No two services have one name.
pub resolve_ports_for_refresh-known :
    (env : PortEnv) (run_id c : String) (existing : String → Option ℕ) (reuse : Bool)
    (offers : List (Option ℕ)) (services : Services) (file file' : PortReservationRegistry)
    (ports : PortMap) (service : ServiceConfig) (port : Option ℕ)
    → IsUnique services
    → resolve_ports_for_refresh env run_id existing reuse offers services file ≡ (ok ports, file')
    → get c services ≡ some service
    → known_port reuse (existing c) service.port ≡ some port
    → get c ports ≡ some port
unfolding resolve_ports_for_refresh
resolve_ports_for_refresh-known env run_id c existing reuse offers services file file' ports service
      port u h g d =
    let (ports', needs, file₁, e, same) =
      allocate_needs-get env run_id c offers
        (resolve_each env run_id existing reuse services [] [] file) ports file' h in
    let (here, quiet) =
      resolve_each-decided env run_id existing reuse c services [] ports' [] needs file file₁
        service port u g (choose_port-known reuse (existing c) service.port port d) refl e in
    same quiet ∙ here
