-- ===== src/Ports/Allocate.antt =====
-- src/port.rs: the ports that `allocate_ports` gives to the services of a run.
use devstack.Common.{
  ℕ, String, ◌≡◌, sym, ap, ◌∙◌, subst, ◌≢◌, inl, inr, true, Option, none, some, List, [], ◌∷◌,
  arith, if◌then◌else◌, str_key, nat_key, key_cases,
}
use devstack.Common.BTreeMap.{get, contains_key, insert, get-insert, contains_key-insert}
use devstack.Common.Outcome.{Result, ok, err, panic, out_of_fuel, bind_ok}
use devstack.Config.Model.{PortConfig}
use devstack.Config.Plan.{Services}
use devstack.Ports.{
  PortEnv, PortMap, PortReservationRegistry, Session, allocate_each, allocate_ephemeral_port,
  allocate_from, allocate_port, reserve_specific_port, PortError, allocate_ports, cleanup_stale,
  with_registry,
}
use devstack.Ports.Reserve.{
  Extends, Extends-trans, allocate_from-Extends, owner_of, owner_of-Extends,
  reserve_specific_port-Extends,
}

pub with_registry_inv {ℓ} :
    {A : Type ℓ} (env : PortEnv) (action : Session → Result PortError (A × Session))
    (offers : List (Option ℕ)) (file file' : PortReservationRegistry) (output : A)
    → with_registry env action offers file ≡ (ok output, file')
    → (s' : Session) × (action (record { registry = cleanup_stale env file; offers = offers })
        ≡ ok (output, s'))
      × (s'.registry ≡ file')
unfolding with_registry
with_registry_inv {A} env action offers file file' output e =
    go (action (record { registry = cleanup_stale env file; offers = offers })) e
  where
    go :
        (r : Result PortError (A × Session))
        → Path
            (Result PortError A × PortReservationRegistry)
            (elim r [
              | ok (o, s) ↦ (ok o, s.registry)
              | err x ↦ (err x, file)
              | panic ↦ (panic, file)
              | out_of_fuel ↦ (out_of_fuel, file)
            ])
            (ok output, file')
        → (s' : Session) × (r ≡ ok (output, s')) × (s'.registry ≡ file')
    go (ok (o, s)) h =
        let same : o ≡ output = cc (ap (λ t. t.0) h) in
        (s, ap (λ z. ok (z, s)) same, ap (λ t. t.1) h)
    go (err x) h = cc (ap (λ t. t.0) h)
    go panic h = cc (ap (λ t. t.0) h)
    go out_of_fuel h = cc (ap (λ t. t.0) h)

module _ (env : PortEnv) where
  allocate_port-Extends :
      (owner : String) (config : Option PortConfig) (s s' : Session) (port : Option ℕ)
      → allocate_port env owner config s ≡ ok (port, s')
      → Extends s.registry s'.registry
        × ((p : ℕ) → port ≡ some p → owner_of p s'.registry ≡ some owner)
  unfolding allocate_port allocate_ephemeral_port
  allocate_port-Extends owner (some (PortConfig.none_text value)) s s' port e =
      let same : s ≡ s' = cc e in
      (subst (λ (t : Session). Extends s.registry t.registry) same (λ q x h. h), λ p h. cc (e, h))
  allocate_port-Extends owner (some (PortConfig.fixed value)) s s' port e =
      let (s₁, r, last) =
        bind_ok (reserve_specific_port env value owner true s) (λ t. ok (some value, t)) e in
      let (extends, mine) = reserve_specific_port-Extends env owner value true s s₁ r in
      let same : s₁ ≡ s' = cc last in
      (
        subst (λ (t : Session). Extends s.registry t.registry) same extends,
        λ p h.
            let q : value ≡ p = cc (last, h) in
            subst (λ (t : Session). owner_of p t.registry ≡ some owner) same
              (subst (λ z. owner_of z s₁.registry ≡ some owner) q mine),
      )
  allocate_port-Extends owner none s s' port e =
      let ((v, s₁), r, last) =
        bind_ok (allocate_from env owner s.offers s.registry) (λ (v, t). ok (some v, t)) e in
      let (extends, mine, fresh) = allocate_from-Extends env owner s.offers s.registry v s₁ r in
      let same : s₁ ≡ s' = cc last in
      (
        subst (λ (t : Session). Extends s.registry t.registry) same extends,
        λ p h.
            let q : v ≡ p = cc (last, h) in
            subst (λ (t : Session). owner_of p t.registry ≡ some owner) same
              (subst (λ z. owner_of z s₁.registry ≡ some owner) q mine),
      )

  module _ (owner_for : String → String) where
    -- Each port that was given to a service is reserved for that service's owner.
    abbrev Owned : PortMap → PortReservationRegistry → Type 0
    Owned allocated r =
        (name : String) (port : ℕ)
        → get name allocated ≡ some (some port)
        → owner_of port r ≡ some (owner_for name)

    Owned-insert :
        (name : String) (port : Option ℕ) (allocated : PortMap) (a b : PortReservationRegistry)
        → Extends a b
        → ((p : ℕ) → port ≡ some p → owner_of p b ≡ some (owner_for name))
        → Owned allocated a
        → Owned (insert name port allocated) b
    Owned-insert name port allocated a b h mine owned other p g = elim (key_cases name other) [
      | inl (t, e) ↦
          let found : port ≡ some p = cc (get-insert name other port allocated, t, g) in
          subst (λ z. owner_of p b ≡ some (owner_for z)) e (mine p found)
      | inr (f, _) ↦
          owner_of-Extends a b p (owner_for other) h
            (owned other p (cc (get-insert name other port allocated, f, g)))
    ]

    allocate_each-Owned :
        (services : Services) (allocated ports : PortMap) (s s' : Session)
        → Owned allocated s.registry
        → allocate_each env owner_for services allocated s ≡ ok (ports, s')
        → Owned ports s'.registry
          × Extends s.registry s'.registry
          × ((name : String)
              → contains_key name ports
                ≡ (if contains_key name services then true else contains_key name allocated))
    unfolding allocate_each
    allocate_each-Owned [] allocated ports s s' owned e =
        let same : allocated ≡ ports = cc e in
        let same' : s ≡ s' = cc e in
        (
          subst (λ (t : Session). Owned ports t.registry) same'
              (subst (λ m. Owned m s.registry) same owned),
          subst (λ (t : Session). Extends s.registry t.registry) same' (λ q x h. h),
          λ name. ap (contains_key name) (sym same),
        )
    allocate_each-Owned ((name, service) ∷ rest) allocated ports s s' owned e =
        let ((port, s₁), r, last) =
          bind_ok (allocate_port env (owner_for name) service.port s)
            (λ (port, t). allocate_each env owner_for rest (insert name port allocated) t) e in
        let (extends, mine) = allocate_port-Extends (owner_for name) service.port s s₁ port r in
        let (owned', extends', has) =
          allocate_each-Owned rest (insert name port allocated) ports s₁ s'
            (Owned-insert name port allocated s.registry s₁.registry extends mine owned) last in
        (
          owned',
          Extends-trans s.registry s₁.registry s'.registry extends extends',
          λ n. has n ∙ rw contains_key-insert (ground arith),
        )

-- Every service gets an entry; a port that is given to a service is reserved for the owner of that
-- service, and no reservation of a live daemon is lost or changed.
pub allocate_ports-Owned :
    (env : PortEnv) (services : Services) (owner_for : String → String) (offers : List (Option ℕ))
    (file file' : PortReservationRegistry) (ports : PortMap)
    → allocate_ports env services owner_for offers file ≡ (ok ports, file')
    → ((name : String) → contains_key name ports ≡ contains_key name services)
      × ((name : String) (port : ℕ)
          → get name ports ≡ some (some port)
          → owner_of port file' ≡ some (owner_for name))
      × Extends (cleanup_stale env file) file'
unfolding allocate_ports with_registry
allocate_ports-Owned env services owner_for offers file file' ports e =
    let start : Session = record { registry = cleanup_stale env file; offers = offers } in
    let (s', r, last) =
      with_registry_inv env (allocate_each env owner_for services []) offers file file' ports e in
    let (owned, extends, has) =
      allocate_each-Owned env owner_for services [] ports start s' (λ name port h. cc h) r in
    (
      (λ name. has name ∙ ground arith),
      (λ name port g.
          subst (λ f. owner_of port f ≡ some (owner_for name)) last (owned name port g)),
      subst (λ f. Extends (cleanup_stale env file) f) last extends,
    )

-- Two services with different owners never get the same port.
pub allocate_ports_distinct :
    (env : PortEnv) (services : Services) (owner_for : String → String) (offers : List (Option ℕ))
    (file file' : PortReservationRegistry) (ports : PortMap) (a b : String) (p q : ℕ)
    → allocate_ports env services owner_for offers file ≡ (ok ports, file')
    → get a ports ≡ some (some p)
    → get b ports ≡ some (some q)
    → owner_for a ≢ owner_for b
    → p ≢ q
allocate_ports_distinct env services owner_for offers file file' ports a b p q e ga gb differ same =
    let (has, owned, extends) =
      allocate_ports-Owned env services owner_for offers file file' ports e in
    let mine : owner_of q file' ≡ some (owner_for a) =
      subst (λ z. owner_of z file' ≡ some (owner_for a)) same (owned a p ga) in
    differ (cc (mine, owned b q gb))
