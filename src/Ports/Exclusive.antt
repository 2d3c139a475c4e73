-- ===== src/Ports/Exclusive.antt =====
-- src/port.rs: who may take and who may give back a port that is reserved.
use devstack.Common.{
  ℕ, String, ◌≡◌, sym, ◌∙◌, subst, ◌≢◌, inl, inr, Bool, true, false, none, some, [], arith, str_key,
  nat_key, ◌==◌, Bool-cases, Option-cases, key_cases, beq_refl, beq-false_of_ne,
}
use devstack.Common.BTreeMap.{
  get, remove, IsUnique, get-insert, get-remove, IsUnique-insert, IsUnique-retain, get-retain,
}
use devstack.Common.Outcome.{Result, ok, err, bind_ok}
use devstack.Ports.{
  PortEnv, PortReservationEntry, PortReservationRegistry, Session, add_reservation, cleanup_stale,
  is_pid_alive, release_entry, release_port, reserve_port, reserve_specific_port,
  reserved_by_another, returning_unit, with_registry, PortError,
}
use devstack.Ports.Reserve.{owner_of, owner_of_inv, reserve_specific_port-Extends}
use devstack.Ports.Allocate.{with_registry_inv}

module _ (env : PortEnv) where
  -- A registry as `cleanup_stale` leaves it.
  pub record IsClean (r : PortReservationRegistry) : Type 0 where
    pub unique : IsUnique r.reservations
    pub alive :
        (port : ℕ) (entry : PortReservationEntry)
        → get port r.reservations ≡ some entry
        → is_pid_alive env entry.daemon_pid ≡ true

  cleanup_stale-IsClean :
      (r : PortReservationRegistry) → IsUnique r.reservations → IsClean (cleanup_stale env r)
  unfolding cleanup_stale
  cleanup_stale-IsClean r u = record {
    unique = IsUnique-retain _ r.reservations u;
    alive = λ port entry e.
        let kept = get-retain (λ p x. is_pid_alive env x.daemon_pid) port r.reservations u in
        elim (Option-cases (get port r.reservations)) [
          | inl n ↦ cc (rw n at kept, e)
          | inr (x, g) ↦ elim (Bool-cases (is_pid_alive env x.daemon_pid)) [
            | inl t ↦
                let same : x ≡ entry = cc (rw (g, t) at kept, e) in
                subst (λ (z : PortReservationEntry). is_pid_alive env z.daemon_pid ≡ true) same t
            | inr f ↦ cc (rw (g, f) at kept, e)
          ]
        ];
  }

  -- What the daemons of a clean registry hold outlives the next cleanup.
  cleanup_stale-get :
      (r : PortReservationRegistry) (port : ℕ)
      → IsClean r
      → get port (cleanup_stale env r).reservations ≡ get port r.reservations
  unfolding cleanup_stale
  cleanup_stale-get r port c =
      get-retain (λ p x. is_pid_alive env x.daemon_pid) port r.reservations c.unique
      ∙ elim (Option-cases (get port r.reservations)) [
        | inl n ↦ rw n
        | inr (x, g) ↦ rw g (rw (c.alive port x g))
      ]

  reserve_specific_port-IsClean :
      (port : ℕ) (owner : String) (required : Bool) (s s' : Session)
      → is_pid_alive env env.pid ≡ true
      → IsClean s.registry
      → reserve_specific_port env port owner required s ≡ ok s'
      → IsClean s'.registry
  unfolding reserve_specific_port add_reservation
  reserve_specific_port-IsClean port owner required s s' up c e =
      elim (Option-cases (get port s.registry.reservations)) [
        | inl free ↦
            let entry : PortReservationEntry = record { owner = owner; daemon_pid = env.pid } in
            let same : add_reservation env port owner s ≡ s' = ground (arith, free) in
            subst (λ (t : Session). IsClean t.registry) same
              (record {
                unique = IsUnique-insert port entry s.registry.reservations c.unique;
                alive = λ q x g. elim (key_cases port q) [
                  | inl (t, _) ↦
                      let here : entry ≡ x =
                        cc (rw t at (get-insert port q entry s.registry.reservations), g) in
                      subst (λ (z : PortReservationEntry). is_pid_alive env z.daemon_pid ≡ true)
                        here up
                  | inr (f, _) ↦
                      c.alive q x
                        (sym (rw f at (get-insert port q entry s.registry.reservations)) ∙ g)
                ];
              })
        | inr (entry, held) ↦
            let same : s ≡ s' = ground (arith, held) in
            subst (λ (t : Session). IsClean t.registry) same c
      ]

  -- What is known of the file once a port is reserved.
  pub record Reserved (port : ℕ) (owner : String) (file : PortReservationRegistry) : Type 0 where
    pub clean : IsClean file
    pub owned : owner_of port file ≡ some owner

  reserve_port-Reserved :
      (port : ℕ) (owner : String) (file file' : PortReservationRegistry)
      → IsUnique file.reservations
      → is_pid_alive env env.pid ≡ true
      → reserve_port env port owner file ≡ (ok tt, file')
      → Reserved port owner file'
  unfolding reserve_port
  reserve_port-Reserved port owner file file' u up e =
      let start : Session = record { registry = cleanup_stale env file; offers = [] } in
      let (s', r, last) =
        with_registry_inv env (returning_unit (reserve_specific_port env port owner false)) [] file
          file' tt e in
      let (s₁, r₁, same) =
        bind_ok (reserve_specific_port env port owner false start) (λ s. ok (tt, s)) r in
      let same' : s₁ ≡ s' = cc same in
      let clean =
        reserve_specific_port-IsClean port owner false start s₁ up (cleanup_stale-IsClean file u)
          r₁ in
      let (extends, mine) = reserve_specific_port-Extends env owner port false start s₁ r₁ in
      subst (Reserved port owner) last (
        subst (λ (t : Session). Reserved port owner t.registry) same'
          (record { clean = clean; owned = mine }))

  start_of : PortReservationRegistry → Session
  start_of file = record { registry = cleanup_stale env file; offers = [] }

  -- A call of the public operations from what its action does.
  with_unit_err :
      (action : Session → Result PortError Session) (file : PortReservationRegistry) (e : PortError)
      → action (start_of file) ≡ err e
      → with_registry env (returning_unit action) [] file ≡ (err e, file)
  unfolding with_registry start_of
  with_unit_err action file e h = rw (h, with_registry)

  with_unit_ok :
      (action : Session → Result PortError Session) (file : PortReservationRegistry) (s : Session)
      → action (start_of file) ≡ ok s
      → with_registry env (returning_unit action) [] file ≡ (ok tt, s.registry)
  unfolding with_registry start_of
  with_unit_ok action file s h = rw (h, with_registry)

  module _ (port : ℕ) (owner : String) (file : PortReservationRegistry)
      (h : Reserved port owner file) where
    held_entry :
        (entry : PortReservationEntry) × (get port (start_of file).registry.reservations
          ≡ some entry)
        × (entry.owner ≡ owner)
    unfolding start_of
    held_entry =
        let (entry, g, mine) = owner_of_inv port file owner h.owned in
        (entry, cleanup_stale-get file port h.clean ∙ g, mine)

    -- The owner gives it back: the port is free, and all other reservations stay.
    freed :
        (file' : PortReservationRegistry) × (release_port env port owner file ≡ (ok tt, file'))
        × (owner_of port file' ≡ none)
        × ((q : ℕ) → port ≢ q → get q file'.reservations ≡ get q file.reservations)
    unfolding release_port release_entry owner_of start_of
    freed =
        let (entry, there, mine) = held_entry in
        let same : (entry.owner == owner) ≡ true = (str_key.beq_iff entry.owner owner).1 mine in
        let left : PortReservationRegistry = record {
          reservations = remove port (cleanup_stale env file).reservations;
        } in
        (
          left,
          with_unit_ok (release_entry port owner) file (record { registry = left; offers = [] })
              (rw (there, release_entry) (rw same)),
          rw (get-remove port port (cleanup_stale env file).reservations, owner_of)
              (rw (beq_refl port)),
          λ q ne.
              get-remove port q (cleanup_stale env file).reservations
              ∙ rw (beq-false_of_ne port q ne) (cleanup_stale-get file q h.clean),
        )

-- What a call of any daemon finds under a port whose holder is alive.
cleanup_stale-holds :
    (env : PortEnv) (port : ℕ) (entry : PortReservationEntry) (file : PortReservationRegistry)
    → IsUnique file.reservations
    → get port file.reservations ≡ some entry
    → is_pid_alive env entry.daemon_pid ≡ true
    → get port (start_of env file).registry.reservations ≡ some entry
unfolding cleanup_stale start_of
cleanup_stale-holds env port entry file u g alive =
    get-retain (λ p x. is_pid_alive env x.daemon_pid) port file.reservations u ∙ rw g (rw alive)

-- Another owner can neither reserve the port nor give it back: the calls of any daemon fail, and the
-- file is left as it was.
refused :
    (env : PortEnv) (port : ℕ) (owner other : String) (file : PortReservationRegistry)
    → IsUnique file.reservations
    → owner_of port file ≡ some owner
    → ((entry : PortReservationEntry)
        → get port file.reservations ≡ some entry
        → is_pid_alive env entry.daemon_pid ≡ true)
    → owner ≢ other
    → (reserve_port env port other file ≡ (err reserved_by_another, file))
      × (release_port env port other file ≡ (err reserved_by_another, file))
unfolding reserve_port release_port reserve_specific_port release_entry
refused env port owner other file u owned alive ne =
    let (entry, g, mine) = owner_of_inv port file owner owned in
    let there = cleanup_stale-holds env port entry file u g (alive entry g) in
    let differs : (entry.owner == other) ≡ false =
      beq-false_of_ne entry.owner other (λ e. ne (sym mine ∙ e)) in
    (
      with_unit_err env (reserve_specific_port env port other false) file reserved_by_another
          (rw (there, reserve_specific_port) (rw differs)),
      with_unit_err env (release_entry port other) file reserved_by_another
          (rw (there, release_entry) (rw differs)),
    )

-- Once a daemon that is alive has reserved a port for an owner, no daemon, the same or another, can
-- reserve it for another owner or give it back for one, while the daemon that the file names for the port
-- is alive: both calls fail and leave the file as it was.
-- Each port has one entry in the file at first.
pub reserve_port_exclusive :
    (env env' : PortEnv) (port : ℕ) (owner other : String) (file file' : PortReservationRegistry)
    → IsUnique file.reservations
    → is_pid_alive env env.pid ≡ true
    → owner ≢ other
    → reserve_port env port owner file ≡ (ok tt, file')
    → ((entry : PortReservationEntry)
        → get port file'.reservations ≡ some entry
        → is_pid_alive env' entry.daemon_pid ≡ true)
    → (reserve_port env' port other file' ≡ (err reserved_by_another, file'))
      × (release_port env' port other file' ≡ (err reserved_by_another, file'))
reserve_port_exclusive env env' port owner other file file' u up ne e alive =
    let reserved = reserve_port-Reserved env port owner file file' u up e in
    refused env' port owner other file' reserved.clean.unique reserved.owned alive ne

-- What an owner reserved it can give back: the port is free then, and no other reservation changes.
-- The daemon is alive, and each port has one entry in the file at first.
pub release_port-reserve_port :
    (env : PortEnv) (port : ℕ) (owner : String) (file file' : PortReservationRegistry)
    → IsUnique file.reservations
    → is_pid_alive env env.pid ≡ true
    → reserve_port env port owner file ≡ (ok tt, file')
    → (file'' : PortReservationRegistry) × (release_port env port owner file' ≡ (ok tt, file''))
      × (owner_of port file'' ≡ none)
      × ((q : ℕ) → port ≢ q → get q file''.reservations ≡ get q file'.reservations)
release_port-reserve_port env port owner file file' u up e =
    freed env port owner file' (reserve_port-Reserved env port owner file file' u up e)
