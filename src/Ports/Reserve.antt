-- ===== src/Ports/Reserve.antt =====
-- src/port.rs: what single operations on the registry do.
use devstack.Common.{
  ℕ, String, ◌≡◌, ap, ◌∙◌, subst, inl, inr, Bool, false, Option, none, some, List, [], ◌∷◌, arith,
  str_key, nat_key, Bool-cases, Option-cases, key_cases, beq_refl,
}
use devstack.Common.BTreeMap.{get, contains_key, get-insert, get_of_not_contains}
use devstack.Common.Outcome.{ok}
use devstack.Ports.{
  PortEnv, PortReservationEntry, PortReservationRegistry, Session, add_reservation, allocate_from,
  reserve_specific_port,
}

-- The owner of a port, where it is reserved.
unfoldable pub owner_of : ℕ → PortReservationRegistry → Option String
owner_of port r = elim (get port r.reservations) [ none ↦ none | some entry ↦ some entry.owner ]

-- The later registry still has every reservation of the earlier one, unchanged.
abbrev pub Extends : PortReservationRegistry → PortReservationRegistry → Type 0
Extends r r' =
    (port : ℕ) (entry : PortReservationEntry)
    → get port r.reservations ≡ some entry
    → get port r'.reservations ≡ some entry

pub Extends-trans : (a b c : PortReservationRegistry) → Extends a b → Extends b c → Extends a c
Extends-trans a b c h k port entry e = k port entry (h port entry e)

pub owner_of-get :
    (port : ℕ) (r : PortReservationRegistry) (entry : PortReservationEntry)
    → get port r.reservations ≡ some entry
    → owner_of port r ≡ some entry.owner
unfolding owner_of
owner_of-get port r entry e = rw (e, owner_of)

pub owner_of_inv :
    (port : ℕ) (r : PortReservationRegistry) (owner : String)
    → owner_of port r ≡ some owner
    → (entry : PortReservationEntry) × (get port r.reservations ≡ some entry)
      × (entry.owner ≡ owner)
unfolding owner_of
owner_of_inv port r owner e = elim (Option-cases (get port r.reservations)) [
  | inl n ↦ cc (rw (n, owner_of) at e)
  | inr (entry, g) ↦ (entry, g, cc (rw (g, owner_of) at e))
]

-- A port keeps its owner.
pub owner_of-Extends :
    (a b : PortReservationRegistry) (port : ℕ) (owner : String)
    → Extends a b
    → owner_of port a ≡ some owner
    → owner_of port b ≡ some owner
owner_of-Extends a b port owner h e =
    let (entry, g, same) = owner_of_inv port a owner e in
    owner_of-get port b entry (h port entry g) ∙ ap some same

module _ (env : PortEnv) (owner : String) where
  add_reservation-Extends :
      (port : ℕ) (s : Session)
      → get port s.registry.reservations ≡ none
      → Extends s.registry (add_reservation env port owner s).registry
  unfolding add_reservation
  add_reservation-Extends port s free q entry e =
      get-insert port q _ s.registry.reservations
      ∙ elim (key_cases port q) [ inl (t, same) ↦ cc (same, free, e) | inr (f, _) ↦ rw f e ]

  add_reservation-owner :
      (port : ℕ) (s : Session)
      → owner_of port (add_reservation env port owner s).registry ≡ some owner
  unfolding add_reservation
  add_reservation-owner port s =
      owner_of-get port (add_reservation env port owner s).registry
        (record { owner = owner; daemon_pid = env.pid })
        (get-insert port port _ s.registry.reservations ∙ rw (beq_refl port))

  pub reserve_specific_port-Extends :
      (port : ℕ) (require_available : Bool) (s s' : Session)
      → reserve_specific_port env port owner require_available s ≡ ok s'
      → Extends s.registry s'.registry × (owner_of port s'.registry ≡ some owner)
  unfolding reserve_specific_port
  reserve_specific_port-Extends port required s s' e =
      elim (Option-cases (get port s.registry.reservations)) [
        | inl free ↦
            let same : add_reservation env port owner s ≡ s' = ground (arith, free) in
            subst
              (λ (t : Session).
                Extends s.registry t.registry × (owner_of port t.registry ≡ some owner))
              same (add_reservation-Extends port s free, add_reservation-owner port s)
        | inr (entry, held) ↦
            let same : s ≡ s' = ground (arith, held) in
            let mine : entry.owner ≡ owner =
              ground (arith, held, str_key.beq_iff entry.owner owner) in
            subst
              (λ (t : Session).
                Extends s.registry t.registry × (owner_of port t.registry ≡ some owner))
              same ((λ q x h. h), owner_of-get port s.registry entry held ∙ ap some mine)
      ]

  pub allocate_from-Extends :
      (offers : List (Option ℕ)) (r : PortReservationRegistry) (port : ℕ) (s' : Session)
      → allocate_from env owner offers r ≡ ok (port, s')
      → Extends r s'.registry
        × (owner_of port s'.registry ≡ some owner)
        × (contains_key port r.reservations ≡ false)
  unfolding allocate_from
  allocate_from-Extends [] r port s' e = cc
  allocate_from-Extends (none ∷ offers) r port s' e = cc
  allocate_from-Extends (some p ∷ offers) r port s' e =
      elim (Bool-cases (contains_key p r.reservations)) [
        | inl t ↦ allocate_from-Extends offers r port s' (rw t at e)
        | inr f ↦
            let s : Session = record { registry = r; offers = offers } in
            let same : ok (p, add_reservation env p owner s) ≡ ok (port, s') = rw f at e in
            let port_same : p ≡ port = cc same in
            let s_same : add_reservation env p owner s ≡ s' = cc same in
            subst
              (λ q.
                Extends r s'.registry
                × (owner_of q s'.registry ≡ some owner)
                × (contains_key q r.reservations ≡ false))
              port_same
              (subst
                (λ (t : Session).
                  Extends r t.registry
                  × (owner_of p t.registry ≡ some owner)
                  × (contains_key p r.reservations ≡ false))
                s_same
                (
                  add_reservation-Extends p s (get_of_not_contains p r.reservations f),
                  add_reservation-owner p s,
                  f,
                ))
      ]
