-- ===== src/Config/Selection/Filtered.antt =====
-- The plans that `filter_to` and `stack_plan_filtered` of src/config/plan.rs return.
use devstack.Common.{
  ℕ, zero, suc, ◌+◌, ◌≤◌, String, ◌≡◌, refl, sym, ap, subst, ◌⊎◌, inl, inr, Bool, true, false, some,
  List, [], ◌∷◌, ◌++◌, arith, if◌then◌else◌, str_key, nat_key, ◌==◌, Bool-cases, Option-cases,
  key_cases, beq_refl, beq-false_of_ne, length, All, length-append, mem,
}
use devstack.Common.BTreeMap.{get, contains_key, retain}
use devstack.Common.Outcome.{ok, err}
use devstack.Config.Model.{ServiceConfig, unknown_service}
use devstack.Config.Plan.{Services}
use devstack.Config.Selection.{close, dep_total, needed_of}
use devstack.Config.Selection.Closure.{IsClosed, Tracks, close-IsClosed, close-least}

-- The dependencies of the services that are not found yet.
remaining : Services → List String → ℕ
remaining [] needed = 0
remaining ((name, service) ∷ rest) needed =
    (if mem name needed then 0 else length service.deps) + remaining rest needed

remaining_mono :
    (services : Services) (name : String) (needed : List String)
    → remaining services (name ∷ needed) ≤ remaining services needed
unfolding remaining
remaining_mono [] name needed = omega arith
remaining_mono ((n, service) ∷ rest) name needed = ground (arith, remaining_mono rest name needed)

remaining_found :
    (services : Services) (name : String) (service : ServiceConfig) (needed : List String)
    → get name services ≡ some service
    → mem name needed ≡ false
    → remaining services (name ∷ needed) + length service.deps ≤ remaining services needed
unfolding remaining
remaining_found [] name service needed g m = cc
remaining_found ((n, s) ∷ rest) name service needed g m = elim (key_cases n name) [
  | inl (t, e) ↦
      let same : s ≡ service = cc (rw t at g) in
      let new : mem n needed ≡ false = subst (λ z. mem z needed ≡ false) (sym e) m in
      let back : (name == n) ≡ true = subst (λ z. (z == n) ≡ true) e (beq_refl n) in
      let lens : length s.deps ≡ length service.deps =
        ap (λ (z : ServiceConfig). length z.deps) same in
      ground (arith, new, back, lens, remaining_mono rest name needed)
  | inr (f, q) ↦
      let back : (name == n) ≡ false = beq-false_of_ne name n (λ e. q (sym e)) in
      ground (arith, back, remaining_found rest name service needed (rw f at g) m)
]

remaining_start : (services : Services) → remaining services [] ≡ dep_total services
unfolding remaining dep_total
remaining_start [] = refl
remaining_start ((n, s) ∷ rest) = ground (arith, remaining_start rest)

close_total :
    (services : Services) (fuel : ℕ) (queue needed : List String)
    → length queue + remaining services needed ≤ fuel
    → ((found : List String) × (close fuel services queue needed ≡ ok found))
      ⊎ (close fuel services queue needed ≡ err unknown_service)
unfolding close
close_total services zero [] needed h = inl (needed, refl)
close_total services (suc fuel) [] needed h = inl (needed, refl)
close_total services zero (name ∷ queue) needed h = absurd (omega arith)
close_total services (suc fuel) (name ∷ queue) needed h = elim (Option-cases (get name services)) [
  | inl n ↦ inr (rw (n, close))
  | inr (service, s) ↦ elim (Bool-cases (mem name needed)) [
    | inl old ↦ rw (s, close) (rw old (close_total services fuel queue needed (omega arith)))
    | inr new ↦
        rw (s, close)
          (rw new (
            close_total services fuel (queue ++ service.deps) (name ∷ needed) (
              omega (
                arith,
                length-append queue service.deps,
                remaining_found services name service needed s new,
              ))))
  ]
]

-- The search ends: it returns a set, or the error on an unknown service.
pub needed_of_total :
    (services : Services) (targets : List String)
    → ((needed : List String) × (needed_of services targets ≡ ok needed))
      ⊎ (needed_of services targets ≡ err unknown_service)
unfolding needed_of
needed_of_total services targets =
    close_total services _ targets [] (omega (arith, remaining_start services))

module _ (services : Services) (targets needed : List String)
    (found : needed_of services targets ≡ ok needed) where
  Tracks-start : Tracks services [] targets
  Tracks-start = record { known = λ n m. cc; follows = λ n s m g d l. cc }

  pub needed_of-IsClosed :
      IsClosed services (λ n. mem n needed ≡ true)
      × ((t : String) → mem t targets ≡ true → mem t needed ≡ true)
  unfolding needed_of
  needed_of-IsClosed = close-IsClosed services _ targets [] needed Tracks-start found

  pub needed_of-least {ℓ} :
      (P : String → Type ℓ) → IsClosed services P → All P targets → All P needed
  unfolding needed_of
  needed_of-least P closed t = close-least services P closed _ targets [] needed t tt found

pub All-get {ℓ} :
    (P : String → Type ℓ) (names : List String)
    → All P names
    → (n : String) → mem n names ≡ true
    → P n
All-get P [] h n m = cc
All-get P (x ∷ names) h n m = elim (key_cases x n) [
  | inl (t, e) ↦ subst P e h.0
  | inr (f, _) ↦ All-get P names h.1 n (rw f at m)
]

pub contains_key-retain :
    (p : String → Bool) (services : Services) (y : String)
    → contains_key y (retain (λ name _. p name) services)
      ≡ (if p y then contains_key y services else false)
unfolding retain
contains_key-retain p [] y = ground arith
contains_key-retain p ((n, s) ∷ rest) y = elim (key_cases n y) [
  | inl (t, e) ↦
      subst
        (λ z.
          contains_key z (retain (λ name _. p name) ((n, s) ∷ rest))
          ≡ (if p z then contains_key z ((n, s) ∷ rest) else false))
        e (ground (arith, beq_refl n, contains_key-retain p rest n))
  | inr (f, _) ↦ ground (arith, f, contains_key-retain p rest y)
]
