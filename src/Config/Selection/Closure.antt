-- ===== src/Config/Selection/Closure.antt =====
-- The names that `filter_to` of src/config/plan.rs finds are the least set that holds the targets and,
-- with a service, its dependencies.
use devstack.Common.{
  ℕ, zero, suc, String, ◌≡◌, subst, ◌≢◌, inl, inr, Bool, true, some, List, [], ◌∷◌, ◌++◌, arith,
  if◌then◌else◌, str_key, nat_key, Bool-cases, Option-cases, key_cases, beq_refl, All, mem,
  mem-append,
}
use devstack.Common.BTreeMap.{get, contains_key, get_of_contains_key, contains_key_of_get}
use devstack.Common.Outcome.{ok, err}
use devstack.Config.Model.{ServiceConfig, ConfigError}
use devstack.Config.Plan.{Services}
use devstack.Config.Selection.{close}

-- A set of names that holds each dependency of its services, all of them in the stack.
pub record IsClosed {ℓ} (services : Services) (P : String → Type ℓ) : Type ℓ where
  pub present : (name : String) → P name → contains_key name services ≡ true
  pub deps :
      (name : String) (service : ServiceConfig)
      → P name
      → get name services ≡ some service
      → All P service.deps

All-append {ℓ κ} :
    {A : Type ℓ} (P : A → Type κ) (xs ys : List A) → All P xs → All P ys → All P (xs ++ ys)
All-append P [] ys p q = q
All-append P (x ∷ xs) ys p q = (p.0, All-append P xs ys p.1 q)

module _ (services : Services) where
  -- Whatever closed set the queue lies in, what is found lies in it too.
  pub close-least {ℓ} :
      (P : String → Type ℓ) (closed : IsClosed services P) (fuel : ℕ)
      (queue needed found : List String)
      → All P queue
      → All P needed
      → close fuel services queue needed ≡ ok found
      → All P found
  unfolding close
  close-least P closed zero [] needed found q n e = subst (All P) (cc e) n
  close-least P closed (suc fuel) [] needed found q n e = subst (All P) (cc e) n
  close-least P closed zero (name ∷ queue) needed found q n e = cc
  close-least P closed (suc fuel) (name ∷ queue) needed found q n e =
      let (service, s) = get_of_contains_key name services (closed.present name q.0) in
      let run : close fuel services (if mem name needed then queue else queue ++ service.deps)
            (if mem name needed then needed else name ∷ needed)
          ≡ ok found =
        rw (s, close) at e in
      elim (Bool-cases (mem name needed)) [
        | inl old ↦ close-least P closed fuel queue needed found q.1 n (rw old at run)
        | inr new ↦
            close-least P closed fuel (queue ++ service.deps) (name ∷ needed) found
              (All-append P queue service.deps q.1 (closed.deps name service q.0 s)) (q.0, n)
              (rw new at run)
      ]

  -- Names of a closed set are found in the stack: there is no error on the way.
  pub close-ne-err {ℓ} :
      (P : String → Type ℓ) (closed : IsClosed services P) (fuel : ℕ) (queue needed : List String)
      (error : ConfigError)
      → All P queue
      → close fuel services queue needed ≢ err error
  unfolding close
  close-ne-err P closed zero [] needed error q e = cc
  close-ne-err P closed (suc fuel) [] needed error q e = cc
  close-ne-err P closed zero (name ∷ queue) needed error q e = cc
  close-ne-err P closed (suc fuel) (name ∷ queue) needed error q e =
      let (service, s) = get_of_contains_key name services (closed.present name q.0) in
      let run : close fuel services (if mem name needed then queue else queue ++ service.deps)
            (if mem name needed then needed else name ∷ needed)
          ≡ err error =
        rw (s, close) at e in
      elim (Bool-cases (mem name needed)) [
        | inl old ↦ close-ne-err P closed fuel queue needed error q.1 (rw old at run)
        | inr new ↦
            close-ne-err P closed fuel (queue ++ service.deps) (name ∷ needed) error
              (All-append P queue service.deps q.1 (closed.deps name service q.0 s)) (rw new at run)
      ]

  -- A name that is found, or still queued.
  abbrev pub covered : List String → List String → String → Bool
  covered needed queue d = if mem d needed then true else mem d queue

  covered_old :
      (name d : String) (needed queue : List String)
      → mem name needed ≡ true
      → covered needed (name ∷ queue) d ≡ true
      → covered needed queue d ≡ true
  covered_old name d needed queue old c = elim (key_cases name d) [
    | inl (t, e) ↦ rw (subst (λ z. mem z needed ≡ true) e old)
    | inr (f, n) ↦ ground (arith, c, f)
  ]

  covered_new :
      (name d : String) (needed queue deps : List String)
      → covered needed (name ∷ queue) d ≡ true
      → covered (name ∷ needed) (queue ++ deps) d ≡ true
  covered_new name d needed queue deps c = ground (arith, c, mem-append d queue deps)

  covered_dep :
      (name d : String) (needed queue deps : List String)
      → mem d deps ≡ true
      → covered (name ∷ needed) (queue ++ deps) d ≡ true
  covered_dep name d needed queue deps m = ground (arith, m, mem-append d queue deps)

  -- Each name found is a service, and its dependencies are found or queued.
  pub record Tracks (needed queue : List String) : Type 0 where
    pub known : (name : String) → mem name needed ≡ true → contains_key name services ≡ true
    pub follows :
        (name : String) (service : ServiceConfig)
        → mem name needed ≡ true
        → get name services ≡ some service
        → (d : String) → mem d service.deps ≡ true
        → covered needed queue d ≡ true

  Tracks-old :
      (name : String) (needed queue : List String)
      → mem name needed ≡ true
      → Tracks needed (name ∷ queue)
      → Tracks needed queue
  Tracks-old name needed queue old t = record {
    known = t.known;
    follows = λ n s m g d l. covered_old name d needed queue old (t.follows n s m g d l);
  }

  Tracks-new :
      (name : String) (service : ServiceConfig) (needed queue : List String)
      → get name services ≡ some service
      → Tracks needed (name ∷ queue)
      → Tracks (name ∷ needed) (queue ++ service.deps)
  Tracks-new name service needed queue found t = record {
    known = λ n m. elim (key_cases name n) [
      | inl (_, e) ↦
          subst (λ z. contains_key z services ≡ true) e
            (contains_key_of_get name services service found)
      | inr (f, _) ↦ t.known n (rw f at m)
    ];
    follows = λ n s m g d l. elim (key_cases name n) [
      | inl (_, e) ↦
          let same : s ≡ service = cc (found, g, e) in
          covered_dep name d needed queue service.deps
            (subst (λ (z : ServiceConfig). mem d z.deps ≡ true) same l)
      | inr (f, _) ↦ covered_new name d needed queue service.deps (t.follows n s (rw f at m) g d l)
    ];
  }

  pub All-mem :
      (found deps : List String)
      → ((d : String) → mem d deps ≡ true → mem d found ≡ true)
      → All (λ d. mem d found ≡ true) deps
  All-mem found [] h = tt
  All-mem found (x ∷ deps) h =
      (h x (rw (beq_refl x)), All-mem found deps (λ d m. h d (ground arith)))

  Tracks-IsClosed :
      (found : List String) → Tracks found [] → IsClosed services (λ n. mem n found ≡ true)
  Tracks-IsClosed found t = record {
    present = t.known;
    deps = λ n s m g. All-mem found s.deps (λ d l. ground (arith, t.follows n s m g d l));
  }

  -- What is found is closed, and holds all that was found or queued before.
  pub close-IsClosed :
      (fuel : ℕ) (queue needed found : List String)
      → Tracks needed queue
      → close fuel services queue needed ≡ ok found
      → IsClosed services (λ n. mem n found ≡ true)
        × ((d : String) → covered needed queue d ≡ true → mem d found ≡ true)
  unfolding close
  close-IsClosed zero [] needed found t e =
      let same : needed ≡ found = cc e in
      (
        Tracks-IsClosed found (subst (λ l. Tracks l []) same t),
        λ d c. subst (λ l. mem d l ≡ true) same (ground (arith, c)),
      )
  close-IsClosed (suc fuel) [] needed found t e =
      let same : needed ≡ found = cc e in
      (
        Tracks-IsClosed found (subst (λ l. Tracks l []) same t),
        λ d c. subst (λ l. mem d l ≡ true) same (ground (arith, c)),
      )
  close-IsClosed zero (name ∷ queue) needed found t e = cc
  close-IsClosed (suc fuel) (name ∷ queue) needed found t e =
      elim (Option-cases (get name services)) [
        | inl n ↦ cc (rw (n, close) at e)
        | inr (service, s) ↦
            let run : close fuel services (if mem name needed then queue else queue ++ service.deps)
                  (if mem name needed then needed else name ∷ needed)
                ≡ ok found =
              rw (s, close) at e in
            elim (Bool-cases (mem name needed)) [
              | inl old ↦
                  let (closed, grows) =
                    close-IsClosed fuel queue needed found (Tracks-old name needed queue old t)
                      (rw old at run) in
                  (closed, λ d c. grows d (covered_old name d needed queue old c))
              | inr new ↦
                  let (closed, grows) =
                    close-IsClosed fuel (queue ++ service.deps) (name ∷ needed) found
                      (Tracks-new name service needed queue s t) (rw new at run) in
                  (closed, λ d c. grows d (covered_new name d needed queue service.deps c))
            ]
      ]
