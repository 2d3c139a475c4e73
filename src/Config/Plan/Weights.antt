-- ===== src/Config/Plan/Weights.antt =====
-- How many dependencies of a service pass a test: the number that the in-degrees of src/config/plan.rs
-- stand for.
use devstack.Common.{
  ℕ, ◌+◌, String, ◌≡◌, refl, Bool, true, false, List, [], ◌∷◌, ◌++◌, arith, ◌==◌, str_key, mem,
  count, count_if, if◌then◌else◌, inl, inr, key_cases, mem-append, ◌∙◌, subst,
}
use devstack.Common.BTreeMap.{contains_key}
use devstack.Config.Plan.{Services}

abbrev pub hit : Bool → ℕ
hit true = 1
hit false = 0

-- Over every entry with the name, how many dependencies pass.
unfoldable pub weight : Services → String → (String → Bool) → ℕ
weight [] y p = 0
weight ((name, service) ∷ rest) y p =
    (if name == y then count_if p service.deps else 0) + weight rest y p

-- The dependencies of a service that are in the stack and not placed yet.
abbrev pub unplaced : Services → List String → String → Bool
unplaced services placed d =
    if contains_key d services then (if mem d placed then false else true) else false

count_if-split :
    (p q : String → Bool) (s : String)
    → ((d : String) → hit (p d) ≡ hit (q d) + hit (s == d))
    → (deps : List String) → count_if p deps ≡ count_if q deps + count s deps
count_if-split p q s h [] = omega arith
count_if-split p q s h (d ∷ deps) =
    ground (arith, h d, count_if-split p q s h deps, str_key.beq_iff s d, str_key.beq_iff d s)

count_if-count : (s : String) (deps : List String) → count_if (λ d. s == d) deps ≡ count s deps
count_if-count s [] = refl
count_if-count s (d ∷ deps) =
    ground (arith, count_if-count s deps, str_key.beq_iff s d, str_key.beq_iff d s)

-- A test that gains one name gains the dependencies on that name.
pub weight-split :
    (services : Services) (y : String) (p q : String → Bool) (s : String)
    → ((d : String) → hit (p d) ≡ hit (q d) + hit (s == d))
    → weight services y p ≡ weight services y q + weight services y (λ d. s == d)
unfolding weight
weight-split [] y p q s h = omega arith
weight-split ((name, service) ∷ rest) y p q s h = ground (
  arith,
  count_if-split p q s h service.deps,
  count_if-count s service.deps,
  weight-split rest y p q s h,
)

pub weight-unplaced :
    (services : Services) (y s : String) (placed : List String)
    → contains_key s services ≡ true
    → mem s placed ≡ false
    → weight services y (unplaced services placed)
      ≡ weight services y (unplaced services (placed ++ s ∷ [])) + weight services y (λ d. s == d)
weight-unplaced services y s placed known fresh =
    weight-split services y (unplaced services placed) (unplaced services (placed ++ s ∷ [])) s λ d.
      elim (key_cases s d) [
        | inl (t, e) ↦
            let placed' : mem d (placed ++ s ∷ []) ≡ true =
              mem-append d placed (s ∷ []) ∙ ground (arith, t) in
            let known' : contains_key d services ≡ true =
              subst (λ z. contains_key z services ≡ true) e known in
            let fresh' : mem d placed ≡ false = subst (λ z. mem z placed ≡ false) e fresh in
            rw (placed', known', fresh', t) refl
        | inr (f, n) ↦
            let same : mem d (placed ++ s ∷ []) ≡ mem d placed =
              mem-append d placed (s ∷ []) ∙ ground (arith, f) in
            rw (same, f) (omega arith)
      ]

-- A service that is not in the stack has no dependencies in it.
pub weight-unknown :
    (services : Services) (y : String) (p : String → Bool)
    → contains_key y services ≡ false
    → weight services y p ≡ 0
unfolding weight
weight-unknown [] y p h = refl
weight-unknown ((name, service) ∷ rest) y p h = ground (arith, weight-unknown rest y p)
