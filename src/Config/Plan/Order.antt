-- ===== src/Config/Plan/Order.antt =====
-- What it means for the services of src/config/plan.rs to stand in the order of their dependencies.
use devstack.Common.{
  String, ◌≡◌, refl, sym, Bool, true, false, some, List, [], ◌∷◌, ◌++◌, arith, ◌==◌, str_key, mem,
  count_if, Bool-cases, inl, inr, key_cases, beq_refl, subst,
}
use mathlib.Core.List.{append-nil, append_assoc}
use mathlib.Core.Logic.{◌≢◌}
use devstack.Common.BTreeMap.{get, contains_key, IsUnique}
use devstack.Config.Model.{ServiceConfig}
use devstack.Config.Plan.{Services}
use devstack.Config.Plan.Weights.{weight, unplaced, weight-unknown}

-- `dep` is a dependency of `name`, and both are services of the stack.
pub record DependsOn (services : Services) (name dep : String) : Type 0 where
  pub service : ServiceConfig
  pub found : get name services ≡ some service
  pub listed : mem dep service.deps ≡ true
  pub present : contains_key dep services ≡ true

abbrev pub DepsIn : Services → String → List String → Type 0
DepsIn services name seen = (dep : String) → DependsOn services name dep → mem dep seen ≡ true

-- Behind `seen`, every service stands behind its dependencies.
abbrev pub IsOrdered : Services → List String → List String → Type 0
IsOrdered services seen [] = Unit
IsOrdered services seen (name ∷ names) =
    DepsIn services name seen × IsOrdered services (seen ++ name ∷ []) names

pub IsOrdered-snoc :
    (services : Services) (seen names : List String) (name : String)
    → IsOrdered services seen names
    → DepsIn services name (seen ++ names)
    → IsOrdered services seen (names ++ name ∷ [])
IsOrdered-snoc services seen [] name o d =
    (λ dep on. subst (λ l. mem dep l ≡ true) (append-nil seen) (d dep on), tt)
IsOrdered-snoc services seen (x ∷ names) name o d = (
  o.0,
  IsOrdered-snoc services (seen ++ x ∷ []) names name o.1
      (λ dep on. subst (λ l. mem dep l ≡ true) (sym (append_assoc seen (x ∷ []) names)) (d dep on)),
)

count_if-zero :
    (p : String → Bool) (deps : List String) (d : String)
    → count_if p deps ≡ 0
    → mem d deps ≡ true
    → p d ≡ false
count_if-zero p [] d z m = cc
count_if-zero p (x ∷ deps) d z m = elim (key_cases x d) [
  | inl (t, e) ↦ subst (λ y. p y ≡ false) e (ground arith)
  | inr (f, n) ↦ count_if-zero p deps d (ground arith) (rw f at m)
]

weight-zero :
    (services : Services) (y : String) (p : String → Bool) (service : ServiceConfig)
    → weight services y p ≡ 0
    → get y services ≡ some service
    → count_if p service.deps ≡ 0
unfolding weight
weight-zero [] y p service z e = cc
weight-zero ((name, s) ∷ rest) y p service z e = elim (Bool-cases (name == y)) [
  | inl t ↦
      let same : s ≡ service = cc (rw t at e) in
      subst (λ (c : ServiceConfig). count_if p c.deps ≡ 0) same (ground arith)
  | inr f ↦ weight-zero rest y p service (ground arith) (rw f at e)
]

-- A service with no dependency left to place has all of them in front of it.
pub DepsIn-weight :
    (services : Services) (y : String) (placed : List String)
    → weight services y (unplaced services placed) ≡ 0
    → DepsIn services y placed
DepsIn-weight services y placed z dep on =
    let none_left : unplaced services placed dep ≡ false =
      count_if-zero (unplaced services placed) on.service.deps dep
        (weight-zero services y (unplaced services placed) on.service z on.found) on.listed in
    ground (arith, none_left, on.present)

count_if-pos :
    (p : String → Bool) (deps : List String)
    → count_if p deps ≢ 0
    → (d : String) × (mem d deps ≡ true) × (p d ≡ true)
count_if-pos p [] h = absurd (h refl)
count_if-pos p (x ∷ deps) h = elim (Bool-cases (p x)) [
  | inl t ↦ (x, rw (beq_refl x), t)
  | inr f ↦ let (d, m, q) = count_if-pos p deps (λ z. h (rw f z)) in (d, ground arith, q)
]

weight-get :
    (services : Services) (y : String) (p : String → Bool)
    → IsUnique services
    → weight services y p ≢ 0
    → (service : ServiceConfig) × (get y services ≡ some service) × (count_if p service.deps ≢ 0)
unfolding weight
weight-get [] y p u h = absurd (h refl)
weight-get ((name, s) ∷ rest) y p u h = elim (key_cases name y) [
  | inl (t, e) ↦
      let rest_zero : weight rest y p ≡ 0 =
        weight-unknown rest y p (subst (λ z. contains_key z rest ≡ false) e u.0) in
      (s, rw t, λ z. h (rw t (omega arith)))
  | inr (f, n) ↦
      let (service, g, q) = weight-get rest y p u.1 (λ z. h (ground arith)) in
      let found : get y ((name, s) ∷ rest) ≡ some service = ground (arith, f, g) in
      (service, found, q)
]

-- A service with dependencies left to place has one of the stack that is not placed.
pub unplaced_dep :
    (services : Services) (y : String) (placed : List String)
    → IsUnique services
    → weight services y (unplaced services placed) ≢ 0
    → (dep : String) × DependsOn services y dep × (mem dep placed ≡ false)
unplaced_dep services y placed u h =
    let (service, g, q) = weight-get services y (unplaced services placed) u h in
    let (dep, m, p) = count_if-pos (unplaced services placed) service.deps q in
    (dep, record { service = service; found = g; listed = m; present = ground arith }, ground arith)
