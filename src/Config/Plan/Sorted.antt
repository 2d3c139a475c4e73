-- ===== src/Config/Plan/Sorted.antt =====
-- What `topo_sort` of src/config/plan.rs returns.
use mathlib.Core.Path.{fun_ext}
use devstack.Common.{
  ℕ, zero, suc, ◌≤◌, ◌<◌, String, ◌≡◌, refl, sym, ap, ◌∙◌, subst, ◌≢◌, ◌↔◌, ◌⊎◌, inl, inr, true,
  false, none, some, List, [], ◌∷◌, ◌++◌, arith, eqb, if◌then◌else◌, eqb_iff, str_key, nat_key,
  ◌==◌, Bool-cases, key_cases, length, count, mem, mem_of_count, count_of_mem, mem-append,
  length-le_of_count, count-eq_of_length,
}
use devstack.Common.BTreeMap.{
  BTreeMap, get, contains_key, keys, IsUnique, contains_key_of_get, get_of_not_contains,
}
use devstack.Common.Outcome.{ok, err}
use devstack.Common.Int.{ℤ, pos, is_zero}
use devstack.Config.Model.{circular_dependency}
use devstack.Config.Plan.{Services, topo_sort, Graph, ready}
use devstack.Config.Plan.Weights.{weight, hit, unplaced}
use devstack.Config.Plan.Start.{Built, mem-keys}
use devstack.Config.Plan.Build.{build_graph-start}
use devstack.Config.Plan.Order.{IsOrdered, DependsOn, unplaced_dep}
use devstack.Config.Plan.Place.{
  Inv, settled, place_lem, length-le_services, length-keys, settled-le_keys,
}

count-ready :
    (degrees : BTreeMap String ℤ) (y : String)
    → IsUnique degrees
    → count y (ready degrees) ≡ elim (get y degrees) [ none ↦ 0 | some n ↦ hit (is_zero n) ]
unfolding ready
count-ready [] y u = refl
count-ready ((name, n) ∷ rest) y u = elim (key_cases name y) [
  | inl (t, e) ↦
      let gone : get y rest ≡ none =
        get_of_not_contains y rest (subst (λ z. contains_key z rest ≡ false) e u.0) in
      ground (arith, t, gone, count-ready rest y u.1)
  | inr (f, q) ↦ ground (arith, f, count-ready rest y u.1)
]

module _ (services : Services) where
  unplaced_none :
      (y : String)
      → weight services y (λ d. contains_key d services) ≡ weight services y (unplaced services [])
  unplaced_none y = ap (weight services y) (fun_ext (λ d. ground arith))

  start-Inv :
      (m : Graph) {edge : String → String → ℕ}
      → Built services m (λ y. weight services y (λ d. contains_key d services)) edge
      → Inv services m.in_degree (ready m.in_degree) []
  start-Inv m b = record {
    degree = λ y k. b.degrees y k ∙ ap (λ n. some (pos n)) (unplaced_none y);
    counts = λ y. count-ready m.in_degree y b.unique ∙ elim (Bool-cases (contains_key y services)) [
      | inl t ↦ ground (arith, t, b.degrees y t, unplaced_none y)
      | inr f ↦ ground (arith, f, get_of_not_contains y m.in_degree (b.counted y ∙ f))
    ];
    ordered = tt;
  }

  -- What the loop leaves: its list, in order and settled; `topo_sort` tests its length.
  pub topo_sort_lem :
      (result : List String) × (topo_sort services
        ≡ (if eqb (length result) (length services) then ok result else err circular_dependency))
      × ((y : String) → count y result ≡ settled services result y)
      × IsOrdered services [] result
  unfolding topo_sort
  topo_sort_lem =
      let (m, e, b) = build_graph-start services in
      let (result, e', c, o) =
        place_lem services m.graph b.edges (length services) m.in_degree (ready m.in_degree) []
          (omega arith) (start-Inv m b) in
      (result, rw e (rw e'), c, o)

-- Every dependency has a smaller rank: the dependencies have no cycle.
abbrev pub IsRanked : (String → ℕ) → Services → Type 0
IsRanked rank services = (name dep : String) → DependsOn services name dep → rank dep < rank name

Zero-cases : (n : ℕ) → (n ≡ 0) ⊎ (n ≢ 0)
Zero-cases zero = inl refl
Zero-cases (suc n) = inr (omega arith)

module _ (services : Services) (order : List String) (sorted : topo_sort services ≡ ok order) where
  topo_sort_result :
      ((y : String) → count y order ≡ settled services order y)
      × IsOrdered services [] order
      × (length order ≡ length services)
  topo_sort_result =
      let (result, e, c, o) = topo_sort_lem services in
      elim (Bool-cases (eqb (length result) (length services))) [
        | inl t ↦
            let same : result ≡ order = cc (e, t, sorted) in
            subst
              (λ l.
                ((y : String) → count y l ≡ settled services l y)
                × IsOrdered services [] l
                × (length l ≡ length services))
              same (c, o, (eqb_iff _ _).0 t)
        | inr f ↦ cc (e, f, sorted)
      ]

  -- A sorted plan lists every service of the stack, as often as the map does, and nothing else.
  pub topo_sort-count : (y : String) → count y order ≡ count y (keys services)
  topo_sort-count =
      let (c, o, n) = topo_sort_result in
      count-eq_of_length order (keys services)
        (λ y.
          subst (λ n. n ≤ count y (keys services)) (sym (c y)) (settled-le_keys services order y))
        (n ∙ sym (length-keys services))

  -- In a sorted plan every service stands behind all of its dependencies in the stack.
  pub topo_sort-IsOrdered : IsOrdered services [] order
  topo_sort-IsOrdered = topo_sort_result.1

abbrev pub position : String → List String → ℕ
position y [] = 0
position y (x ∷ xs) = if x == y then 0 else suc (position y xs)

position_lt :
    (services : Services) (seen names : List String) (name dep : String)
    → IsOrdered services seen names
    → DependsOn services name dep
    → mem name names ≡ true
    → mem dep seen ≡ false
    → position dep names < position name names
position_lt services seen [] name dep o on m s = cc
position_lt services seen (x ∷ names) name dep o on m s = elim (key_cases x name) [
  | inl (t, e) ↦ cc (s, o.0 dep (subst (λ z. DependsOn services z dep) (sym e) on))
  | inr (f, n) ↦ elim (Bool-cases (x == dep)) [
    | inl t ↦ rw (f, t) (omega arith)
    | inr g ↦
        let later : position dep names < position name names =
          position_lt services (seen ++ x ∷ []) names name dep o.1 on (rw f at m)
            (mem-append dep seen (x ∷ []) ∙ ground (arith, s, g)) in
        rw (f, g) (omega arith)
  ]
]

-- A stack that can be sorted has no cycle: the positions in the order rank it.
pub topo_sort-IsRanked :
    (services : Services) (order : List String)
    → topo_sort services ≡ ok order
    → IsRanked (λ y. position y order) services
topo_sort-IsRanked services order sorted name dep on =
    position_lt services [] order name dep (topo_sort-IsOrdered services order sorted) on
      (mem_of_count name order (
        subst (λ n. 0 < n) (sym (topo_sort-count services order sorted name))
          (count_of_mem name (keys services)
            (mem-keys services name ∙ contains_key_of_get name services on.service on.found))))
      refl

count-keys :
    (services : Services) (y : String)
    → IsUnique services
    → count y (keys services) ≡ hit (contains_key y services)
count-keys [] y u = refl
count-keys ((name, service) ∷ rest) y u = elim (key_cases name y) [
  | inl (t, e) ↦
      let gone : contains_key y rest ≡ false = subst (λ z. contains_key z rest ≡ false) e u.0 in
      ground (arith, t, gone, count-keys rest y u.1)
  | inr (f, n) ↦ ground (arith, f, count-keys rest y u.1)
]

module _ (services : Services) (unique : IsUnique services) (rank : String → ℕ)
    (ranked : IsRanked rank services) (result : List String)
    (counts : (y : String) → count y result ≡ settled services result y) where
  settled_all :
      (bound : ℕ) (y : String) → rank y < bound → weight services y (unplaced services result) ≡ 0
  settled_all zero y h = absurd (omega arith)
  settled_all (suc bound) y h = elim (Zero-cases (weight services y (unplaced services result))) [
    | inl z ↦ z
    | inr p ↦
        let (dep, on, missing) = unplaced_dep services y result unique p in
        let below : rank dep < rank y = ranked y dep on in
        let z : weight services dep (unplaced services result) ≡ 0 =
          settled_all bound dep (omega (arith, below)) in
        let there : 0 < count dep result = ground (arith, counts dep, z, on.present) in
        cc (missing, mem_of_count dep result there)
  ]

  length_result : length result ≡ length services
  length_result =
      let more : length (keys services) ≤ length result =
        length-le_of_count (keys services) result λ y. ground (
          arith,
          count-keys services y unique,
          counts y,
          settled_all (suc (rank y)) y (omega arith),
        ) in
      omega (arith, more, length-keys services, length-le_services services result result counts)

-- A stack without a cycle can be sorted.
-- Each name has one entry in the stack.
pub topo_sort_of_IsRanked :
    (services : Services) (rank : String → ℕ)
    → IsUnique services
    → IsRanked rank services
    → (order : List String) × (topo_sort services ≡ ok order)
topo_sort_of_IsRanked services rank unique ranked =
    let (result, e, c, o) = topo_sort_lem services in
    let same : length result ≡ length services =
      length_result services unique rank ranked result c in
    (result, e ∙ rw ((eqb_iff _ _).1 same))

-- Sorting ends, and panics at no `unwrap`: it returns an order or the error on a cycle.
pub topo_sort_total :
    (services : Services)
    → ((order : List String) × (topo_sort services ≡ ok order))
      ⊎ (topo_sort services ≡ err circular_dependency)
topo_sort_total services =
    let (result, e, c, o) = topo_sort_lem services in
    elim (Bool-cases (eqb (length result) (length services))) [
      | inl t ↦ inl (result, e ∙ rw t)
      | inr f ↦ inr (e ∙ rw f)
    ]

-- The error on a cycle is returned exactly when no ranking puts every dependency first.
-- Each name has one entry in the stack.
pub topo_sort_circular_iff :
    (services : Services)
    → IsUnique services
    → (topo_sort services ≡ err circular_dependency)
      ↔ ¬ ((rank : String → ℕ) × IsRanked rank services)
topo_sort_circular_iff services unique = (
  (λ e (rank, ranked).
      let (order, s) = topo_sort_of_IsRanked services rank unique ranked in cc (e, s)),
  (λ cyclic. elim (topo_sort_total services) [
    | inl (order, s) ↦
        absurd (cyclic ((λ y. position y order), topo_sort-IsRanked services order s))
    | inr e ↦ e
  ]),
)
