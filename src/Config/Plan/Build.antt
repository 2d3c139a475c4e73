-- ===== src/Config/Plan/Build.antt =====
-- The two maps of `topo_sort` in src/config/plan.rs, once they are built.
use devstack.Config.Plan.Start.{Built, Built-ext, start, dependents_of_get, start-Built}
use devstack.Common.{
  ℕ, suc, ◌+◌, String, ◌≡◌, refl, sym, ap, ◌∙◌, subst, inl, inr, Bool, true, false, some, List, [],
  ◌∷◌, ◌++◌, arith, if◌then◌else◌, str_key, nat_key, ◌==◌, Bool-cases, key_cases, beq_refl,
  count_if, count, count-append,
}
use devstack.Common.Int.{pos}
use devstack.Common.Outcome.{ok}
use devstack.Common.BTreeMap.{
  BTreeMap, get, contains_key, insert, get-insert, contains_key-insert, get_of_contains_key,
  get_of_not_contains, IsUnique-insert,
}
use devstack.Config.Model.{ServiceConfig}
use devstack.Config.Plan.{Services, Graph, count_dep, add_dep, add_deps, build_graph, dependents}
use devstack.Config.Plan.Weights.{hit, weight}

module _ (services : Services) where
  abbrev known : String → Bool
  known d = contains_key d services

  dependents-insert :
      (dep d : String) (names : List String) (g : BTreeMap String (List String))
      → dependents d (insert dep names g) ≡ (if dep == d then names else dependents d g)
  unfolding dependents
  dependents-insert dep d names g = ground (arith, get-insert dep d names g)

  -- The dependency is in the stack: the edge is recorded and the in-degree grows.
  add_dep-known :
      (name dep : String) (m : Graph) {degree : String → ℕ} {edge : String → String → ℕ}
      → contains_key name services ≡ true
      → known dep ≡ true
      → Built services m degree edge
      → (m' : Graph) × (add_dep name dep m ≡ ok m')
        × Built services m'
            (λ y. degree y + (if name == y then 1 else 0))
            (λ d y. edge d y + (if name == y then hit (dep == d) else 0))
  unfolding add_dep
  add_dep-known name dep m {degree} {edge} here k b =
      let (names, e) = get_of_contains_key dep m.graph (b.nodes dep ∙ k) in
      let d : get name m.in_degree ≡ some (pos (degree name)) = b.degrees name here in
      let m' : Graph = record {
        in_degree = insert name (pos (suc (degree name))) m.in_degree;
        graph = insert dep (names ++ name ∷ []) m.graph;
      } in
      (
        m',
        rw (e, add_dep) (rw (d, count_dep)),
        record {
          degrees = λ y ky. elim (key_cases name y) [
            | inl (t, q) ↦ get-insert name y _ m.in_degree ∙ rw (t, ← q) (ground arith)
            | inr (f, n) ↦ get-insert name y _ m.in_degree ∙ rw f (b.degrees y ky ∙ ground arith)
          ];
          nodes = λ x. contains_key-insert dep x _ m.graph ∙ elim (key_cases dep x) [
            | inl (t, q) ↦ rw t (sym (subst (λ z. known z ≡ true) q k))
            | inr (f, n) ↦ rw f (b.nodes x)
          ];
          counted = λ x. contains_key-insert name x _ m.in_degree ∙ elim (key_cases name x) [
            | inl (t, q) ↦ rw t (sym (subst (λ z. known z ≡ true) q here))
            | inr (f, n) ↦ rw f (b.counted x)
          ];
          unique = IsUnique-insert name (pos (suc (degree name))) m.in_degree b.unique;
          edges = λ x y. elim (key_cases dep x) [
            | inl (t, q) ↦
                let old : count y names ≡ edge x y =
                  ap (count y) (
                    sym (dependents_of_get x m.graph (subst (λ z. get z m.graph ≡ some names) q e)))
                  ∙ b.edges x y in
                rw dependents-insert (rw t (count-append y names (name ∷ []) ∙ ground (arith, old)))
            | inr (f, n) ↦ rw dependents-insert (rw f (b.edges x y ∙ ground arith))
          ];
        },
      )

  add_dep-Built :
      (name dep : String) (m : Graph) {degree : String → ℕ} {edge : String → String → ℕ}
      → contains_key name services ≡ true
      → Built services m degree edge
      → (m' : Graph) × (add_dep name dep m ≡ ok m')
        × Built services m'
            (λ y. degree y + (if name == y then hit (known dep) else 0))
            (λ d y. edge d y + (if name == y then (if known d then hit (dep == d) else 0) else 0))
  unfolding add_dep
  add_dep-Built name dep m {degree} {edge} here b = elim (Bool-cases (known dep)) [
    | inl k ↦
        let (m', e, b') = add_dep-known name dep m here k b in
        (
          m',
          e,
          Built-ext b' (λ y. rw k)
              (λ d y. elim (key_cases dep d) [
                | inl (t, q) ↦ rw (subst (λ z. known z ≡ true) q k)
                | inr (f, n) ↦ rw f (ground arith)
              ]),
        )
    | inr u ↦ (
      m,
      rw (get_of_not_contains dep m.graph (b.nodes dep ∙ u), add_dep),
      Built-ext b (λ y. rw u (ground arith))
          (λ d y. elim (key_cases dep d) [
            | inl (t, q) ↦ rw (subst (λ z. known z ≡ false) q u) (ground arith)
            | inr (f, n) ↦ rw f (ground arith)
          ]),
    )
  ]

  add_deps-Built :
      (name : String) (deps : List String) (m : Graph) {degree : String → ℕ}
      {edge : String → String → ℕ}
      → contains_key name services ≡ true
      → Built services m degree edge
      → (m' : Graph) × (add_deps name deps m ≡ ok m')
        × Built services m'
            (λ y. degree y + (if name == y then count_if known deps else 0))
            (λ d y.
              edge d y
              + (if name == y then (if known d then count_if (λ x. d == x) deps else 0) else 0))
  unfolding add_deps
  add_deps-Built name [] m here b = (m, refl, Built-ext b (λ y. ground arith) (λ d y. ground arith))
  add_deps-Built name (dep ∷ deps) m here b =
      let (m₁, e₁, b₁) = add_dep-Built name dep m here b in
      let (m₂, e₂, b₂) = add_deps-Built name deps m₁ here b₁ in
      (
        m₂,
        rw e₁ e₂,
        Built-ext b₂ (λ y. ground arith)
            (λ d y. ground (arith, str_key.beq_iff dep d, str_key.beq_iff d dep)),
      )

  -- Every service of `rest` is one of the stack.
  abbrev pub Within : Services → Type 0
  Within [] = Unit
  Within ((name, service) ∷ rest) = (contains_key name services ≡ true) × Within rest

  build_graph-Built :
      (rest : Services) (m : Graph) {degree : String → ℕ} {edge : String → String → ℕ}
      → Within rest
      → Built services m degree edge
      → (m' : Graph) × (build_graph rest m ≡ ok m')
        × Built services m'
            (λ y. degree y + weight rest y known)
            (λ d y. edge d y + (if known d then weight rest y (λ x. d == x) else 0))
  unfolding build_graph weight
  build_graph-Built [] m w b = (m, refl, Built-ext b (λ y. omega arith) (λ d y. ground arith))
  build_graph-Built ((name, service) ∷ rest) m w b =
      let (m₁, e₁, b₁) = add_deps-Built name service.deps m w.0 b in
      let (m₂, e₂, b₂) = build_graph-Built rest m₁ w.1 b₁ in
      (m₂, rw e₁ e₂, Built-ext b₂ (λ y. ground arith) (λ d y. ground arith))

Within-cons :
    (name : String) (service : ServiceConfig) (services rest : Services)
    → Within services rest
    → Within ((name, service) ∷ services) rest
Within-cons name service services [] w = tt
Within-cons name service services ((n, s) ∷ rest) w =
    (ground (arith, w.0), Within-cons name service services rest w.1)

Within-self : (services : Services) → Within services services
Within-self [] = tt
Within-self ((name, service) ∷ rest) =
    (rw (beq_refl name), Within-cons name service rest rest (Within-self rest))

-- The maps that the loop starts with, and no `unwrap` fails on the way.
pub build_graph-start :
    (services : Services)
    → (m : Graph) × (build_graph services (start services) ≡ ok m)
      × Built services m
          (λ y. weight services y (λ d. contains_key d services))
          (λ d y. if contains_key d services then weight services y (λ x. d == x) else 0)
build_graph-start services =
    let (m, e, b) =
      build_graph-Built services services (start services) (Within-self services)
        (start-Built services) in
    (m, e, Built-ext b (λ y. omega arith) (λ d y. omega arith))
