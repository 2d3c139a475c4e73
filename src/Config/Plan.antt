-- ===== src/Config/Plan.antt =====
-- src/config/plan.rs: the services of a stack in the order of their dependencies, and the part of
-- a stack that some of its services need. Each `while let` is a recursion on fuel; the children
-- prove that the fuel given is enough.
mod Weights
mod Start
mod Build
mod Release
pub mod Order
mod Place
pub mod Sorted
use devstack.Common.{
  ℕ, zero, suc, String, none, some, List, [], ◌∷◌, ◌++◌, str_key, length, eqb, if◌then◌else◌,
}
use devstack.Common.Int.{ℤ, pos, incr, decr, is_zero}
use devstack.Common.Outcome.{Result, ok, err, panic, out_of_fuel, ◌>>=◌}
use devstack.Common.BTreeMap.{BTreeMap, get, insert, keys}
use devstack.Config.Model.{ServiceConfig, ConfigError, circular_dependency}

abbrev pub Services : Type 0
Services = BTreeMap String ServiceConfig

-- The two maps of `topo_sort`: the services that depend on each service, and how many
-- dependencies of each are not placed yet.
pub record Graph : Type 0 where
  pub in_degree : BTreeMap String ℤ
  pub graph : BTreeMap String (List String)

abbrev pub PlanResult : Type 0 → Type 0
PlanResult = Result ConfigError

unfoldable pub init_graph : List String → Graph → Graph
init_graph [] m = m
init_graph (name ∷ names) m =
    init_graph names
      (record { in_degree = insert name (pos 0) m.in_degree; graph = insert name [] m.graph })

-- `*in_degree.get_mut(name).unwrap() += 1`, after the edge was added
unfoldable pub count_dep :
    String → BTreeMap String (List String) → BTreeMap String ℤ → PlanResult Graph
count_dep name g degrees = elim (get name degrees) [
  | none ↦ panic
  | some n ↦ ok (record { in_degree = insert name (incr n) degrees; graph = g })
]

unfoldable pub add_dep : String → String → Graph → PlanResult Graph
unfolding count_dep
add_dep name dep m = elim (get dep m.graph) [
  | none ↦ ok m
  | some edges ↦ count_dep name (insert dep (edges ++ name ∷ []) m.graph) m.in_degree
]

unfoldable pub add_deps : String → List String → Graph → PlanResult Graph
add_deps name [] m = ok m
add_deps name (dep ∷ deps) m = do m' ← add_dep name dep m; add_deps name deps m'

unfoldable pub build_graph : Services → Graph → PlanResult Graph
build_graph [] m = ok m
build_graph ((name, service) ∷ rest) m = do m' ← add_deps name service.deps m; build_graph rest m'

-- The services whose in-degree is 0, in the order of the map.
unfoldable pub ready : BTreeMap String ℤ → List String
ready [] = []
ready ((name, degree) ∷ rest) = if is_zero degree then name ∷ ready rest else ready rest

-- The loop over the dependents of a placed service: the new in-degrees and the new queue.
unfoldable pub release :
    List String → BTreeMap String ℤ → List String → PlanResult (BTreeMap String ℤ × List String)
release [] degrees queue = ok (degrees, queue)
release (dependent ∷ rest) degrees queue = elim (get dependent degrees) [
  | none ↦ panic
  | some n ↦
      release rest (insert dependent (decr n) degrees)
        (if is_zero (decr n) then queue ++ dependent ∷ [] else queue)
]

-- `graph.get(&service)`, with no dependents where it finds none
unfoldable pub dependents : String → BTreeMap String (List String) → List String
dependents service g = elim (get service g) [ none ↦ [] | some names ↦ names ]

-- `while let Some(service) = queue.pop_front()`
unfoldable pub place :
    ℕ
    → BTreeMap String (List String)
    → BTreeMap String ℤ
    → List String
    → List String
    → PlanResult (List String)
place fuel g degrees [] result = ok result
place zero g degrees (service ∷ queue) result = out_of_fuel
place (suc fuel) g degrees (service ∷ queue) result = do
  (degrees', queue') ← release (dependents service g) degrees queue
  place fuel g degrees' queue' (result ++ service ∷ [])

unfoldable pub topo_sort : Services → PlanResult (List String)
topo_sort services = do
  m ← build_graph services (init_graph (keys services) (record { in_degree = []; graph = [] }))
  result ← place (length services) m.graph m.in_degree (ready m.in_degree) []
  if eqb (length result) (length services) then ok result else err circular_dependency
