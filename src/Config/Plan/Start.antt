-- ===== src/Config/Plan/Start.antt =====
-- The two maps with which `topo_sort` of src/config/plan.rs starts.
use devstack.Common.{
  ℕ, String, ◌≡◌, refl, ap, ◌∙◌, inl, inr, true, none, some, List, [], ◌∷◌, arith, if◌then◌else◌,
  str_key, nat_key, Bool-cases, count, mem,
}
use devstack.Common.Int.{pos}
use devstack.Common.BTreeMap.{
  BTreeMap, get, contains_key, keys, IsUnique, get-insert, contains_key-insert, IsUnique-insert,
}
use devstack.Config.Plan.{Services, Graph, init_graph, dependents}

-- The maps hold `degree y` for each service, and name `y` as a dependent of `d` `edge d y` times.
pub record Built (services : Services) (m : Graph) (degree : String → ℕ)
    (edge : String → String → ℕ) : Type 0 where
  pub degrees :
      (y : String) → contains_key y services ≡ true → get y m.in_degree ≡ some (pos (degree y))
  pub nodes : (d : String) → contains_key d m.graph ≡ contains_key d services
  pub edges : (d y : String) → count y (dependents d m.graph) ≡ edge d y
  pub counted : (y : String) → contains_key y m.in_degree ≡ contains_key y services
  pub unique : IsUnique m.in_degree

pub Built-ext :
    {services : Services} {m : Graph} {degree degree' : String → ℕ}
    {edge edge' : String → String → ℕ}
    → Built services m degree edge
    → ((y : String) → degree y ≡ degree' y)
    → ((d y : String) → edge d y ≡ edge' d y)
    → Built services m degree' edge'
Built-ext b hd he = record {
  degrees = λ y k. b.degrees y k ∙ ap (λ n. some (pos n)) (hd y);
  nodes = b.nodes;
  edges = λ d y. b.edges d y ∙ he d y;
  counted = b.counted;
  unique = b.unique;
}

init_graph-in_degree :
    (names : List String) (m : Graph) (y : String)
    → get y (init_graph names m).in_degree
      ≡ (if mem y names then some (pos 0) else get y m.in_degree)
unfolding init_graph
init_graph-in_degree [] m y = refl
init_graph-in_degree (name ∷ names) m y =
    init_graph-in_degree names _ y ∙ rw get-insert (ground arith)

init_graph-graph :
    (names : List String) (m : Graph) (y : String)
    → get y (init_graph names m).graph ≡ (if mem y names then some [] else get y m.graph)
unfolding init_graph
init_graph-graph [] m y = refl
init_graph-graph (name ∷ names) m y = init_graph-graph names _ y ∙ rw get-insert (ground arith)

init_graph-nodes :
    (names : List String) (m : Graph) (y : String)
    → contains_key y (init_graph names m).graph
      ≡ (if mem y names then true else contains_key y m.graph)
unfolding init_graph
init_graph-nodes [] m y = refl
init_graph-nodes (name ∷ names) m y =
    init_graph-nodes names _ y ∙ rw contains_key-insert (ground arith)

init_graph-counted :
    (names : List String) (m : Graph) (y : String)
    → contains_key y (init_graph names m).in_degree
      ≡ (if mem y names then true else contains_key y m.in_degree)
unfolding init_graph
init_graph-counted [] m y = refl
init_graph-counted (name ∷ names) m y =
    init_graph-counted names _ y ∙ rw contains_key-insert (ground arith)

init_graph-IsUnique :
    (names : List String) (m : Graph)
    → IsUnique m.in_degree
    → IsUnique (init_graph names m).in_degree
unfolding init_graph
init_graph-IsUnique [] m u = u
init_graph-IsUnique (name ∷ names) m u =
    init_graph-IsUnique names _ (IsUnique-insert name (pos 0) m.in_degree u)

pub mem-keys : (services : Services) (y : String) → mem y (keys services) ≡ contains_key y services
mem-keys [] y = refl
mem-keys ((name, service) ∷ rest) y = ground (arith, mem-keys rest y)

abbrev pub start : Services → Graph
start services = init_graph (keys services) (record { in_degree = []; graph = [] })

pub dependents_of_get :
    (d : String) (g : BTreeMap String (List String)) {names : List String}
    → get d g ≡ some names
    → dependents d g ≡ names
unfolding dependents
dependents_of_get d g e = rw (e, dependents)

pub dependents_of_none :
    (d : String) (g : BTreeMap String (List String)) → get d g ≡ none → dependents d g ≡ []
unfolding dependents
dependents_of_none d g e = rw (e, dependents)

pub start-Built : (services : Services) → Built services (start services) (λ y. 0) (λ d y. 0)
start-Built services = record {
  degrees = λ y k. init_graph-in_degree (keys services) _ y ∙ rw mem-keys (rw k);
  nodes = λ d. init_graph-nodes (keys services) _ d ∙ rw mem-keys (ground arith);
  edges = λ d y. elim (Bool-cases (mem d (keys services))) [
    | inl t ↦ ap (count y) (
        dependents_of_get d (start services).graph {names = []}
          (init_graph-graph (keys services) _ d ∙ rw t))
    | inr f ↦
        ap (count y) (
          dependents_of_none d (start services).graph (init_graph-graph (keys services) _ d ∙ rw f))
  ];
  counted = λ d. init_graph-counted (keys services) _ d ∙ rw mem-keys (ground arith);
  unique = init_graph-IsUnique (keys services) _ tt;
}
