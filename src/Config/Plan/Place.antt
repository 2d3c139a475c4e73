-- ===== src/Config/Plan/Place.antt =====
-- The outer loop of `topo_sort` in src/config/plan.rs.
use devstack.Common.Outcome.{ok}
use devstack.Common.{
  ℕ, zero, suc, ◌+◌, ◌≤◌, ◌<◌, String, ◌≡◌, refl, sym, ap, ◌∙◌, subst, inl, inr, true, false, some,
  List, [], ◌∷◌, ◌++◌, arith, if◌then◌else◌, str_key, nat_key, ◌==◌, Bool-cases, beq_refl, length,
  length-append, count, mem, count-append, count_of_mem, length-le_of_count,
}
use devstack.Common.BTreeMap.{BTreeMap, get, contains_key, keys}
use devstack.Common.Int.{ℤ, pos}
use mathlib.Core.List.{append-nil}
use devstack.Config.Plan.{Services, dependents, place, release}
use devstack.Config.Plan.Weights.{weight, unplaced, weight-unplaced, weight-unknown}
use devstack.Config.Plan.Start.{mem-keys}
use devstack.Config.Plan.Release.{zeroed, release_lem}
use devstack.Config.Plan.Order.{IsOrdered, DepsIn-weight, IsOrdered-snoc}

abbrev pub none_left : ℕ → ℕ
none_left zero = 1
none_left (suc n) = 0

none_left-zeroed : (rest edges : ℕ) → none_left (rest + edges) + zeroed rest edges ≡ none_left rest
none_left-zeroed zero zero = refl
none_left-zeroed zero (suc edges) = ground arith
none_left-zeroed (suc rest) edges = ground arith

zeroed-zero : (rest : ℕ) → zeroed rest 0 ≡ 0
zeroed-zero zero = refl
zeroed-zero (suc rest) = refl

-- A service of the stack with no dependency left is placed or queued, once; no other name is.
abbrev pub settled : Services → List String → String → ℕ
settled services placed y =
    if contains_key y services then none_left (weight services y (unplaced services placed)) else 0

pub record Inv (services : Services) (degrees : BTreeMap String ℤ) (queue placed : List String)
    : Type 0 where
  pub degree :
      (y : String)
      → contains_key y services ≡ true
      → get y degrees ≡ some (pos (weight services y (unplaced services placed)))
  pub counts : (y : String) → count y (placed ++ queue) ≡ settled services placed y
  pub ordered : IsOrdered services [] placed

pub settled-le_keys :
    (services : Services) (placed : List String) (y : String)
    → settled services placed y ≤ count y (keys services)
settled-le_keys services placed y = elim (Bool-cases (contains_key y services)) [
  | inl t ↦
      let here : 0 < count y (keys services) =
        count_of_mem y (keys services) (mem-keys services y ∙ t) in
      ground (arith, t)
  | inr f ↦ ground (arith, f)
]

pub length-keys : (services : Services) → length (keys services) ≡ length services
length-keys [] = refl
length-keys ((name, service) ∷ rest) = ap suc (length-keys rest)

-- No more services are placed than the stack has.
pub length-le_services :
    (services : Services) (placed names : List String)
    → ((y : String) → count y names ≡ settled services placed y)
    → length names ≤ length services
length-le_services services placed names h =
    subst (λ n. length names ≤ n) (length-keys services)
      (length-le_of_count names (keys services) (λ y.
        subst (λ n. n ≤ count y (keys services)) (sym (h y)) (settled-le_keys services placed y)))

module _ (services : Services) (g : BTreeMap String (List String))
    (edges : (d y : String)
      → count y (dependents d g)
        ≡ (if contains_key d services then weight services y (λ x. d == x) else 0)) where
  -- What is known of the service that is taken from the queue.
  record Popped (s : String) (placed : List String) : Type 0 where
    known : contains_key s services ≡ true
    free : weight services s (unplaced services placed) ≡ 0
    fresh : mem s placed ≡ false

  popped :
      (s : String) (degrees : BTreeMap String ℤ) (queue placed : List String)
      → Inv services degrees (s ∷ queue) placed
      → Popped s placed
  popped s degrees queue placed inv =
      let c : count s placed + suc (count s queue) ≡ settled services placed s =
        sym (count-append s placed (s ∷ queue) ∙ ap (λ n. count s placed + n) (rw (beq_refl s)))
        ∙ inv.counts s in
      record {
        known = ground arith;
        free = ground arith;
        fresh = ground (arith, count_of_mem s placed);
      }

  module _ (s : String) (placed : List String) (p : Popped s placed) where
    after : String → ℕ
    after y = weight services y (unplaced services (placed ++ s ∷ []))

    weight_before :
        (y : String)
        → weight services y (unplaced services placed) ≡ after y + count y (dependents s g)
    unfolding after
    weight_before y =
        weight-unplaced services y s placed p.known p.fresh
        ∙ ap (λ n. weight services y (unplaced services (placed ++ s ∷ [])) + n)
            (sym (edges s y ∙ rw p.known))

    dependents-known : (y : String) → 0 < count y (dependents s g) → contains_key y services ≡ true
    dependents-known y h = elim (Bool-cases (contains_key y services)) [
      | inl t ↦ t
      | inr f ↦
          let e : count y (dependents s g) ≡ 0 =
            edges s y ∙ rw p.known (weight-unknown services y (λ x. s == x) f) in
          absurd (omega (arith, e))
    ]

    counts_after :
        (y : String) (queue queue' : List String)
        → count y (placed ++ s ∷ queue) ≡ settled services placed y
        → count y queue' ≡ count y queue + zeroed (after y) (count y (dependents s g))
        → count y ((placed ++ s ∷ []) ++ queue') ≡ settled services (placed ++ s ∷ []) y
    unfolding after
    counts_after y queue queue' before q = elim (Bool-cases (contains_key y services)) [
      | inl t ↦ ground (
        arith,
        before,
        q,
        t,
        weight_before y,
        none_left-zeroed (after y) (count y (dependents s g)),
        count-append y placed (s ∷ queue),
        count-append y (placed ++ s ∷ []) queue',
        count-append y placed (s ∷ []),
      )
      | inr f ↦
          let e : count y (dependents s g) ≡ 0 =
            edges s y ∙ rw p.known (weight-unknown services y (λ x. s == x) f) in
          let z : zeroed (after y) (count y (dependents s g)) ≡ 0 = rw e (zeroed-zero (after y)) in
          ground (
            arith,
            before,
            q,
            f,
            z,
            count-append y placed (s ∷ queue),
            count-append y (placed ++ s ∷ []) queue',
            count-append y placed (s ∷ []),
          )
    ]

    IsOrdered-after : IsOrdered services [] placed → IsOrdered services [] (placed ++ s ∷ [])
    IsOrdered-after o =
        IsOrdered-snoc services [] placed s o (DepsIn-weight services s placed p.free)

  -- One round of the loop keeps the invariant, and no `unwrap` fails in it.
  round :
      (s : String) (degrees : BTreeMap String ℤ) (queue placed : List String)
      → Inv services degrees (s ∷ queue) placed
      → (degrees' : BTreeMap String ℤ) × (queue' : List String) × (release
            (dependents s g)
            degrees
            queue
          ≡ ok (degrees', queue'))
        × Inv services degrees' queue' (placed ++ s ∷ [])
  unfolding after
  round s degrees queue placed inv =
      let p = popped s degrees queue placed inv in
      let (degrees', queue', e, d, q) =
        release_lem services (after s placed p) (dependents s g) degrees queue
          (λ y k. inv.degree y k ∙ ap (λ n. some (pos n)) (weight_before s placed p y))
          (dependents-known s placed p) in
      (
        degrees',
        queue',
        e,
        record {
          degree = d;
          counts = λ y. counts_after s placed p y queue queue' (inv.counts y) (q y);
          ordered = IsOrdered-after s placed p inv.ordered;
        },
      )

  settled_end :
      (degrees : BTreeMap String ℤ) (placed : List String)
      → Inv services degrees [] placed
      → (y : String) → count y placed ≡ settled services placed y
  settled_end degrees placed inv y =
      subst (λ l. count y l ≡ settled services placed y) (append-nil placed) (inv.counts y)

  -- With fuel for each service the loop ends, with the queue empty.
  pub place_lem :
      (fuel : ℕ) (degrees : BTreeMap String ℤ) (queue placed : List String)
      → length services ≤ fuel + length placed
      → Inv services degrees queue placed
      → (result : List String) × (place fuel g degrees queue placed ≡ ok result)
        × ((y : String) → count y result ≡ settled services result y)
        × IsOrdered services [] result
  unfolding place
  place_lem zero degrees [] placed h inv =
      (placed, refl, settled_end degrees placed inv, inv.ordered)
  place_lem (suc fuel) degrees [] placed h inv =
      (placed, refl, settled_end degrees placed inv, inv.ordered)
  place_lem zero degrees (s ∷ queue) placed h inv = absurd (
      omega (
        arith,
        length-append placed (s ∷ queue),
        length-le_services services placed (placed ++ s ∷ queue) inv.counts,
      ))
  place_lem (suc fuel) degrees (s ∷ queue) placed h inv =
      let (degrees', queue', e, inv') = round s degrees queue placed inv in
      let (result, e', c, o) =
        place_lem fuel degrees' queue' (placed ++ s ∷ [])
          (omega (arith, length-append placed (s ∷ []))) inv' in
      (result, rw (e, place) e', c, o)
