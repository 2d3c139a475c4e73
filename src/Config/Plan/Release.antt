-- ===== src/Config/Plan/Release.antt =====
-- The inner loop of `topo_sort` in src/config/plan.rs: the dependents of a placed service.
use devstack.Common.{
  ℕ, zero, suc, ◌+◌, ◌<◌, String, ◌≡◌, refl, ◌∙◌, subst, inl, inr, true, some, List, [], ◌∷◌, ◌++◌,
  arith, if◌then◌else◌, str_key, nat_key, ◌==◌, key_cases, beq_refl, count, count-append,
}
use devstack.Common.Int.{ℤ, pos, is_zero}
use devstack.Common.Outcome.{ok}
use devstack.Common.BTreeMap.{BTreeMap, get, contains_key, insert, get-insert}
use devstack.Config.Plan.{Services, release}

-- A dependent is queued when its in-degree reaches 0, once, at its last edge.
abbrev pub zeroed : ℕ → ℕ → ℕ
zeroed zero (suc edges) = 1
zeroed zero zero = 0
zeroed (suc rest) edges = 0

queued_self :
    (r c : ℕ) (x : String) (queue : List String)
    → count x (if is_zero (pos (r + c)) then queue ++ x ∷ [] else queue) + zeroed r c
      ≡ count x queue + zeroed r (suc c)
queued_self zero zero x queue = ground (arith, count-append x queue (x ∷ []), beq_refl x)
queued_self zero (suc c) x queue = ground arith
queued_self (suc r) c x queue = ground arith

module _ (services : Services) (rest : String → ℕ) where
  abbrev Degrees : BTreeMap String ℤ → List String → Type 0
  Degrees degrees names =
      (y : String)
      → contains_key y services ≡ true
      → get y degrees ≡ some (pos (rest y + count y names))

  Degrees-step :
      (x : String) (names : List String) (degrees : BTreeMap String ℤ)
      → Degrees degrees (x ∷ names)
      → Degrees (insert x (pos (rest x + count x names)) degrees) names
  Degrees-step x names degrees h y k =
      get-insert x y _ degrees
      ∙ elim (key_cases x y) [ inl (t, e) ↦ rw (t, e) refl | inr (f, n) ↦ rw f (h y k ∙ rw f refl) ]

  queued :
      (x y : String) (names queue : List String)
      → count y (if is_zero (pos (rest x + count x names)) then queue ++ x ∷ [] else queue)
          + zeroed (rest y) (count y names)
        ≡ count y queue + zeroed (rest y) (count y (x ∷ names))
  queued x y names queue = elim (key_cases x y) [
    | inl (t, e) ↦
        subst
          (λ z.
            count z (if is_zero (pos (rest x + count x names)) then queue ++ x ∷ [] else queue)
              + zeroed (rest z) (count z names)
            ≡ count z queue
              + zeroed (rest z) (if x == z then suc (count z names) else count z names))
          e (rw (beq_refl x) (queued_self (rest x) (count x names) x queue))
    | inr (f, n) ↦ ground (arith, f, count-append y queue (x ∷ []))
  ]

  pub release_lem :
      (names : List String) (degrees : BTreeMap String ℤ) (queue : List String)
      → Degrees degrees names
      → ((y : String) → 0 < count y names → contains_key y services ≡ true)
      → (degrees' : BTreeMap String ℤ) × (queue' : List String) × (release names degrees queue
          ≡ ok (degrees', queue'))
        × ((y : String) → contains_key y services ≡ true → get y degrees' ≡ some (pos (rest y)))
        × ((y : String) → count y queue' ≡ count y queue + zeroed (rest y) (count y names))
  unfolding release
  release_lem [] degrees queue h known =
      (degrees, queue, refl, (λ y k. h y k ∙ ground arith), (λ y. ground arith))
  release_lem (x ∷ names) degrees queue h known =
      let here : contains_key x services ≡ true = known x (ground (arith, beq_refl x)) in
      let n : ℕ = rest x + count x names in
      let found : get x degrees ≡ some (pos (suc n)) = h x here ∙ ground (arith, beq_refl x) in
      let (degrees', queue', e, d, q) =
        release_lem names (insert x (pos n) degrees)
          (if is_zero (pos n) then queue ++ x ∷ [] else queue) (Degrees-step x names degrees h)
          (λ y c. known y (ground arith)) in
      (degrees', queue', rw (found, release) e, d, λ y. q y ∙ queued x y names queue)
