-- ===== src/Common/BTreeMap.antt =====
-- `BTreeMap<K, V>`: the entries in the order of their keys.
use mathlib.Core.Path.{◌≡◌, ◌∙◌, refl, sym, ap, subst}
use mathlib.Core.Logic.{inl, inr}
use mathlib.Core.Bool.{Bool, true, false}
use mathlib.Core.Option.{Option, none, some, map}
use mathlib.Core.List.{List, [], ◌∷◌}
use native.Mathlib.Omega.{arith}
use devstack.Common.Lists.{All}
use devstack.Common.Tests.{
  Key, ◌==◌, if◌then◌else◌, key_cases, beq_refl, beq-false_of_ne, Bool-cases,
}

abbrev pub BTreeMap : Type 0 → Type 0 → Type 0
BTreeMap K V = List (K × V)

module _ {K V : Type 0} ⦃k : Key K⦄ where
  abbrev pub get : K → BTreeMap K V → Option V
  get a [] = none
  get a ((b, v) ∷ m) = if b == a then some v else get a m

  abbrev pub contains_key : K → BTreeMap K V → Bool
  contains_key a [] = false
  contains_key a ((b, v) ∷ m) = if b == a then true else contains_key a m

  unfoldable pub remove : K → BTreeMap K V → BTreeMap K V
  remove a [] = []
  remove a ((b, v) ∷ m) = let rest = remove a m in if b == a then rest else (b, v) ∷ rest

  -- The new entry stands in front of the first larger key. In an ordered map no later entry has
  -- the key, and `remove` changes nothing.
  unfoldable pub insert : K → V → BTreeMap K V → BTreeMap K V
  insert a v [] = (a, v) ∷ []
  insert a v ((b, w) ∷ m) =
      let rest = insert a v m in
      if b == a
      then (a, v) ∷ remove a m
      else if k.lt a b
      then (a, v) ∷ (b, w) ∷ remove a m
      else (b, w) ∷ rest

  abbrev pub keys : BTreeMap K V → List K
  keys [] = []
  keys ((b, v) ∷ m) = b ∷ keys m

  abbrev pub values : BTreeMap K V → List V
  values [] = []
  values ((b, v) ∷ m) = v ∷ values m

  unfoldable pub retain : (K → V → Bool) → BTreeMap K V → BTreeMap K V
  retain p [] = []
  retain p ((b, v) ∷ m) = let rest = retain p m in if p b v then (b, v) ∷ rest else rest

  -- No key has two entries.
  abbrev pub IsUnique : BTreeMap K V → Type 0
  IsUnique [] = Unit
  IsUnique ((b, v) ∷ m) = (contains_key b m ≡ false) × IsUnique m

  pub get-remove :
      (a c : K) (m : BTreeMap K V) → get c (remove a m) ≡ (if a == c then none else get c m)
  unfolding remove
  get-remove a c [] = ground arith
  get-remove a c ((b, w) ∷ m) =
      ground (arith, get-remove a c m, k.beq_iff b a, k.beq_iff a c, k.beq_iff b c)

  pub contains_key-remove :
      (a c : K) (m : BTreeMap K V)
      → contains_key c (remove a m) ≡ (if a == c then false else contains_key c m)
  unfolding remove
  contains_key-remove a c [] = ground arith
  contains_key-remove a c ((b, w) ∷ m) =
      ground (arith, contains_key-remove a c m, k.beq_iff b a, k.beq_iff a c, k.beq_iff b c)

  pub get-insert :
      (a c : K) (v : V) (m : BTreeMap K V)
      → get c (insert a v m) ≡ (if a == c then some v else get c m)
  unfolding insert
  get-insert a c v [] = refl
  get-insert a c v ((b, w) ∷ m) =
      ground
        (arith, get-insert a c v m, get-remove a c m, k.beq_iff b a, k.beq_iff a c, k.beq_iff b c)

  pub contains_key-insert :
      (a c : K) (v : V) (m : BTreeMap K V)
      → contains_key c (insert a v m) ≡ (if a == c then true else contains_key c m)
  unfolding insert
  contains_key-insert a c v [] = refl
  contains_key-insert a c v ((b, w) ∷ m) = ground (
    arith,
    contains_key-insert a c v m,
    contains_key-remove a c m,
    k.beq_iff b a,
    k.beq_iff a c,
    k.beq_iff b c,
  )

  pub get_of_contains_key :
      (a : K) (m : BTreeMap K V) → contains_key a m ≡ true → (v : V) × (get a m ≡ some v)
  get_of_contains_key a [] h = cc
  get_of_contains_key a ((b, w) ∷ m) h = elim (key_cases b a) [
    | inl (t, _) ↦ (w, rw t)
    | inr (f, _) ↦ rw f (get_of_contains_key a m (rw f at h))
  ]

  pub contains_key_of_get :
      (a : K) (m : BTreeMap K V) (v : V) → get a m ≡ some v → contains_key a m ≡ true
  contains_key_of_get a [] v h = cc
  contains_key_of_get a ((b, w) ∷ m) v h = elim (key_cases b a) [
    | inl (t, _) ↦ rw t
    | inr (f, _) ↦ rw f (contains_key_of_get a m v (rw f at h))
  ]

  pub get_of_not_contains : (a : K) (m : BTreeMap K V) → contains_key a m ≡ false → get a m ≡ none
  get_of_not_contains a [] h = refl
  get_of_not_contains a ((b, w) ∷ m) h = ground (arith, get_of_not_contains a m)

  pub IsUnique-remove : (a : K) (m : BTreeMap K V) → IsUnique m → IsUnique (remove a m)
  unfolding remove
  IsUnique-remove a [] u = tt
  IsUnique-remove a ((b, w) ∷ m) u = elim (key_cases b a) [
    | inl (t, _) ↦ rw t (IsUnique-remove a m u.1)
    | inr (f, n) ↦ rw f (ground (arith, contains_key-remove a b m, u.0), IsUnique-remove a m u.1)
  ]

  pub IsUnique-insert : (a : K) (v : V) (m : BTreeMap K V) → IsUnique m → IsUnique (insert a v m)
  unfolding insert
  IsUnique-insert a v [] u = (refl, tt)
  IsUnique-insert a v ((b, w) ∷ m) u =
      let gone : contains_key a (remove a m) ≡ false = rw contains_key-remove (rw (beq_refl a)) in
      let kept : contains_key b (remove a m) ≡ false =
        ground (arith, contains_key-remove a b m, u.0) in
      elim (key_cases b a) [
        | inl (t, _) ↦ rw t (gone, IsUnique-remove a m u.1)
        | inr (f, n) ↦ elim (Bool-cases (k.lt a b)) [
          | inl l ↦ rw f (rw l (rw f gone, (kept, IsUnique-remove a m u.1)))
          | inr g ↦ rw f (
              rw g (
                ground
                    (arith, contains_key-insert a b v m, u.0, beq-false_of_ne a b (λ e. n (sym e))),
                IsUnique-insert a v m u.1,
              ))
        ]
      ]

  contains_key-retain_of_not :
      (p : K → V → Bool) (a : K) (m : BTreeMap K V)
      → contains_key a m ≡ false
      → contains_key a (retain p m) ≡ false
  unfolding retain
  contains_key-retain_of_not p a [] h = refl
  contains_key-retain_of_not p a ((b, w) ∷ m) h = ground (arith, contains_key-retain_of_not p a m)

  pub IsUnique-retain : (p : K → V → Bool) (m : BTreeMap K V) → IsUnique m → IsUnique (retain p m)
  unfolding retain
  IsUnique-retain p [] u = tt
  IsUnique-retain p ((b, w) ∷ m) u = elim (Bool-cases (p b w)) [
    | inl t ↦ rw t (contains_key-retain_of_not p b m u.0, IsUnique-retain p m u.1)
    | inr f ↦ rw f (IsUnique-retain p m u.1)
  ]

  pub get-retain :
      (p : K → V → Bool) (a : K) (m : BTreeMap K V)
      → IsUnique m
      → get a (retain p m)
        ≡ elim (get a m) [ none ↦ none | some v ↦ if p a v then some v else none ]
  unfolding retain
  get-retain p a [] u = refl
  get-retain p a ((b, w) ∷ m) u = elim (key_cases b a) [
    | inl (t, e) ↦
        let gone : get a (retain p m) ≡ none =
          get_of_not_contains a (retain p m)
            (contains_key-retain_of_not p a m (subst (λ z. contains_key z m ≡ false) e u.0)) in
        let same : p b w ≡ p a w = ap (λ z. p z w) e in ground (arith, t, gone, same)
    | inr (f, n) ↦ ground (arith, f, get-retain p a m u.1)
  ]

  -- `get_mut`, and what is done through the reference
  abbrev pub modify : K → (V → V) → BTreeMap K V → BTreeMap K V
  modify a f [] = []
  modify a f ((b, v) ∷ m) = if b == a then (b, f v) ∷ m else (b, v) ∷ modify a f m

  -- `iter_mut`
  abbrev pub modify_each : (K → V → V) → BTreeMap K V → BTreeMap K V
  modify_each f [] = []
  modify_each f ((b, v) ∷ m) = (b, f b v) ∷ modify_each f m

  pub get-modify :
      (a c : K) (f : V → V) (m : BTreeMap K V)
      → get c (modify a f m) ≡ (if a == c then map f (get c m) else get c m)
  get-modify a c f [] = ground arith
  get-modify a c f ((b, w) ∷ m) =
      ground (arith, get-modify a c f m, k.beq_iff b a, k.beq_iff a c, k.beq_iff b c)

  pub get-modify_each :
      (f : K → V → V) (c : K) (m : BTreeMap K V) → get c (modify_each f m) ≡ map (f c) (get c m)
  get-modify_each f c [] = refl
  get-modify_each f c ((b, w) ∷ m) = elim (key_cases b c) [
    | inl (t, e) ↦ rw t (ap (λ z. some (f z w)) e)
    | inr (n, _) ↦ rw n (get-modify_each f c m)
  ]

  pub contains_key-modify :
      (a c : K) (f : V → V) (m : BTreeMap K V) → contains_key c (modify a f m) ≡ contains_key c m
  contains_key-modify a c f [] = refl
  contains_key-modify a c f ((b, w) ∷ m) = ground (arith, contains_key-modify a c f m)

  pub IsUnique-modify :
      (a : K) (f : V → V) (m : BTreeMap K V) → IsUnique m → IsUnique (modify a f m)
  IsUnique-modify a f [] u = tt
  IsUnique-modify a f ((b, w) ∷ m) u = elim (Bool-cases (b == a)) [
    | inl t ↦ rw t u
    | inr n ↦ rw n (contains_key-modify a b f m ∙ u.0, IsUnique-modify a f m u.1)
  ]

  -- What holds of every entry holds of the one that is found.
  pub All-get {ℓ} :
      (P : K × V → Type ℓ) (a : K) (v : V) (m : BTreeMap K V)
      → All P m
      → get a m ≡ some v
      → P (a, v)
  All-get P a v [] h g = cc
  All-get P a v ((b, w) ∷ m) h g = elim (key_cases b a) [
    | inl (t, e) ↦
        let same : w ≡ v = cc (rw t at g) in
        subst (λ z. P (a, z)) same (subst (λ z. P (z, w)) e h.0)
    | inr (n, _) ↦ All-get P a v m h.1 (rw n at g)
  ]

-- A map whose values are changed into those of another type.
abbrev pub map_values : {K V W : Type 0} → (V → W) → BTreeMap K V → BTreeMap K W
map_values f [] = []
map_values f ((b, v) ∷ m) = (b, f v) ∷ map_values f m

pub get-map_values :
    {K V W : Type 0} ⦃k : Key K⦄ (f : V → W) (a : K) (m : BTreeMap K V)
    → get a (map_values f m) ≡ map f (get a m)
get-map_values f a [] = refl
get-map_values f a ((b, w) ∷ m) = elim (Bool-cases (b == a)) [
  | inl t ↦ rw t refl
  | inr n ↦ rw n (get-map_values f a m)
]

pub contains_key-map_values :
    {K V W : Type 0} ⦃k : Key K⦄ (f : V → W) (a : K) (m : BTreeMap K V)
    → contains_key a (map_values f m) ≡ contains_key a m
contains_key-map_values f a [] = refl
contains_key-map_values f a ((b, v) ∷ m) = elim (Bool-cases (b == a)) [
  | inl t ↦ rw t refl
  | inr n ↦ rw n (contains_key-map_values f a m)
]
