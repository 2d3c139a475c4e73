-- ===== src/Common/Lists.antt =====
-- Lists measured by native numbers, and how often a list holds a key.
use Prim.Native.Nat.{ℕ, suc, ◌+◌, ◌≤◌, ◌<◌}
use mathlib.Core.Path.{◌≡◌, refl}
use mathlib.Core.Logic.{inl, inr, ◌≢◌}
use mathlib.Core.Bool.{Bool, true, false, ◌||◌}
use mathlib.Core.List.{List, [], ◌∷◌, ◌++◌}
use native.Mathlib.Omega.{arith}
use devstack.Common.Tests.{Key, ◌==◌, if◌then◌else◌, key_cases, beq_refl}

module _ {ℓ} {A : Type ℓ} where
  abbrev pub length : List A → ℕ
  length [] = 0
  length (x ∷ xs) = suc (length xs)

  abbrev pub filter : (A → Bool) → List A → List A
  filter p [] = []
  filter p (x ∷ xs) = if p x then x ∷ filter p xs else filter p xs

  -- `iter().any`
  abbrev pub any : (A → Bool) → List A → Bool
  any p [] = false
  any p (x ∷ xs) = p x || any p xs

  abbrev pub all : (A → Bool) → List A → Bool
  all p [] = true
  all p (x ∷ xs) = if p x then all p xs else false

  -- How many entries pass a test.
  abbrev pub count_if : (A → Bool) → List A → ℕ
  count_if p [] = 0
  count_if p (x ∷ xs) = if p x then suc (count_if p xs) else count_if p xs

  abbrev pub All {κ} : (A → Type κ) → List A → Type κ
  All P [] = Unit
  All P (x ∷ xs) = P x × All P xs

  pub length-append : (xs ys : List A) → length (xs ++ ys) ≡ length xs + length ys
  length-append [] ys = omega arith
  length-append (x ∷ xs) ys = omega (arith, length-append xs ys)

  pub length-filter-le : (p : A → Bool) (xs : List A) → length (filter p xs) ≤ length xs
  length-filter-le p [] = omega arith
  length-filter-le p (x ∷ xs) = ground (arith, length-filter-le p xs)

  pub count_if-append :
      (p : A → Bool) (xs ys : List A) → count_if p (xs ++ ys) ≡ count_if p xs + count_if p ys
  count_if-append p [] ys = omega arith
  count_if-append p (x ∷ xs) ys = ground (arith, count_if-append p xs ys)

module _ {K : Type 0} ⦃k : Key K⦄ where
  abbrev pub count : K → List K → ℕ
  count a [] = 0
  count a (x ∷ xs) = if x == a then suc (count a xs) else count a xs

  -- `contains`
  abbrev pub mem : K → List K → Bool
  mem a [] = false
  mem a (x ∷ xs) = if x == a then true else mem a xs

  -- A list without its first occurrence of a key.
  erase : K → List K → List K
  erase a [] = []
  erase a (x ∷ xs) = if x == a then xs else x ∷ erase a xs

  pub count-append : (a : K) (xs ys : List K) → count a (xs ++ ys) ≡ count a xs + count a ys
  count-append a [] ys = omega arith
  count-append a (x ∷ xs) ys = ground (arith, count-append a xs ys)

  pub mem_of_count : (a : K) (xs : List K) → 0 < count a xs → mem a xs ≡ true
  mem_of_count a [] h = absurd (omega arith)
  mem_of_count a (x ∷ xs) h = ground (arith, mem_of_count a xs)

  pub count_of_mem : (a : K) (xs : List K) → mem a xs ≡ true → 0 < count a xs
  count_of_mem a [] h = cc
  count_of_mem a (x ∷ xs) h = ground (arith, count_of_mem a xs)

  pub mem-append :
      (a : K) (xs ys : List K) → mem a (xs ++ ys) ≡ (if mem a xs then true else mem a ys)
  mem-append a [] ys = refl
  mem-append a (x ∷ xs) ys = ground (arith, mem-append a xs ys)

  length-erase : (a : K) (xs : List K) → 0 < count a xs → suc (length (erase a xs)) ≡ length xs
  unfolding erase
  length-erase a [] h = absurd (omega arith)
  length-erase a (x ∷ xs) h = ground (arith, length-erase a xs)

  count-erase_self :
      (a : K) (xs : List K) → 0 < count a xs → suc (count a (erase a xs)) ≡ count a xs
  unfolding erase
  count-erase_self a [] h = absurd (omega arith)
  count-erase_self a (x ∷ xs) h = ground (arith, count-erase_self a xs)

  count-erase_ne : (a b : K) (xs : List K) → a ≢ b → count b (erase a xs) ≡ count b xs
  unfolding erase
  count-erase_ne a b [] n = refl
  count-erase_ne a b (x ∷ xs) n =
      ground (arith, count-erase_ne a b xs n, k.beq_iff x a, k.beq_iff x b)

  count-erase-le :
      (a : K) (xs ys : List K)
      → ((b : K) → count b (a ∷ xs) ≤ count b ys)
      → (b : K) → count b xs ≤ count b (erase a ys)
  count-erase-le a xs ys h b = elim (key_cases a b) [
    | inl (t, e) ↦ ground (arith, h a, h b, beq_refl a, count-erase_self a ys, t, e)
    | inr (f, n) ↦ rw (count-erase_ne a b ys n) (ground (arith, h b, f))
  ]

  -- A list that holds no key more often than another is no longer.
  pub length-le_of_count :
      (xs ys : List K) → ((b : K) → count b xs ≤ count b ys) → length xs ≤ length ys
  length-le_of_count [] ys h = omega arith
  length-le_of_count (x ∷ xs) ys h =
      let here : 0 < count x ys = ground (arith, h x, beq_refl x) in
      omega (
        arith,
        length-erase x ys here,
        length-le_of_count xs (erase x ys) (count-erase-le x xs ys h),
      )

  -- If it is as long as well, it holds every key as often.
  pub count-eq_of_length :
      (xs ys : List K)
      → ((b : K) → count b xs ≤ count b ys)
      → length xs ≡ length ys
      → (b : K) → count b xs ≡ count b ys
  count-eq_of_length [] [] h e b = refl
  count-eq_of_length [] (y ∷ ys) h e b = absurd (omega arith)
  count-eq_of_length (x ∷ xs) ys h e b =
      let here : 0 < count x ys = ground (arith, h x, beq_refl x) in
      let rest : count b xs ≡ count b (erase x ys) =
        count-eq_of_length xs (erase x ys) (count-erase-le x xs ys h)
          (omega (arith, length-erase x ys here)) b in
      elim (key_cases x b) [
        | inl (t, q) ↦ ground (arith, rest, t, q, count-erase_self x ys here)
        | inr (f, n) ↦ ground (arith, rest, f, count-erase_ne x b ys n)
      ]
