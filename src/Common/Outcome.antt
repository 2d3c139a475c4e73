-- ===== src/Common/Outcome.antt =====
-- The results of fallible functions: `Result<T, E>`, with the panics of the code, and the model's fuel
-- running out, beside them.
use mathlib.Core.Path.{◌≡◌, refl}
use mathlib.Core.Bool.{Bool, true, false}
use mathlib.Core.List.{List, [], ◌∷◌}
use devstack.Common.Lists.{All}

pub data Result {ℓ} (E : Type 0) (A : Type ℓ) : Type ℓ where
  ok : A → Result E A
  err : E → Result E A
  panic out_of_fuel : Result E A

infixl 5 ◌>>=◌ ◌>>◌
abbrev pub ◌>>=◌ {ℓ κ} :
    {E : Type 0} {A : Type ℓ} {B : Type κ} → Result E A → (A → Result E B) → Result E B
ok a >>= f = f a
err e >>= f = err e
panic >>= f = panic
out_of_fuel >>= f = out_of_fuel

abbrev pub ◌>>◌ {ℓ κ} :
    {E : Type 0} {A : Type ℓ} {B : Type κ} → Result E A → Result E B → Result E B
m >> n = m >>= λ _. n

-- `return Err(e)` when the test holds
abbrev pub fail_if : {E : Type 0} → Bool → E → Result E (Unit {0})
fail_if true e = err e
fail_if false e = ok tt

-- What a successful bind went through.
pub bind_ok {ℓ κ} :
    {E : Type 0} {A : Type ℓ} {B : Type κ} (m : Result E A) (f : A → Result E B) {b : B}
    → (m >>= f) ≡ ok b
    → (a : A) × (m ≡ ok a) × (f a ≡ ok b)
bind_ok (ok a) f h = (a, refl, h)
bind_ok (err e) f h = cc
bind_ok panic f h = cc
bind_ok out_of_fuel f h = cc

-- A loop that stops at the first error: `for x in xs { f(x)?; }`
abbrev pub for_each {ℓ} :
    {E : Type 0} {A : Type ℓ} → (A → Result E (Unit {0})) → List A → Result E (Unit {0})
for_each f [] = ok tt
for_each f (x ∷ xs) = let rest = for_each f xs in f x >>= λ _. rest

-- What checks in a row that all passed have passed.
pub seq_ok : {E : Type 0} (m n : Result E (Unit {0})) → (m >> n) ≡ ok tt → (m ≡ ok tt) × (n ≡ ok tt)
seq_ok (ok tt) n h = (refl, h)
seq_ok (err e) n h = cc
seq_ok panic n h = cc
seq_ok out_of_fuel n h = cc

pub fail_if_ok : {E : Type 0} (b : Bool) (e : E) → fail_if b e ≡ ok tt → b ≡ false
fail_if_ok true e h = cc
fail_if_ok false e h = refl

pub for_each_ok {ℓ} :
    {E : Type 0} {A : Type ℓ} (f : A → Result E (Unit {0})) (xs : List A)
    → for_each f xs ≡ ok tt
    → All (λ x. f x ≡ ok tt) xs
for_each_ok f [] h = tt
for_each_ok f (x ∷ xs) h =
    let both = seq_ok (f x) (for_each f xs) h in (both.0, for_each_ok f xs both.1)
