-- ===== src/Common/Tests.antt =====
-- Boolean tests, the conditional, and keys that can be compared.
use Prim.Native.Nat.{ℕ, compare, Ordering}
use Prim.Native.String.{String, compare as compare_str}
use mathlib.Core.Path.{◌≡◌, refl}
use mathlib.Core.Logic.{◌↔◌, ◌⊎◌, ◌≢◌, inl, inr}
use mathlib.Core.Bool.{Bool, true, false}
use mathlib.Core.Option.{Option, none, some}
use native.Mathlib.Omega.{arith}
use text.Mathlib.Text.{◌==◌ as str_beq}
use text.Mathlib.TextEquality.{eq_iff}

abbrev pub ltb : ℕ → ℕ → Bool
ltb a b = elim (compare a b) [ Ordering.lt ↦ true | _ ↦ false ]

abbrev pub leb : ℕ → ℕ → Bool
leb a b = elim (compare a b) [ Ordering.gt ↦ false | _ ↦ true ]

abbrev pub eqb : ℕ → ℕ → Bool
eqb a b = elim (compare a b) [ Ordering.eq ↦ true | _ ↦ false ]

infix 1 if◌then◌else◌
abbrev pub if◌then◌else◌ {ℓ} : {A : Type ℓ} → Bool → A → A → A
if true then x else y = x
if false then x else y = y

pub eqb_iff : (a b : ℕ) → (eqb a b ≡ true) ↔ (a ≡ b)
eqb_iff a b = ground arith

-- The order on strings is that of their code points, which is that of their UTF-8 bytes.
abbrev pub str_ltb : String → String → Bool
str_ltb s t = elim (compare_str s t) [ Ordering.lt ↦ true | _ ↦ false ]

-- A type whose values can be the keys of a map: Rust's `Eq` and `Ord`.
pub record Key (K : Type 0) : Type 0 where
  pub beq : K → K → Bool
  pub lt : K → K → Bool
  pub beq_iff : (a b : K) → (beq a b ≡ true) ↔ (a ≡ b)

instance abbrev pub str_key : Key String
str_key = record { beq = str_beq; lt = str_ltb; beq_iff = eq_iff }

instance abbrev pub nat_key : Key ℕ
nat_key = record { beq = eqb; lt = ltb; beq_iff = eqb_iff }

infix 50 ◌==◌
abbrev pub ◌==◌ : {K : Type 0} ⦃k : Key K⦄ → K → K → Bool
◌==◌ ⦃k⦄ = k.beq

pub Bool-cases : (b : Bool) → (b ≡ true) ⊎ (b ≡ false)
Bool-cases true = inl refl
Bool-cases false = inr refl

pub Option-cases {ℓ} : {A : Type ℓ} (o : Option A) → (o ≡ none) ⊎ ((a : A) × (o ≡ some a))
Option-cases none = inl refl
Option-cases (some a) = inr (a, refl)

module _ {K : Type 0} ⦃k : Key K⦄ where
  -- A comparison of two keys decides whether they are equal.
  pub key_cases : (a b : K) → ((a == b) ≡ true) × (a ≡ b) ⊎ ((a == b) ≡ false) × (a ≢ b)
  key_cases a b = elim (Bool-cases (a == b)) [
    | inl e ↦ inl (e, (k.beq_iff a b).0 e)
    | inr n ↦ inr (n, λ e. cc (n, (k.beq_iff a b).1 e))
  ]

  pub beq_refl : (a : K) → (a == a) ≡ true
  beq_refl a = (k.beq_iff a a).1 refl

  pub beq-false_of_ne : (a b : K) → a ≢ b → (a == b) ≡ false
  beq-false_of_ne a b n = elim (key_cases a b) [ inl (_, e) ↦ absurd (n e) | inr (f, _) ↦ f ]
