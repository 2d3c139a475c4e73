-- ===== src/Common/Order.antt =====
-- The order of texts, by their characters, as a relation of its own, with its laws.
use Prim.Native.Nat.{Ordering, compare as compare_ℕ}
use Prim.Native.Char.{code}
use Prim.Native.String.{String, [] as empty, ◌∷◌ as ◌then◌, compare as compare_str, then as after}
use Prim.Native.String.compare.{nil-nil, nil-cons, cons-nil, cons-cons}
use mathlib.Core.Path.{◌≡◌, refl, ap, ◌∙◌}
use mathlib.Core.Bool.{Bool, true, false, ◌||◌, ◌&&◌}
use native.Mathlib.Omega.{arith}
use text.Mathlib.TextEquality.{codes_equal}
use devstack.Common.Tests.{str_ltb, ltb, eqb}

-- The first text is a proper beginning of the second, or has the smaller character where they differ.
abbrev pub is_before : String → String → Bool
is_before empty empty = false
is_before empty (d then t) = true
is_before (c then s) empty = false
is_before (c then s) (d then t) = ltb (code c) (code d) || eqb (code c) (code d) && is_before s t

abbrev is_less : Ordering → Bool
is_less Ordering.lt = true
is_less Ordering.eq = false
is_less Ordering.gt = false

is_less-after :
    (o : Ordering) (p : Ordering)
    → is_less (after o p) ≡ (is_less o || (elim o [ Ordering.eq ↦ true | _ ↦ false ]) && is_less p)
is_less-after Ordering.lt p = refl
is_less-after Ordering.eq p = refl
is_less-after Ordering.gt p = refl

is_less_eq : (s t : String) → is_less (compare_str s t) ≡ is_before s t
is_less_eq empty empty = ap is_less (λ i. nil-nil i)
is_less_eq empty (d then t) = ap is_less (λ i. nil-cons d t i)
is_less_eq (c then s) empty = ap is_less (λ i. cons-nil c s i)
is_less_eq (c then s) (d then t) =
    ap is_less (λ i. cons-cons c d s t i)
    ∙ is_less-after (compare_ℕ (code c) (code d)) (compare_str s t)
    ∙ ap (λ b. ltb (code c) (code d) || eqb (code c) (code d) && b) (is_less_eq s t)

pub is_before_irrefl : (s : String) → is_before s s ≡ false
is_before_irrefl empty = refl
is_before_irrefl (c then s) = ground (arith, is_before_irrefl s)

pub is_before_trans :
    (s t u : String) → is_before s t ≡ true → is_before t u ≡ true → is_before s u ≡ true
is_before_trans empty empty u h k = cc
is_before_trans empty (d then t) empty h k = cc
is_before_trans empty (d then t) (e then u) h k = refl
is_before_trans (c then s) empty u h k = cc
is_before_trans (c then s) (d then t) empty h k = cc
is_before_trans (c then s) (d then t) (e then u) h k = ground (arith, is_before_trans s t u)

pub is_before_connex : (s t : String) → is_before s t ≡ false → is_before t s ≡ false → s ≡ t
is_before_connex empty empty h k = refl
is_before_connex empty (d then t) h k = cc
is_before_connex (c then s) empty h k = cc
is_before_connex (c then s) (d then t) h k =
    let same : code c ≡ code d = ground arith in
    let char : c ≡ d = codes_equal c d (ground (arith, same)) in
    let rest : s ≡ t = is_before_connex s t (ground (arith, same)) (ground (arith, same)) in cc

-- The comparison of two texts in the source's order says which comes before.
pub str_ltb_eq : (s t : String) → str_ltb s t ≡ is_before s t
str_ltb_eq s t = less_eq (compare_str s t) ∙ is_less_eq s t
  where
    less_eq : (o : Ordering) → (elim o [ Ordering.lt ↦ true | _ ↦ false ]) ≡ is_less o
    less_eq Ordering.lt = refl
    less_eq Ordering.eq = refl
    less_eq Ordering.gt = refl
