-- ===== src/Tasks/Summary.antt =====
-- src/services/tasks/history.rs: the length and the text of a summary.

use Prim.Native.String.{String, [] as empty, ◌∷◌ as ◌then◌, ◌++◌ as ◌and◌}
use Prim.Native.String.append.{cons as append_cons}
use devstack.Common.{
  ℕ, zero, suc, ◌+◌, ◌≤◌, ◌≡◌, refl, sym, ap, ◌∙◌, subst, inl, inr, true, false, arith, leb, eqb,
  if◌then◌else◌, str_key, nat_key, Bool-cases, count,
}
use devstack.Logs.{trim}
use devstack.Tasks.{ellipsis, summarize_from, summarize_stderr_line}

-- `chars().count()`
abbrev pub char_count : String → ℕ
char_count empty = 0
char_count (c then s) = suc (char_count s)

-- The first characters of a text, with an ellipsis behind them.
abbrev pub cut : ℕ → String → String
cut n empty = empty
cut zero (c then s) = ellipsis then empty
cut (suc n) (c then s) = c then cut n s

summarize_from-cut : (n count : ℕ) (s : String) → summarize_from (suc (count + n)) count s ≡ cut n s
unfolding summarize_from
summarize_from-cut n count empty = refl
summarize_from-cut zero count (c then s) =
    let last : leb (suc (count + 0)) (count + 1) ≡ true = ground arith in rw last refl
summarize_from-cut (suc n) count (c then s) =
    let more : leb (suc (count + suc n)) (count + 1) ≡ false = ground arith in
    rw more (
      ap (λ z. c then z)
        (ap (λ m. summarize_from m (suc count) s) (omega arith)
          ∙ summarize_from-cut n (suc count) s))

char_count-cut : (n : ℕ) (s : String) → char_count (cut n s) ≤ suc n
char_count-cut n empty = omega arith
char_count-cut zero (c then s) = omega arith
char_count-cut (suc n) (c then s) = omega (arith, char_count-cut n s)

-- `chars().take(n)`
abbrev pub take_chars : ℕ → String → String
take_chars n empty = empty
take_chars zero (c then s) = empty
take_chars (suc n) (c then s) = c then take_chars n s

cut_lem :
    (n : ℕ) (s : String)
    → cut n s ≡ (if leb (char_count s) n then s else (take_chars n s and (ellipsis then empty)))
cut_lem n empty = let within : leb 0 n ≡ true = ground arith in rw within refl
cut_lem zero (c then s) =
    let above : leb (suc (char_count s)) 0 ≡ false = ground arith in rw above refl
cut_lem (suc n) (c then s) = elim (Bool-cases (leb (char_count s) n)) [
  | inl t ↦
      let above : leb (suc (char_count s)) (suc n) ≡ true = ground arith in
      rw (cut_lem n s, t, above) refl
  | inr f ↦
      let above : leb (suc (char_count s)) (suc n) ≡ false = ground arith in
      rw (cut_lem n s, f, above) (sym (append_cons c (take_chars n s) (ellipsis then empty)))
]

summarize_stderr_line_eq :
    (value : String) (n : ℕ) → summarize_stderr_line value (suc n) ≡ cut n (trim value)
unfolding summarize_stderr_line
summarize_stderr_line_eq value n =
    let positive : eqb (suc n) 0 ≡ false = ground arith in
    rw positive (
      ap (λ m. summarize_from m 0 (trim value)) (omega arith) ∙ summarize_from-cut n 0 (trim value))

-- A summary of at most n + 1 characters has no more than these; it is the trimmed text where that has
-- at most n characters, and the text's first n characters with an ellipsis behind them otherwise.
pub summarize_stderr_line_lem :
    (value : String) (n : ℕ)
    → (char_count (summarize_stderr_line value (suc n)) ≤ suc n)
      × (summarize_stderr_line value (suc n) ≡ (
          if leb (char_count (trim value)) n
          then trim value
          else (take_chars n (trim value) and (ellipsis then empty))))
summarize_stderr_line_lem value n = (
  subst (λ z. char_count z ≤ suc n) (sym (summarize_stderr_line_eq value n))
      (char_count-cut n (trim value)),
  summarize_stderr_line_eq value n ∙ cut_lem n (trim value),
)
