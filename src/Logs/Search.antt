-- ===== src/Logs/Search.antt =====
-- src/logfmt.rs: what the search for a keyword finds.

use devstack.Common.{
  ℕ, zero, suc, ◌+◌, ◌-◌, ◌≤◌, ◌<◌, ◌≡◌, refl, sym, ap, ◌∙◌, ◌↔◌, inl, inr, Bool, true, false, not,
  ◌&&◌, ◌||◌, List, [], ◌∷◌, ◌++◌, arith, ltb, eqb, eqb_iff, str_key, nat_key, Bool-cases,
  key_cases, beq-false_of_ne, length, length-append,
}
use devstack.Logs.Level.{
  is_word_char, bytes_eq, take, drop, word_at, matches_at, search_from, has_word_boundaries,
  contains_keyword_case_insensitive,
}

-- Whether a text ends, and begins, with a word's byte.
abbrev pub ends_in_word : List ℕ → Bool
ends_in_word [] = false
ends_in_word (x ∷ []) = is_word_char x
ends_in_word (x ∷ y ∷ xs) = ends_in_word (y ∷ xs)

abbrev pub begins_with_word : List ℕ → Bool
begins_with_word [] = false
begins_with_word (x ∷ xs) = is_word_char x

-- What the search finds, by the source's test of a byte.
abbrev pub Found : List ℕ → List ℕ → Type 0
Found bytes keyword =
    (before : List ℕ) × (word : List ℕ) × (after : List ℕ) × (bytes ≡ before ++ (word ++ after))
    × (bytes_eq word keyword ≡ true)
    × (ends_in_word before ≡ false)
    × (begins_with_word after ≡ false)

take-drop : (n : ℕ) (xs : List ℕ) → take n xs ++ drop n xs ≡ xs
take-drop zero xs = refl
take-drop (suc n) [] = refl
take-drop (suc n) (x ∷ xs) = ap (λ z. x ∷ z) (take-drop n xs)

length-take : (n : ℕ) (xs : List ℕ) → n ≤ length xs → length (take n xs) ≡ n
length-take zero xs h = refl
length-take (suc n) [] h = absurd (omega arith)
length-take (suc n) (x ∷ xs) h = omega (arith, length-take n xs)

length-drop : (n : ℕ) (xs : List ℕ) → n ≤ length xs → length (drop n xs) + n ≡ length xs
length-drop zero xs h = omega arith
length-drop (suc n) [] h = absurd (omega arith)
length-drop (suc n) (x ∷ xs) h = omega (arith, length-drop n xs)

drop-append : (xs ys : List ℕ) → drop (length xs) (xs ++ ys) ≡ ys
drop-append [] ys = refl
drop-append (x ∷ xs) ys = drop-append xs ys

take-append : (xs ys : List ℕ) → take (length xs) (xs ++ ys) ≡ xs
take-append [] ys = refl
take-append (x ∷ xs) ys = ap (λ z. x ∷ z) (take-append xs ys)

word_at-append : (xs ys : List ℕ) → word_at (length xs) (xs ++ ys) ≡ begins_with_word ys
word_at-append [] [] = refl
word_at-append [] (y ∷ ys) = refl
word_at-append (x ∷ xs) ys = word_at-append xs ys

word_at-last :
    (x : ℕ) (xs ys : List ℕ) → word_at (length xs) (x ∷ (xs ++ ys)) ≡ ends_in_word (x ∷ xs)
word_at-last x [] ys = refl
word_at-last x (y ∷ xs) ys = word_at-last y xs ys

eqb-suc : (n : ℕ) → eqb (suc n) 0 ≡ false
eqb-suc n = ground arith

before_ok :
    (xs ys : List ℕ)
    → (eqb (length xs) 0 || not (word_at (length xs - 1) (xs ++ ys))) ≡ not (ends_in_word xs)
before_ok [] ys = refl
before_ok (x ∷ xs) ys =
    rw (eqb-suc (length xs))
      (ap (λ n. not (word_at n (x ∷ (xs ++ ys)))) (omega arith) ∙ ap not (word_at-last x xs ys))

after_ok :
    (xs ys : List ℕ)
    → (eqb (length xs) (length (xs ++ ys)) || not (word_at (length xs) (xs ++ ys)))
      ≡ not (begins_with_word ys)
after_ok xs [] =
    rw ((eqb_iff (length xs) (length (xs ++ []))).1 (omega (arith, length-append xs []))) refl
after_ok xs (y ∷ ys) =
    let short : eqb (length xs) (length (xs ++ y ∷ ys)) ≡ false =
      beq-false_of_ne (length xs) (length (xs ++ y ∷ ys))
        (λ e. omega (arith, length-append xs (y ∷ ys), e)) in
    rw short (ap not (word_at-append xs (y ∷ ys)))

append_assoc : (xs ys zs : List ℕ) → xs ++ (ys ++ zs) ≡ (xs ++ ys) ++ zs
append_assoc [] ys zs = refl
append_assoc (x ∷ xs) ys zs = ap (λ z. x ∷ z) (append_assoc xs ys zs)

and_cong : {a b c d : Bool} → a ≡ b → c ≡ d → (a && c) ≡ (b && d)
and_cong e f = λ i. e i && f i

-- The tests at a place where the text is split.
matches_at-split :
    (before word after keyword : List ℕ)
    → length word ≡ length keyword
    → matches_at (before ++ (word ++ after)) keyword (length before)
      ≡ (bytes_eq word keyword && (not (ends_in_word before) && not (begins_with_word after)))
unfolding matches_at has_word_boundaries
matches_at-split before word after keyword same =
    let bytes = before ++ (word ++ after) in
    let middle : take (length keyword) (drop (length before) bytes) ≡ word =
      ap (take (length keyword)) (drop-append before (word ++ after))
      ∙ ap (λ n. take n (word ++ after)) (sym same)
      ∙ take-append word after in
    let last : length before + length keyword ≡ length (before ++ word) =
      omega (arith, length-append before word) in
    let tail : (eqb (length before + length keyword) (length bytes)
          || not (word_at (length before + length keyword) bytes))
        ≡ not (begins_with_word after) =
      ap (λ n. eqb n (length bytes) || not (word_at n bytes)) last
      ∙ ap
          (λ z.
            eqb (length (before ++ word)) (length z) || not (word_at (length (before ++ word)) z))
          (append_assoc before word after)
      ∙ after_ok (before ++ word) after in
    and_cong (ap (λ z. bytes_eq z keyword) middle)
      (and_cong (before_ok before (word ++ after)) tail)

bytes_eq-length : (xs ys : List ℕ) → bytes_eq xs ys ≡ true → length xs ≡ length ys
bytes_eq-length [] [] h = refl
bytes_eq-length [] (y ∷ ys) h = cc
bytes_eq-length (x ∷ xs) [] h = cc
bytes_eq-length (x ∷ xs) (y ∷ ys) h = ground (arith, bytes_eq-length xs ys)

search_from_iff :
    (bytes keyword : List ℕ) (places start : ℕ)
    → (search_from bytes keyword places start ≡ true)
      ↔ ((n : ℕ) × (start ≤ n) × (n < start + places) × (matches_at bytes keyword n ≡ true))
unfolding search_from
search_from_iff bytes keyword zero start = (λ h. cc, λ (n, low, high, m). absurd (omega arith))
search_from_iff bytes keyword (suc places) start =
    let rest = search_from_iff bytes keyword places (suc start) in
    elim (Bool-cases (matches_at bytes keyword start)) [
      | inl t ↦ (λ h. (start, omega arith, omega arith, t), λ found. rw t refl)
      | inr f ↦ (
        λ h.
            let (n, low, high, m) = rest.0 (rw f at h) in
            (n, omega (arith, low), omega (arith, high), m),
        λ (n, low, high, m). rw f (
            rest.1 (
              n,
              elim (key_cases start n) [
                | inl (_, e) ↦ cc (f, m, e)
                | inr (_, ne) ↦ omega (arith, low, ne)
              ],
              omega (arith, high),
              m,
            )),
      )
    ]

and_split : (a b c : Bool) → (a && (not b && not c)) ≡ true → (a ≡ true) × (b ≡ false) × (c ≡ false)
and_split true false false h = (refl, refl, refl)
and_split true false true h = cc
and_split true true c h = cc
and_split false b c h = cc

matches_at-Found :
    (bytes keyword : List ℕ) (n : ℕ)
    → n + length keyword ≤ length bytes
    → matches_at bytes keyword n ≡ true
    → Found bytes keyword
matches_at-Found bytes keyword n fits m =
    let before = take n bytes in
    let rest = drop n bytes in
    let word = take (length keyword) rest in
    let after = drop (length keyword) rest in
    let here : length before ≡ n = length-take n bytes (omega (arith, fits)) in
    let size : length word ≡ length keyword =
      length-take (length keyword) rest
        (omega (arith, fits, length-drop n bytes (omega (arith, fits)))) in
    let whole : before ++ (word ++ after) ≡ bytes =
      ap (λ z. before ++ z) (take-drop (length keyword) rest) ∙ take-drop n bytes in
    let same : matches_at bytes keyword n
        ≡ (bytes_eq word keyword && (not (ends_in_word before) && not (begins_with_word after))) =
      ap (λ k. matches_at bytes keyword k) (sym here)
      ∙ ap (λ z. matches_at z keyword (length before)) (sym whole)
      ∙ matches_at-split before word after keyword size in
    let (equal, first, last) = and_split _ _ _ (sym same ∙ m) in
    (before, word, after, sym whole, equal, first, last)

pub contains_keyword-Found :
    (bytes keyword : List ℕ)
    → (contains_keyword_case_insensitive bytes keyword ≡ true) ↔ Found bytes keyword
unfolding contains_keyword_case_insensitive
contains_keyword-Found bytes keyword = (
  λ h. elim (Bool-cases (ltb (length bytes) (length keyword))) [
    | inl t ↦ cc (rw (t, contains_keyword_case_insensitive) at h)
    | inr f ↦
        let room : length keyword ≤ length bytes = ground (arith, f) in
        let (n, low, high, m) =
          (search_from_iff bytes keyword (suc (length bytes - length keyword)) 0).0
            (rw (f, contains_keyword_case_insensitive) at h) in
        matches_at-Found bytes keyword n (omega (arith, room, high)) m
  ],
  λ (before, word, after, whole, equal, first, last).
      let size = bytes_eq-length word keyword equal in
      let total : length bytes ≡ length before + (length keyword + length after) =
        ap length whole
        ∙ omega (arith, length-append before (word ++ after), length-append word after, size) in
      let room : ltb (length bytes) (length keyword) ≡ false = ground (arith, total) in
      let here : matches_at bytes keyword (length before) ≡ true =
        ap (λ z. matches_at z keyword (length before)) whole
        ∙ matches_at-split before word after keyword size
        ∙ rw (equal, first, last) refl in
      rw (room, contains_keyword_case_insensitive)
        ((search_from_iff bytes keyword (suc (length bytes - length keyword)) 0).1
          (length before, omega arith, omega (arith, total), here)),
)
