-- ===== src/Logs/Keyword.antt =====
-- src/logfmt.rs: the search for a keyword and the words of a text.

use devstack.Common.{
  ℕ, ◌≤◌, ◌≡◌, refl, ◌↔◌, ◌⊎◌, true, false, List, [], ◌∷◌, ◌++◌, arith, str_key, nat_key,
}
use devstack.Logs.Level.{is_word_char, bytes_eq, contains_keyword_case_insensitive}
use devstack.Logs.Search.{ends_in_word, begins_with_word, contains_keyword-Found}

-- A digit, a letter or the underscore, in ASCII.
abbrev pub IsWordByte : ℕ → Type 0
IsWordByte b = ((48 ≤ b) × (b ≤ 57)) ⊎ (((65 ≤ b) × (b ≤ 90)) ⊎ (((97 ≤ b) × (b ≤ 122)) ⊎ (b ≡ 95)))

is_word_char_iff : (b : ℕ) → (is_word_char b ≡ false) ↔ (¬ IsWordByte b)
unfolding is_word_char
is_word_char_iff b = ground arith

-- The last byte, and the first byte, is a word's.
abbrev pub EndsInWord : List ℕ → Type 0
EndsInWord [] = ⊥
EndsInWord (x ∷ []) = IsWordByte x
EndsInWord (x ∷ y ∷ xs) = EndsInWord (y ∷ xs)

abbrev pub BeginsWithWord : List ℕ → Type 0
BeginsWithWord [] = ⊥
BeginsWithWord (x ∷ xs) = IsWordByte x

ends_iff : (xs : List ℕ) → (ends_in_word xs ≡ false) ↔ (¬ EndsInWord xs)
ends_iff [] = (λ _ h. h, λ _. refl)
ends_iff (x ∷ []) = is_word_char_iff x
ends_iff (x ∷ y ∷ xs) = ends_iff (y ∷ xs)

begins_iff : (xs : List ℕ) → (begins_with_word xs ≡ false) ↔ (¬ BeginsWithWord xs)
begins_iff [] = (λ _ h. h, λ _. refl)
begins_iff (x ∷ xs) = is_word_char_iff x

-- The text has the keyword as a word of its own, in upper or lower case.
abbrev pub HasWord : List ℕ → List ℕ → Type 0
HasWord bytes keyword =
    (before : List ℕ) × (word : List ℕ) × (after : List ℕ) × (bytes ≡ before ++ (word ++ after))
    × (bytes_eq word keyword ≡ true)
    × (¬ EndsInWord before)
    × (¬ BeginsWithWord after)

-- The search answers yes exactly when the text has the keyword somewhere, in upper or lower case, with no
-- letter, digit or underscore right before it or after it.
pub contains_keyword_iff :
    (bytes keyword : List ℕ)
    → (contains_keyword_case_insensitive bytes keyword ≡ true) ↔ HasWord bytes keyword
contains_keyword_iff bytes keyword =
    let search = contains_keyword-Found bytes keyword in
    (
      λ h.
          let (before, word, after, whole, equal, first, last) = search.0 h in
          (before, word, after, whole, equal, (ends_iff before).0 first, (begins_iff after).0 last),
      λ (before, word, after, whole, equal, first, last).
          search.1 (
            before,
            word,
            after,
            whole,
            equal,
            (ends_iff before).1 first,
            (begins_iff after).1 last,
          ),
    )
