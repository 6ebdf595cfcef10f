-- ===== src/Core/Examples.antt =====
-- Examples for the containers, the bloom filter and the two shuffles.
use psyche.Core.Strings.{to_string, from_str_truncated, try_from}
use psyche.Core.Strings.Laws.{utf8, to_string-from_str_truncated}
use psyche.Base.{
  ℕ, ◌<◌, ◌≡◌, true, some, List, [], ◌∷◌, length, replicate, false, arith, ◌%◌, ◌+◌, if◌then◌else◌,
  inl,
}
use psyche.Base.{refl, none, Bool, ltb}
use psyche.Core.FixedVec.{FixedVec, retain}
use psyche.Core.FixedVec
use psyche.Core.FixedVec.Runs.{
  Operation, pushes, removes, inserts, operated_all, operated_all-Holds,
}
use psyche.Core.FixedVec.Laws.{Holds}
use psyche.Core.Shuffle.{deterministic_shuffle}
use psyche.Core.Shuffle.Laws.{count, deterministic_shuffle_permutes}
use psyche.Core.Hashing.{Hashing}
use psyche.Core.Bloom
use psyche.Core.Bloom.{Bloom, add, contains}
use psyche.Core.Bloom.Laws.{add_no_false_negatives}
use psyche.Core.SwapOrNot.{compute_shuffled_index}
use psyche.Core.SwapOrNot.Laws.{compute_shuffled_index_permutes}

abbrev first_byte : List ℕ → ℕ
first_byte [] = 0
first_byte (x ∷ xs) = x

-- A digest of 32 equal bytes, and one position for each pair of a key's first byte and an index.
instance sample_hashing : Hashing
sample_hashing = record {
  sha256 = λ bytes. replicate 32 ((first_byte bytes + length bytes) % 256);
  hash_at_index = λ key k. first_byte key + k;
}

abbrev empty_filter : Bloom
empty_filter = record { keys = 3 ∷ 8 ∷ []; bits = replicate 64 false }

add_no_false_negatives_example :
    (contains (add empty_filter (5 ∷ [])) (5 ∷ []) ≡ true)
    × ((other : List ℕ)
        → contains empty_filter other ≡ true
        → contains (add empty_filter (5 ∷ [])) other ≡ true)
add_no_false_negatives_example = add_no_false_negatives empty_filter (5 ∷ []) (omega arith)

small_filter : Bloom.new 1 2 64 (3 ∷ 8 ∷ []) ≡ some empty_filter
unfolding Bloom.new Bloom.max_bits
small_filter = refl

compute_shuffled_index_permutes_example :
    ((i : ℕ) → i < 6 → (p : ℕ) × (compute_shuffled_index i 6 (4 ∷ []) ≡ some p) × (p < 6))
    × ((i j p : ℕ)
        → compute_shuffled_index i 6 (4 ∷ []) ≡ some p
        → compute_shuffled_index j 6 (4 ∷ []) ≡ some p
        → i ≡ j)
    × ((p : ℕ) → p < 6 → (i : ℕ) × (i < 6) × (compute_shuffled_index i 6 (4 ∷ []) ≡ some p))
compute_shuffled_index_permutes_example = compute_shuffled_index_permutes 6 (4 ∷ [])

-- Two items in four slots.
abbrev pair : FixedVec ℕ
pair = record { slots = 5 ∷ 6 ∷ 0 ∷ 0 ∷ []; len = 2 }

pair-Holds : Holds pair 4 (5 ∷ 6 ∷ [])
pair-Holds = record { valid = omega arith; cap = refl; same = refl }

abbrev big : ℕ → Bool
big n = ltb 5 n

deterministic_shuffle_permutes_example :
    (ys : List ℕ) × (deterministic_shuffle 42 (1 ∷ 2 ∷ 3 ∷ []) ≡ some ys)
    × ((p : ℕ → Bool) → count p ys ≡ count p (1 ∷ 2 ∷ 3 ∷ []))
    × (length ys ≡ 3)
deterministic_shuffle_permutes_example = deterministic_shuffle_permutes 42 (1 ∷ 2 ∷ 3 ∷ [])

-- "né" is three bytes; its second character is cut off in an array of two.
abbrev run_text : List ℕ
run_text = 110 ∷ 233 ∷ []

to_string-from_str_truncated_example :
    (to_string (from_str_truncated 2 (utf8 run_text)) ≡ 110 ∷ 239 ∷ 191 ∷ 189 ∷ [])
    × ((k : ℕ) → to_string (from_str_truncated (3 + k) (utf8 run_text)) ≡ 110 ∷ 195 ∷ 169 ∷ [])
    × (length (from_str_truncated 2 (utf8 run_text)) ≡ 2)
    × (try_from 2 (utf8 run_text) ≡ (
        if ltb 2 (length (utf8 run_text))
        then none
        else some (from_str_truncated 2 (utf8 run_text))))
to_string-from_str_truncated_example =
    to_string-from_str_truncated 2 run_text
      ((omega arith, inl (omega arith)), ((omega arith, inl (omega arith)), tt))

-- The last push and the insertion behind the end fail.
abbrev some_operations : List (Operation ℕ)
some_operations =
    pushes 5 ∷ pushes 6 ∷ pushes 7 ∷ pushes 8 ∷ removes 0 ∷ inserts 4 9 ∷ inserts 1 9 ∷ []

operated_all-Holds_example :
    Holds (operated_all 0 some_operations (FixedVec.new 0 3)) 3 (6 ∷ 9 ∷ 7 ∷ [])
    × (FixedVec.get 1 (operated_all 0 some_operations (FixedVec.new 0 3)) ≡ some 9)
operated_all-Holds_example = operated_all-Holds 0 3 some_operations 1
