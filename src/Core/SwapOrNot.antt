-- ===== src/Core/SwapOrNot.antt =====
-- shared/core/src/swap_or_not.rs: the swap-or-not shuffle of an index. The sum of the pivot and the
-- index count is taken without its word: the callers' counts are 16-bit numbers.
pub mod Laws
use psyche.Base.{
  ℕ, zero, suc, ◌+◌, ◌-◌, ◌*◌, ◌/◌, ◌%◌, ◌^◌, Bool, true, false, Option, none, some, List, [], ◌∷◌,
  ltb, ◌==◌, if◌then◌else◌, max, get_elem?, take,
}
use psyche.Core.Hashing.{Hashing, sha256v}

abbrev pub shuffle_round_count : ℕ
shuffle_round_count = 90

-- `to_le_bytes` of a word of `w` bytes
unfoldable pub to_le_bytes : ℕ → ℕ → List ℕ
to_le_bytes zero n = []
to_le_bytes (suc w) n = (n % 256) ∷ to_le_bytes w (n / 256)

-- `from_le_bytes`
unfoldable pub from_le_bytes : List ℕ → ℕ
from_le_bytes [] = 0
from_le_bytes (b ∷ bs) = b + 256 * from_le_bytes bs

-- A byte of a digest, which has 32 of them, so that the default is never read.
abbrev byte_at : List ℕ → ℕ → ℕ
byte_at bytes i = elim (get_elem? bytes i) [ none ↦ 0 | some b ↦ b ]

abbrev flip_of : ℕ → ℕ → ℕ → ℕ
flip_of pivot index_count index = (pivot + index_count - index) % index_count

module _ ⦃hashing : Hashing⦄ where
  unfoldable pub pivot_of : List ℕ → ℕ → ℕ → ℕ
  pivot_of seed round index_count =
      from_le_bytes (take 8 (sha256v (seed ∷ (round ∷ []) ∷ []))) % index_count

  unfoldable pub bit_of : List ℕ → ℕ → ℕ → ℕ
  bit_of seed round position =
      let source = sha256v (seed ∷ (round ∷ []) ∷ take 4 (to_le_bytes 8 (position / 256)) ∷ []) in
      (byte_at source (position % 256 / 8) / 2 ^ (position % 8)) % 2

  -- One turn of the loop.
  unfoldable pub shuffle_round : List ℕ → ℕ → ℕ → ℕ → ℕ
  shuffle_round seed index_count round current_index =
      let flip = flip_of (pivot_of seed round index_count) index_count current_index in
      let position = max current_index flip in
      if bit_of seed round position == 1 then flip else current_index

  -- The rounds `round .. round + n`.
  unfoldable pub shuffle_rounds : List ℕ → ℕ → ℕ → ℕ → ℕ → ℕ
  shuffle_rounds seed index_count zero round current_index = current_index
  shuffle_rounds seed index_count (suc n) round current_index =
      shuffle_rounds seed index_count n (round + 1)
        (shuffle_round seed index_count round current_index)

  -- `compute_shuffled_index`; `none` is its assertion failing.
  unfoldable pub compute_shuffled_index : ℕ → ℕ → List ℕ → Option ℕ
  compute_shuffled_index index index_count seed =
      if ltb index index_count
      then some (shuffle_rounds seed index_count shuffle_round_count 0 index)
      else none
