-- ===== src/Core/SwapOrNot/Laws.antt =====
-- shared/core/src/swap_or_not.rs: the shuffle is a permutation of the indices.
use psyche.Base.{
  ℕ, zero, suc, ◌+◌, ◌<◌, ◌≡◌, refl, sym, ap, ◌∙◌, some, List, ◌==◌, max, arith, Bool-cases, inl,
  inr, lt→ltb,
}
use native.Mathlib.Nat.{mod-lt}
use psyche.Core.Hashing.{Hashing}
use psyche.Core.SwapOrNot.{
  pivot_of, bit_of, flip_of, shuffle_round, shuffle_rounds, compute_shuffled_index,
  shuffle_round_count,
}

flip-lt : (p n i : ℕ) → i < n → flip_of p n i < n
flip-lt p n i h = grind arith

-- Flipping twice gives the index back.
flip-flip : (p n i : ℕ) → p < n → i < n → flip_of p n (flip_of p n i) ≡ i
flip-flip p n i h k = grind arith

max_comm : (a b : ℕ) → max a b ≡ max b a
max_comm a b = omega arith

module _ ⦃hashing : Hashing⦄ where
  pivot_of-lt : (seed : List ℕ) (k n i : ℕ) → i < n → pivot_of seed k n < n
  unfolding pivot_of
  pivot_of-lt seed k n i h = mod-lt _ (omega arith)

  shuffle_round-lt : (seed : List ℕ) (n k i : ℕ) → i < n → shuffle_round seed n k i < n
  unfolding shuffle_round
  shuffle_round-lt seed n k i h = ground (arith, flip-lt (pivot_of seed k n) n i h)

  -- One round is its own inverse: both members of a pair look at the same bit.
  shuffle_round-shuffle_round :
      (seed : List ℕ) (n k i : ℕ) → i < n → shuffle_round seed n k (shuffle_round seed n k i) ≡ i
  unfolding shuffle_round
  shuffle_round-shuffle_round seed n k i h =
      let p = pivot_of seed k n in
      let back = flip-flip p n i (pivot_of-lt seed k n i h) h in
      elim (Bool-cases (bit_of seed k (max i (flip_of p n i)) == 1)) [
        | inl swap ↦ rw (swap, back, max_comm (flip_of p n i) i, swap)
        | inr keep ↦ rw (keep, keep)
      ]

  shuffle_rounds-lt : (seed : List ℕ) (n m k i : ℕ) → i < n → shuffle_rounds seed n m k i < n
  unfolding shuffle_rounds
  shuffle_rounds-lt seed n zero k i h = h
  shuffle_rounds-lt seed n (suc m) k i h =
      shuffle_rounds-lt seed n m (k + 1) (shuffle_round seed n k i) (shuffle_round-lt seed n k i h)

  shuffle_rounds-injective :
      (seed : List ℕ) (n m k i j : ℕ)
      → i < n
      → j < n
      → shuffle_rounds seed n m k i ≡ shuffle_rounds seed n m k j
      → i ≡ j
  unfolding shuffle_rounds
  shuffle_rounds-injective seed n zero k i j h g e = e
  shuffle_rounds-injective seed n (suc m) k i j h g e =
      let same =
        shuffle_rounds-injective seed n m (k + 1) (shuffle_round seed n k i)
          (shuffle_round seed n k j) (shuffle_round-lt seed n k i h) (shuffle_round-lt seed n k j g)
          e in
      sym (shuffle_round-shuffle_round seed n k i h)
      ∙ ap (shuffle_round seed n k) same
      ∙ shuffle_round-shuffle_round seed n k j g

  -- The rounds undone, last first.
  unshuffle_rounds : List ℕ → ℕ → ℕ → ℕ → ℕ → ℕ
  unshuffle_rounds seed n zero k i = i
  unshuffle_rounds seed n (suc m) k i = shuffle_round seed n k (unshuffle_rounds seed n m (k + 1) i)

  unshuffle_rounds-lt : (seed : List ℕ) (n m k i : ℕ) → i < n → unshuffle_rounds seed n m k i < n
  unfolding unshuffle_rounds
  unshuffle_rounds-lt seed n zero k i h = h
  unshuffle_rounds-lt seed n (suc m) k i h =
      shuffle_round-lt seed n k _ (unshuffle_rounds-lt seed n m (k + 1) i h)

  shuffle_rounds-unshuffle :
      (seed : List ℕ) (n m k i : ℕ)
      → i < n
      → shuffle_rounds seed n m k (unshuffle_rounds seed n m k i) ≡ i
  unfolding shuffle_rounds unshuffle_rounds
  shuffle_rounds-unshuffle seed n zero k i h = refl
  shuffle_rounds-unshuffle seed n (suc m) k i h =
      ap (shuffle_rounds seed n m (k + 1))
        (shuffle_round-shuffle_round seed n k _ (unshuffle_rounds-lt seed n m (k + 1) i h))
      ∙ shuffle_rounds-unshuffle seed n m (k + 1) i h

  -- The shuffle of an index below the count is a position below the count; no two indices have the
  -- same position; and every position below the count is that of some index.
  pub compute_shuffled_index_permutes :
      (n : ℕ) (seed : List ℕ)
      → ((i : ℕ) → i < n → (p : ℕ) × (compute_shuffled_index i n seed ≡ some p) × (p < n))
        × ((i j p : ℕ)
            → compute_shuffled_index i n seed ≡ some p
            → compute_shuffled_index j n seed ≡ some p
            → i ≡ j)
        × ((p : ℕ) → p < n → (i : ℕ) × (i < n) × (compute_shuffled_index i n seed ≡ some p))
  unfolding compute_shuffled_index
  compute_shuffled_index_permutes n seed = (
    λ i h. (
      shuffle_rounds seed n shuffle_round_count 0 i,
      rw (lt→ltb i n h),
      shuffle_rounds-lt seed n shuffle_round_count 0 i h,
    ),
    λ i j p e f. injective i j p e f,
    λ p h. (
      unshuffle_rounds seed n shuffle_round_count 0 p,
      unshuffle_rounds-lt seed n shuffle_round_count 0 p h,
      rw (
        lt→ltb _ n (unshuffle_rounds-lt seed n shuffle_round_count 0 p h),
        shuffle_rounds-unshuffle seed n shuffle_round_count 0 p h,
      ),
    ),
  )
    where
      injective :
          (i j p : ℕ)
          → compute_shuffled_index i n seed ≡ some p
          → compute_shuffled_index j n seed ≡ some p
          → i ≡ j
      injective i j p e f =
          ground (arith, shuffle_rounds-injective seed n shuffle_round_count 0 i j)
