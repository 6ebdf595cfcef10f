-- ===== src/Core/Shuffle.antt =====
-- shared/core/src/lcg.rs and deterministic_shuffle.rs: the linear congruential generator and the
-- Fisher-Yates shuffle that it drives.
pub mod Laws
use psyche.Base.{
  ℕ, zero, suc, ◌+◌, ◌-◌, ◌*◌, ◌%◌, List, [], ◌∷◌, Option, some, none, get_elem?, set, length,
  u64_mod,
}

abbrev lcg_a : ℕ
lcg_a = 6364136223846793005

abbrev lcg_c : ℕ
lcg_c = 1442695040888963407

-- `next_u64`: the new state, which is the number drawn
unfoldable pub next_u64 : ℕ → ℕ
next_u64 state = (state * lcg_a % u64_mod + lcg_c) % u64_mod

-- `next_range`: the number drawn from a state; the state after it is that of `next_u64`
unfoldable pub next_range : ℕ → ℕ → ℕ
next_range state max = next_u64 state % max

module _ {T : Type 0} where
  -- `items.swap(i, j)`; `none` is its panic at an index out of range, here and below.
  unfoldable pub swap : ℕ → ℕ → List T → Option (List T)
  swap i j items = elim (get_elem? items i) [
    | none ↦ none
    | some x ↦ elim (get_elem? items j) [ none ↦ none | some y ↦ some (set (set items i y) j x) ]
  ]

  -- The loop over `(1..=i).rev()`, in a state of the generator.
  unfoldable pub shuffle_from : ℕ → ℕ → List T → Option (List T)
  shuffle_from zero state items = some items
  shuffle_from (suc i) state items = elim (swap (i + 1) (next_range state (i + 2)) items) [
    | none ↦ none
    | some swapped ↦ shuffle_from i (next_u64 state) swapped
  ]

  unfoldable pub deterministic_shuffle : ℕ → List T → Option (List T)
  deterministic_shuffle seed items = shuffle_from (length items - 1) seed items
