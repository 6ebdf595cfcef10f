-- ===== src/Core/Shuffle/Laws.antt =====
-- shared/core/src/deterministic_shuffle.rs: a shuffle keeps every item as often as it was there.
use native.Mathlib.Nat.{mod-lt}
use psyche.Base.{
  ◌<◌, ◌-◌, get_elem?-in_range, ℕ, zero, suc, ◌+◌, ◌≡◌, refl, ◌∙◌, Bool, true, false, List, [], ◌∷◌,
  get_elem?, set, length, arith, length-set, some, get_elem?-set_self, get_elem?-set_ne,
  get_elem?-bound,
}
use native.Mathlib.Decide.{ℕ_discrete}
use psyche.Core.Shuffle.{next_u64, next_range, swap, shuffle_from, deterministic_shuffle}

abbrev one_if : Bool → ℕ
one_if true = 1
one_if false = 0

next_range-lt : (state max : ℕ) → 0 < max → next_range state max < max
unfolding next_range
next_range-lt state max h = mod-lt (next_u64 state) h

module _ {T : Type 0} where
  -- How many items pass a test.
  abbrev pub count : (T → Bool) → List T → ℕ
  count p [] = 0
  count p (x ∷ xs) = one_if (p x) + count p xs

  -- A write exchanges one item for another.
  count-set :
      (p : T → Bool) (xs : List T) (i : ℕ) (x y : T)
      → get_elem? xs i ≡ some x
      → count p (set xs i y) + one_if (p x) ≡ count p xs + one_if (p y)
  count-set p [] i x y h = cc
  count-set p (z ∷ xs) zero x y h = ground arith
  count-set p (z ∷ xs) (suc i) x y h = omega (arith, count-set p xs i x y h)

  -- The item at `j` once `y`, which was there, has been written at `i`.
  get_elem?-after :
      (xs : List T) (i j : ℕ) (x y : T)
      → get_elem? xs i ≡ some x
      → get_elem? xs j ≡ some y
      → get_elem? (set xs i y) j ≡ some y
  get_elem?-after xs i j x y e e' = elim (ℕ_discrete i j) [
    | yes same ↦ ground (arith, get_elem?-set_self xs i y, get_elem?-bound xs i e)
    | no differs ↦ get_elem?-set_ne xs i j y differs ∙ e'
  ]

  -- A swap in range succeeds, and keeps every item as often as it was there.
  swap_permutes :
      (i j : ℕ) (xs : List T)
      → i < length xs
      → j < length xs
      → (ys : List T) × (swap i j xs ≡ some ys)
        × ((p : T → Bool) → count p ys ≡ count p xs)
        × (length ys ≡ length xs)
  unfolding swap
  swap_permutes i j xs below below' =
      let (x, e) = get_elem?-in_range xs i below in
      let (y, e') = get_elem?-in_range xs j below' in
      (
        set (set xs i y) j x,
        ground (arith, e, e'),
        (λ p. omega (
          arith,
          count-set p xs i x y e,
          count-set p (set xs i y) j y x (get_elem?-after xs i j x y e e'),
        )),
        length-set (set xs i y) j x ∙ length-set xs i y,
      )

  shuffle_from_permutes :
      (i state : ℕ) (xs : List T)
      → i < length xs
      → (ys : List T) × (shuffle_from i state xs ≡ some ys)
        × ((p : T → Bool) → count p ys ≡ count p xs)
        × (length ys ≡ length xs)
  unfolding shuffle_from
  shuffle_from_permutes zero state xs below = (xs, refl, (λ p. refl), refl)
  shuffle_from_permutes (suc i) state xs below =
      let j : ℕ = next_range state (i + 2) in
      let bound : j < i + 2 = next_range-lt state (i + 2) (omega arith) in
      let (ys, swapped, counts, long) =
        swap_permutes (i + 1) j xs (omega (arith, below)) (omega (arith, below, bound)) in
      let (zs, rest, counts', long') =
        shuffle_from_permutes i (next_u64 state) ys (omega (arith, below, long)) in
      (zs, ground (arith, swapped, rest), (λ p. counts' p ∙ counts p), long' ∙ long)

  shuffle_nothing : (seed : ℕ) → shuffle_from {T = T} 0 seed [] ≡ some []
  unfolding shuffle_from
  shuffle_nothing seed = refl

  -- A shuffle never indexes out of range, and is a permutation: for every test, as many items pass
  -- it after the shuffle as before, and there are as many items.
  pub deterministic_shuffle_permutes :
      (seed : ℕ) (xs : List T)
      → (ys : List T) × (deterministic_shuffle seed xs ≡ some ys)
        × ((p : T → Bool) → count p ys ≡ count p xs)
        × (length ys ≡ length xs)
  unfolding deterministic_shuffle
  deterministic_shuffle_permutes seed [] = ([], shuffle_nothing seed, (λ p. refl), refl)
  deterministic_shuffle_permutes seed (x ∷ xs) =
      shuffle_from_permutes (length (x ∷ xs) - 1) seed (x ∷ xs) (omega arith)
