-- ===== src/Core/Merkle/Siblings.antt =====
-- The siblings that `find_path` of shared/core/src/merkle_tree.rs passes on, and the parent that a
-- node has with them.
use psyche.Base.{
  ℕ, zero, suc, ◌+◌, ◌-◌, ◌*◌, ◌/◌, ◌%◌, ◌==◌, ◌≡◌, refl, ltb, true, false, Option, none, some,
  List, [], ◌∷◌, length, get_elem?, if◌then◌else◌, arith, ◌⊎◌, inl, inr, Bool-cases,
}
use psyche.Core.Hashing.{Hashing}
use psyche.Core.Merkle.{HashWrapper, hash_intermediate, unwrap_or, siblings}
use psyche.Core.Merkle.Levels.{parents}

module _ ⦃hashing : Hashing⦄ where
  even-parents :
      (xs : List HashWrapper) (k i : ℕ) (t : HashWrapper)
      → i ≡ 2 * k
      → get_elem? xs i ≡ some t
      → (r : HashWrapper) × (get_elem? xs (if ltb (i + 1) (length xs) then i + 1 else i) ≡ some r)
        × (get_elem? (parents xs) k ≡ some (hash_intermediate t r))
  even-parents [] k i t e h = absurd (ground arith)
  even-parents (x ∷ []) zero zero t e h = (x, refl, ground arith)
  even-parents (x ∷ y ∷ zs) zero zero t e h =
      let more : ltb 1 (length (x ∷ y ∷ zs)) ≡ true = ground arith in
      (y, rw more refl, ground arith)
  even-parents xs (suc k) zero t e h = absurd (omega (arith, e))
  even-parents xs zero (suc i) t e h = absurd (omega (arith, e))
  even-parents xs (suc k) (suc zero) t e h = absurd (omega (arith, e))
  even-parents (x ∷ []) (suc k) (suc (suc i)) t e h = absurd (ground arith)
  even-parents (x ∷ y ∷ zs) (suc k) (suc (suc i)) t e h =
      let (r, there, above) = even-parents zs k i t (omega (arith, e)) h in
      let shift : suc (suc i) + 1 ≡ suc (suc (i + 1)) = omega arith in
      (
        r,
        elim (Bool-cases (ltb (i + 1) (length zs))) [
          | inl more ↦
              let more' : ltb (suc (suc i) + 1) (length (x ∷ y ∷ zs)) ≡ true =
                ground (arith, more) in
              rw (more', shift) (rw more at there)
          | inr last ↦
              let last' : ltb (suc (suc i) + 1) (length (x ∷ y ∷ zs)) ≡ false =
                ground (arith, last) in
              rw last' (rw last at there)
        ],
        above,
      )

  odd-parents :
      (xs : List HashWrapper) (k i : ℕ) (t : HashWrapper)
      → i ≡ 2 * k
      → get_elem? xs (suc i) ≡ some t
      → (l : HashWrapper) × (get_elem? xs i ≡ some l)
        × (get_elem? (parents xs) k ≡ some (hash_intermediate l t))
  odd-parents [] k i t e h = absurd (ground arith)
  odd-parents (x ∷ []) k i t e h = absurd (ground arith)
  odd-parents (x ∷ y ∷ zs) zero zero t e h = (x, refl, ground arith)
  odd-parents xs (suc k) zero t e h = absurd (omega (arith, e))
  odd-parents xs zero (suc i) t e h = absurd (omega (arith, e))
  odd-parents xs (suc k) (suc zero) t e h = absurd (omega (arith, e))
  odd-parents (x ∷ y ∷ zs) (suc k) (suc (suc i)) t e h = odd-parents zs k i t (omega (arith, e)) h

  -- What a node with these siblings hashes to.
  abbrev pub parent : Option HashWrapper × Option HashWrapper → HashWrapper → HashWrapper
  parent p c = hash_intermediate (unwrap_or p.0 c) (unwrap_or p.1 c)

  -- Exactly one sibling.
  abbrev pub One : Option HashWrapper × Option HashWrapper → Type 0
  One p = ((l : HashWrapper) × (p ≡ (some l, none))) ⊎ ((r : HashWrapper) × (p ≡ (none, some r)))

  -- The siblings of a node, with which it hashes to its parent.
  pub siblings_lem :
      (xs : List HashWrapper) (i : ℕ) (t : HashWrapper)
      → get_elem? xs i ≡ some t
      → (p : Option HashWrapper × Option HashWrapper) × (siblings xs i ≡ some p)
        × (get_elem? (parents xs) (i / 2) ≡ some (parent p t))
        × One p
  unfolding siblings
  siblings_lem xs i t h = elim (Bool-cases (i % 2 == 0)) [
    | inl even ↦
        let (r, there, above) = even-parents xs (i / 2) i t (ground (arith, even)) h in
        ((none, some r), rw (even, there) refl, above, inr (r, refl))
    | inr odd ↦
        let is : suc (i - 1) ≡ i = ground (arith, odd) in
        let (l, there, above) = odd-parents xs (i / 2) (i - 1) t (ground (arith, odd)) (rw is h) in
        ((some l, none), rw (odd, there) refl, above, inl (l, refl))
  ]
