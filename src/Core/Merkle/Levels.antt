-- ===== src/Core/Merkle/Levels.antt =====
-- The levels of a tree of shared/core/src/merkle_tree.rs: `MerkleTree::new` lays out the leaves, their
-- parents, and so on up to the root.
use psyche.Base.{
  ℕ, zero, suc, ◌+◌, ◌*◌, ◌/◌, ◌==◌, ◌≤◌, ◌≡◌, refl, ap, ltb, true, false, some, List, [], ◌∷◌,
  ◌++◌, length, get_elem?, if◌then◌else◌, get_elem?-middle, length-append, arith,
}
use mathlib.Core.Path.{◌∙◌, sym}
use mathlib.Core.List.{append_assoc, append-nil}
use psyche.Core.Hashing.{Hashing}
use psyche.Core.Merkle.{
  HashWrapper, hash_intermediate, next_level_len, then_some, push_level, push_levels,
}

module _ ⦃hashing : Hashing⦄ where
  -- The parents of a level, two by two.
  abbrev pub parents : List HashWrapper → List HashWrapper
  parents [] = []
  parents (x ∷ []) = hash_intermediate x x ∷ []
  parents (x ∷ y ∷ zs) = hash_intermediate x y ∷ parents zs

  -- `all` is this level and the ones above it, up to a root.
  pub data Tower : List HashWrapper → List HashWrapper → Type 0 where
    root : (x : HashWrapper) → Tower (x ∷ []) (x ∷ [])
    level :
        (x y : HashWrapper) (zs rest : List HashWrapper)
        → Tower (parents (x ∷ y ∷ zs)) rest
        → Tower (x ∷ y ∷ zs) ((x ∷ y ∷ zs) ++ rest)

  pub length-parents : (xs : List HashWrapper) → length (parents xs) ≡ (length xs + 1) / 2
  length-parents [] = omega arith
  length-parents (x ∷ []) = omega arith
  length-parents (x ∷ y ∷ zs) = omega (arith, length-parents zs)

  -- The item behind a prefix of this length.
  at_front :
      (pre xs : List HashWrapper) (x : HashWrapper) (n : ℕ)
      → n ≡ length pre
      → get_elem? (pre ++ x ∷ xs) n ≡ some x
  at_front pre xs x n e = rw e (get_elem?-middle pre xs x)

  at_second :
      (pre xs : List HashWrapper) (x y : HashWrapper) (n : ℕ)
      → n ≡ length pre + 1
      → get_elem? (pre ++ x ∷ y ∷ xs) n ≡ some y
  at_second [] xs x y n e = rw e refl
  at_second (z ∷ pre) xs x y zero e = absurd (omega (arith, e))
  at_second (z ∷ pre) xs x y (suc n) e = at_second pre xs x y n (omega (arith, e))

  -- One turn of the loop over a level.
  push_one :
      (n i start len : ℕ) (nodes : List HashWrapper) (l r : HashWrapper)
      → get_elem? nodes (start + 2 * i) ≡ some l
      → get_elem? nodes (if ltb (2 * i + 1) len then start + 2 * i + 1 else start + 2 * i) ≡ some r
      → push_level (suc n) i start len nodes
        ≡ push_level n (i + 1) start len (nodes ++ hash_intermediate l r ∷ [])
  unfolding push_level
  push_one n i start len nodes l r a b = rw (a, b) refl

  -- The loop over a level, when `pre` is what lies in front of the nodes that are left of it.
  pub push_level_lem :
      (pre xs post : List HashWrapper) (i start len : ℕ)
      → length pre ≡ start + 2 * i
      → len ≡ 2 * i + length xs
      → push_level ((length xs + 1) / 2) i start len (pre ++ (xs ++ post))
        ≡ some ((pre ++ (xs ++ post)) ++ parents xs)
  unfolding push_level
  push_level_lem pre [] post i start len a b = rw (append-nil (pre ++ post)) refl
  push_level_lem pre (x ∷ []) post i start len a b =
      let alone : ltb (2 * i + 1) len ≡ false = ground (arith, b) in
      let there : get_elem? (pre ++ x ∷ post) (start + 2 * i) ≡ some x =
        at_front pre post x (start + 2 * i) (omega (arith, a)) in
      push_one 0 i start len (pre ++ x ∷ post) x x there (rw alone there)
  push_level_lem pre (x ∷ y ∷ zs) post i start len a b =
      let nodes : List HashWrapper = pre ++ x ∷ y ∷ (zs ++ post) in
      let h : HashWrapper = hash_intermediate x y in
      let turns : (suc (suc (length zs)) + 1) / 2 ≡ suc ((length zs + 1) / 2) = omega arith in
      let more : ltb (2 * i + 1) len ≡ true = ground (arith, b) in
      let first : get_elem? nodes (start + 2 * i) ≡ some x =
        at_front pre (y ∷ (zs ++ post)) x (start + 2 * i) (omega (arith, a)) in
      let second : get_elem? nodes (start + 2 * i + 1) ≡ some y =
        at_second pre (zs ++ post) x y (start + 2 * i + 1) (omega (arith, a)) in
      let rest =
        push_level_lem (pre ++ x ∷ y ∷ []) zs (post ++ h ∷ []) (i + 1) start len
          (omega (arith, a, length-append pre (x ∷ y ∷ []))) (omega (arith, b)) in
      let moved : (pre ++ x ∷ y ∷ []) ++ (zs ++ (post ++ h ∷ [])) ≡ nodes ++ h ∷ [] =
        simp append_assoc in
      rw turns (
        push_one ((length zs + 1) / 2) i start len nodes x y first (rw more second)
        ∙ (rw moved at rest ∙ ap some (append_assoc nodes (h ∷ []) (parents zs))))

  -- One turn of the loop over the levels.
  one_level :
      (fuel len start prev_len prev_start : ℕ) (nodes pushed : List HashWrapper)
      → 1 ≤ len
      → push_level len 0 prev_start prev_len nodes ≡ some pushed
      → push_levels (suc fuel) len start prev_len prev_start nodes
        ≡ push_levels fuel (next_level_len len) (start + len) len start pushed
  unfolding push_levels
  one_level fuel len start prev_len prev_start nodes pushed some_left h =
      let more : (len == 0) ≡ false = ground (arith, some_left) in
      rw (more, push_levels)
        (ap
          (λ o. then_some o (λ p. push_levels fuel (next_level_len len) (start + len) len start p))
          h)

  -- The loop over the levels, when `xs` is the last level so far.
  pub push_levels_lem :
      (fuel : ℕ) (pre xs : List HashWrapper)
      → 1 ≤ length xs
      → length xs ≤ fuel
      → (all : List HashWrapper) × (push_levels fuel
            (next_level_len (length xs))
            (length pre + length xs)
            (length xs)
            (length pre)
            (pre ++ xs)
          ≡ some (pre ++ all))
        × Tower xs all
  unfolding push_levels
  push_levels_lem zero pre xs one fits = absurd (omega (arith, one, fits))
  push_levels_lem (suc fuel) pre [] one fits = absurd (omega (arith, one))
  push_levels_lem (suc fuel) pre (x ∷ []) one fits = (x ∷ [], refl, root x)
  push_levels_lem (suc fuel) pre (x ∷ y ∷ zs) one fits =
      let xs : List HashWrapper = x ∷ y ∷ zs in
      let ps : List HashWrapper = parents xs in
      let half : length ps ≡ (length xs + 1) / 2 = length-parents xs in
      let next : next_level_len (length xs) ≡ length ps = ground (arith, half) in
      let pushed : push_level (length ps) 0 (length pre) (length xs) (pre ++ xs)
          ≡ some ((pre ++ xs) ++ ps) =
        ap (λ n. push_level n 0 (length pre) (length xs) (pre ++ xs)) half
        ∙ (rw (append-nil zs) at
            (push_level_lem pre xs [] 0 (length pre) (length xs) (omega arith) (omega arith))) in
      let (all, is, tower) =
        push_levels_lem fuel (pre ++ xs) ps (omega (arith, half)) (omega (arith, half, fits)) in
      let built : push_levels (suc fuel) (next_level_len (length xs)) (length pre + length xs)
            (length xs) (length pre) (pre ++ xs)
          ≡ some (pre ++ (xs ++ all)) =
        ap
          (λ n.
            push_levels (suc fuel) n (length pre + length xs) (length xs) (length pre) (pre ++ xs))
          next
        ∙ one_level fuel (length ps) (length pre + length xs) (length xs) (length pre) (pre ++ xs)
            ((pre ++ xs) ++ ps) (omega (arith, half)) pushed
        ∙ ap
            (λ n.
              push_levels fuel (next_level_len (length ps)) (n + length ps) (length ps) n
                ((pre ++ xs) ++ ps))
            (sym (length-append pre xs))
        ∙ is
        ∙ ap some (append_assoc pre xs all) in
      (xs ++ all, built, level x y zs all tower)
