-- ===== src/Core/Merkle/Paths.antt =====
-- The proofs that `find_path` of shared/core/src/merkle_tree.rs makes: `verify` accepts the item they
-- are for and no other.
use psyche.Base.{
  ◌≢◌, ◌⊎◌, ℕ, zero, suc, ◌+◌, ◌/◌, ◌==◌, ◌≤◌, ◌<◌, ◌≡◌, refl, ap, ltb, true, false, Option, none,
  some, List, [], ◌∷◌, ◌++◌, length, map, get_elem?, if◌then◌else◌, arith, inl, inr, Bool-cases,
  take, drop, length-append, length-map, get_elem?-bound,
}
use mathlib.Core.Path.{◌∙◌, sym}
use psyche.Core.Hashing.{Hashing}
use psyche.Core.Merkle.{
  HashWrapper, ProofEntry, Proof, MerkleTree, hash_intermediate, unwrap_or, next_level_len,
  then_some, siblings, walk, slice, entry, verify, find_path, hash_leaf, push_levels,
}
use mathlib.Core.List.{append_assoc}
use psyche.Base.Keys.{same_bytes, same_bytes_iff}
use psyche.Core.Merkle
use psyche.Core.Merkle.Siblings.{parent, One, siblings_lem}
use psyche.Core.Merkle.Levels.{push_levels_lem, root, level, length-parents, parents, Tower}

differing : (a b : List ℕ) → a ≡ b → same_bytes a b ≡ false → ⊥
differing a b e other = let same = (same_bytes_iff a b).1 e in cc

module _ ⦃hashing : Hashing⦄ where
  take_front : (xs ys : List HashWrapper) → take (length xs) (xs ++ ys) ≡ xs
  take_front [] ys = refl
  take_front (x ∷ xs) ys = ap (λ zs. x ∷ zs) (take_front xs ys)

  drop_front : (xs ys : List HashWrapper) → drop (length xs) (xs ++ ys) ≡ ys
  drop_front [] ys = refl
  drop_front (x ∷ xs) ys = drop_front xs ys

  slice_lem :
      (pre xs post : List HashWrapper)
      → slice (length pre) (length xs) (pre ++ (xs ++ post)) ≡ some xs
  unfolding slice
  slice_lem pre xs post =
      let fits : ltb (length (pre ++ (xs ++ post))) (length pre + length xs) ≡ false =
        ground (arith, length-append pre (xs ++ post), length-append xs post) in
      rw (fits, drop_front pre (xs ++ post), take_front xs post) refl

  -- One turn of the loop of `find_path`.
  walk_turn :
      (fuel : ℕ) (nodes : List HashWrapper) (len start i : ℕ)
      (sibs next : Option HashWrapper × Option HashWrapper) (row : List HashWrapper)
      (t : HashWrapper) (pushed rest : Proof)
      → 1 ≤ len
      → slice start len nodes ≡ some row
      → get_elem? row i ≡ some t
      → entry sibs.0 sibs.1 t ≡ some pushed
      → siblings row i ≡ some next
      → walk fuel nodes (next_level_len len) (start + len) (i / 2) next ≡ some rest
      → walk (suc fuel) nodes len start i sibs ≡ some (pushed ++ rest)
  unfolding walk
  walk_turn fuel nodes len start i sibs next row t pushed rest some_left a b c d e =
      let more : (len == 0) ≡ false = ground (arith, some_left) in
      rw (more, walk) (rw a (rw b (rw c (rw d (rw e refl)))))

  walk_end :
      (fuel : ℕ) (nodes : List HashWrapper) (start i : ℕ)
      (sibs : Option HashWrapper × Option HashWrapper)
      → walk (suc fuel) nodes 0 start i sibs ≡ some []
  unfolding walk
  walk_end fuel nodes start i sibs = refl

  -- Two different hashes have the same parent beside the same sibling.
  abbrev pub Collision : HashWrapper → HashWrapper → Type 0
  Collision c t =
      (c ≢ t)
      × ((s : HashWrapper) × ((hash_intermediate s c ≡ hash_intermediate s t)
            ⊎ (hash_intermediate c s ≡ hash_intermediate t s)))

  beside :
      (p : Option HashWrapper × Option HashWrapper) (c t : HashWrapper)
      → One p
      → parent p c ≡ parent p t
      → (s : HashWrapper) × ((hash_intermediate s c ≡ hash_intermediate s t)
          ⊎ (hash_intermediate c s ≡ hash_intermediate t s))
  beside p c t (inl (l, is)) h = (l, inl (rw is at h))
  beside p c t (inr (r, is)) h = (r, inr (rw is at h))

  parent_injective :
      (p : Option HashWrapper × Option HashWrapper) (c t : HashWrapper)
      → One p
      → parent p c ≡ parent p t
      → (c ≡ t) ⊎ Collision c t
  parent_injective p c t one h = elim (Bool-cases (same_bytes c t)) [
    | inl same ↦ inl ((same_bytes_iff c t).0 same)
    | inr other ↦ inr (λ e. absurd (differing c t e other), beside p c t one h)
  ]

  entry_lem :
      (p : Option HashWrapper × Option HashWrapper) (t : HashWrapper)
      → One p
      → entry p.0 p.1 t ≡ some (record { target = t; left_sibling = p.0; right_sibling = p.1 } ∷ [])
  unfolding entry
  entry_lem p t (inl (l, is)) = rw is refl
  entry_lem p t (inr (r, is)) = rw is refl

  -- The rest of a path from a level on, for the item `t` of the level: it is accepted for `t`, and
  -- for another hash only with a collision of the two.
  abbrev pub Proves : {A : Type 0} → List A → HashWrapper → Proof → Type 0
  Proves xs t rest =
      (verify rest t ≡ true)
      × (2 ≤ length xs → (c : HashWrapper) → (verify rest c ≡ false) ⊎ ((c ≡ t) ⊎ Collision c t))

  verify_cons :
      (p : Option HashWrapper × Option HashWrapper) (above c : HashWrapper) (es : Proof)
      → verify (record { target = above; left_sibling = p.0; right_sibling = p.1 } ∷ es) c
        ≡ (if same_bytes (parent p c) above then verify es (parent p c) else false)
  unfolding verify
  verify_cons p above c es = refl

  -- One more level in front of a proof of the parent.
  Proves-cons :
      (xs : List HashWrapper) (t : HashWrapper) (p : Option HashWrapper × Option HashWrapper)
      (es : Proof)
      → One p
      → verify es (parent p t) ≡ true
      → Proves xs t (record { target = parent p t; left_sibling = p.0; right_sibling = p.1 } ∷ es)
  Proves-cons xs t p es one h = (
    (let same : same_bytes (parent p t) (parent p t) ≡ true =
          (same_bytes_iff (parent p t) (parent p t)).1 refl in
        verify_cons p (parent p t) t es ∙ rw (same, h) refl),
    λ two c. elim (Bool-cases (same_bytes (parent p c) (parent p t))) [
      | inl same ↦
          inr (parent_injective p c t one ((same_bytes_iff (parent p c) (parent p t)).0 same))
      | inr other ↦ inl (verify_cons p (parent p t) c es ∙ rw other refl)
    ],
  )

  -- The root needs no proof.
  root-Proves : (x t : HashWrapper) → Proves (x ∷ []) t []
  unfolding verify
  root-Proves x t = (refl, λ two. absurd (omega (arith, two)))

  pub walk_lem :
      (fuel : ℕ) {xs all : List HashWrapper}
      → Tower xs all
      → (pre : List HashWrapper) (i : ℕ) (t : HashWrapper) → length xs + 1 ≤ fuel
      → get_elem? xs i ≡ some t
      → (rest : Proof) × ((sibs : Option HashWrapper × Option HashWrapper) (pushed : Proof)
          → entry sibs.0 sibs.1 t ≡ some pushed
          → walk fuel (pre ++ all) (length xs) (length pre) i sibs ≡ some (pushed ++ rest))
        × Proves xs t rest
  walk_lem zero tower pre i t fits h = absurd (omega (arith, fits))
  walk_lem (suc zero) (root x) pre i t fits h = absurd (omega (arith, fits))
  walk_lem (suc (suc fuel)) (root x) pre i t fits h =
      let (next, beside, above, one) = siblings_lem (x ∷ []) i t h in
      (
        [],
        (λ sibs pushed e.
            walk_turn (suc fuel) (pre ++ x ∷ []) 1 (length pre) i sibs next (x ∷ []) t pushed []
              (omega arith) (slice_lem pre (x ∷ []) []) h e beside
              (walk_end fuel (pre ++ x ∷ []) (length pre + 1) (i / 2) next)),
        root-Proves x t,
      )
  walk_lem (suc fuel) (level x y zs all tower) pre i t fits h =
      let xs : List HashWrapper = x ∷ y ∷ zs in
      let ps : List HashWrapper = parents xs in
      let half : length ps ≡ (length xs + 1) / 2 = length-parents xs in
      let len : next_level_len (length xs) ≡ length ps = ground (arith, half) in
      let (next, beside, above, one) = siblings_lem xs i t h in
      let (es, goes, proves) =
        walk_lem fuel tower (pre ++ xs) (i / 2) (parent next t) (omega (arith, half, fits)) above in
      let e : ProofEntry = record {
        target = parent next t;
        left_sibling = next.0;
        right_sibling = next.1;
      } in
      let later = goes next (e ∷ []) (entry_lem next (parent next t) one) in
      let moved : walk fuel (pre ++ (xs ++ all)) (next_level_len (length xs))
            (length pre + length xs) (i / 2) next
          ≡ some (e ∷ es) =
        ap (λ n. walk fuel (pre ++ (xs ++ all)) n (length pre + length xs) (i / 2) next) len
        ∙ ap (λ n. walk fuel (pre ++ (xs ++ all)) (length ps) n (i / 2) next)
            (sym (length-append pre xs))
        ∙ ap (λ ns. walk fuel ns (length ps) (length (pre ++ xs)) (i / 2) next)
            (sym (append_assoc pre xs all))
        ∙ later in
      (
        e ∷ es,
        (λ sibs pushed k.
            walk_turn fuel (pre ++ (xs ++ all)) (length xs) (length pre) i sibs next xs t pushed
              (e ∷ es) (omega arith) (slice_lem pre xs all) h k beside moved),
        Proves-cons xs t next es one proves.0,
      )

  get_elem?-map :
      (items : List (List ℕ)) (i : ℕ) {item : List ℕ}
      → get_elem? items i ≡ some item
      → get_elem? (map hash_leaf items) i ≡ some (hash_leaf item)
  get_elem?-map [] i h = absurd (ground arith)
  get_elem?-map (x ∷ xs) zero h = ground (arith, h)
  get_elem?-map (x ∷ xs) (suc i) h = get_elem?-map xs i h

  -- In the tree of two items or more, the path of every item exists and verifies the item's hash. It
  -- verifies no other hash, unless that hash and the item's have the same SHA-256 parent beside the
  -- same sibling. An index behind the items has no path.
  pub find_path-verify :
      (items : List (List ℕ)) (i : ℕ) (item : List ℕ)
      → 2 ≤ length items
      → get_elem? items i ≡ some item
      → (tree : MerkleTree) × (path : Proof) × (Merkle.new items ≡ some tree)
        × (find_path i tree ≡ some (some path))
        × (verify path (hash_leaf item) ≡ true)
        × ((c : HashWrapper)
            → (verify path c ≡ false) ⊎ ((c ≡ hash_leaf item) ⊎ Collision c (hash_leaf item)))
        × ((k : ℕ) → find_path (length items + k) tree ≡ some none)
  unfolding Merkle.new find_path entry
  find_path-verify items i item two h =
      let leaves : List HashWrapper = map hash_leaf items in
      let count : length leaves ≡ length items = length-map items hash_leaf in
      let inside : i < length items = get_elem?-bound items i h in
      let (all, built, tower) =
        push_levels_lem (length items + 1) [] leaves (omega (arith, count, two))
          (omega (arith, count)) in
      let (path, goes, proves) =
        walk_lem (length items + 1) tower [] i (hash_leaf item) (omega (arith, count))
          (get_elem?-map items i h) in
      let walks = goes (none, none) [] refl in
      let start : 0 + length leaves ≡ length leaves = omega arith in
      let nodes : push_levels (length items + 1) (next_level_len (length items)) (length items)
            (length items) 0 leaves
          ≡ some all =
        rw (start, count) at built in
      let found : walk (length items + 1) all (length items) 0 i (none, none) ≡ some path =
        rw count at walks in
      let here : ltb i (length items) ≡ true = ground (arith, inside) in
      (
        record { leaf_count = length items; nodes = all },
        path,
        rw nodes refl,
        rw (here, found) refl,
        proves.0,
        proves.1 (omega (arith, count, two)),
        λ k.
            let beyond : ltb (length items + k) (length items) ≡ false = ground arith in
            rw beyond refl,
      )
