-- ===== src/Core/Merkle/Owned.antt =====
-- `OwnedProof::verify` of shared/core/src/merkle_tree.rs, beside `Proof::verify`.
use psyche.Base.{
  length, ◌++◌, ◌⊎◌, sym, ◌∙◌, ℕ, ◌≡◌, ◌≢◌, refl, true, false, some, List, [], ◌∷◌, inl, inr,
  Bool-cases, sym, none, arith,
}
use psyche.Base.Keys.{same_bytes, same_bytes_iff}
use psyche.Core.Hashing.{Hashing}
use psyche.Core.Merkle
use psyche.Core.Merkle.{
  HashWrapper, MerkleTree, Proof, hash_leaf, hash_intermediate, verify, verify_owned, find_path,
}

-- Texts of the same length in front.
split_same :
    (l r l' r' : List ℕ) → length l ≡ length l' → (l ++ r) ≡ (l' ++ r') → (l ≡ l') × (r ≡ r')
split_same [] r [] r' e h = (refl, h)
split_same [] r (x ∷ l') r' e h = absurd (ground arith)
split_same (x ∷ l) r [] r' e h = absurd (ground arith)
split_same (x ∷ l) r (y ∷ l') r' e h =
    let rest : (l ≡ l') × (r ≡ r') = split_same l r l' r' (ground arith) (ground arith) in
    (ground (arith, rest), rest.1)

tail_eq : {x y : ℕ} {xs ys : List ℕ} → (x ∷ xs) ≡ (y ∷ ys) → xs ≡ ys
tail_eq h = ground (arith, h)

-- A digest has 32 bytes.
abbrev pub Digests : Hashing → Type 0
Digests hashing = (text : List ℕ) → length (hashing.sha256 text) ≡ 32

module _ ⦃hashing : Hashing⦄ where
  -- In the tree of two items with different hashes, the path of the first item verifies the first
  -- item, and its owned copy does not, unless the two hashes joined in either order, which are
  -- different texts, have the same SHA-256 digest. Digests have 32 bytes.
  pub find_path-verify_owned :
      Digests hashing
      → (a b : List ℕ) → hash_leaf a ≢ hash_leaf b
      → (tree : MerkleTree) × (path : Proof) × (Merkle.new (a ∷ b ∷ []) ≡ some tree)
        × (find_path 0 tree ≡ some (some path))
        × (verify path (hash_leaf a) ≡ true)
        × ((verify_owned path (hash_leaf a) ≡ false)
            ⊎ (((hash_leaf b ++ hash_leaf a) ≢ (hash_leaf a ++ hash_leaf b))
                × (hash_intermediate (hash_leaf b) (hash_leaf a)
                    ≡ hash_intermediate (hash_leaf a) (hash_leaf b))))
  unfolding Merkle.new Merkle.push_levels Merkle.push_level find_path Merkle.walk Merkle.slice
      Merkle.siblings Merkle.entry verify verify_owned
  find_path-verify_owned digests a b apart =
      let x : HashWrapper = hash_leaf a in
      let y : HashWrapper = hash_leaf b in
      let h : HashWrapper = hash_intermediate x y in
      let good : same_bytes h h ≡ true = (same_bytes_iff h h).1 refl in
      (
        record { leaf_count = 2; nodes = x ∷ y ∷ h ∷ [] },
        record { target = h; left_sibling = none; right_sibling = some y } ∷ [],
        refl,
        refl,
        rw good refl,
        elim (Bool-cases (same_bytes (hash_intermediate y x) h)) [
          | inr other ↦ inl (rw other refl)
          | inl same ↦ inr (
            (λ swapped.
                let long : length y ≡ length x = digests _ ∙ sym (digests _) in
                absurd (apart (sym (split_same y x x y long swapped).0))),
            (same_bytes_iff (hash_intermediate y x) h).0 same,
          )
        ],
      )
