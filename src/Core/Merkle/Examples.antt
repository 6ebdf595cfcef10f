-- ===== src/Core/Merkle/Examples.antt =====
-- Examples for the tree of hashes.
use psyche.Base.{
  ℕ, zero, suc, ◌+◌, ◌≢◌, ◌≡◌, refl, ap, true, false, none, some, List, [], ◌∷◌, ◌++◌, length, ◌⊎◌,
  arith,
}
use psyche.Core.Hashing.{Hashing}
use psyche.Core.Merkle
use psyche.Core.Merkle.{
  HashWrapper, MerkleTree, Proof, hash_leaf, hash_intermediate, verify, verify_owned, find_path,
}
use psyche.Core.Merkle.Paths.{Collision, find_path-verify}
use psyche.Core.Merkle.Owned.{Digests, find_path-verify_owned}

-- A digest that is the front of the text, filled up to 32 bytes.
abbrev filled : ℕ → List ℕ → List ℕ
filled zero text = []
filled (suc n) [] = 0 ∷ filled n []
filled (suc n) (b ∷ bs) = b ∷ filled n bs

length-filled : (n : ℕ) (text : List ℕ) → length (filled n text) ≡ n
length-filled zero text = refl
length-filled (suc n) [] = ap suc (length-filled n [])
length-filled (suc n) (b ∷ bs) = ap suc (length-filled n bs)

instance front_hash : Hashing
front_hash = record { sha256 = filled 32; hash_at_index = λ key k. k }

front_hash-Digests : Digests front_hash
unfolding front_hash
front_hash-Digests text = length-filled 32 text

abbrev items : List (List ℕ)
items = (7 ∷ []) ∷ (8 ∷ []) ∷ (9 ∷ []) ∷ []

find_path-verify_example :
    (tree : MerkleTree) × (path : Proof) × (Merkle.new items ≡ some tree)
    × (find_path 2 tree ≡ some (some path))
    × (verify path (hash_leaf (9 ∷ [])) ≡ true)
    × ((c : HashWrapper)
        → (verify path c ≡ false) ⊎ ((c ≡ hash_leaf (9 ∷ [])) ⊎ Collision c (hash_leaf (9 ∷ []))))
    × ((k : ℕ) → find_path (3 + k) tree ≡ some none)
find_path-verify_example = find_path-verify items 2 (9 ∷ []) (omega arith) refl

leaves_apart : hash_leaf (7 ∷ []) ≢ hash_leaf (8 ∷ [])
unfolding front_hash
leaves_apart e = ground (arith, e)

find_path-verify_owned_example :
    (tree : MerkleTree) × (path : Proof) × (Merkle.new ((7 ∷ []) ∷ (8 ∷ []) ∷ []) ≡ some tree)
    × (find_path 0 tree ≡ some (some path))
    × (verify path (hash_leaf (7 ∷ [])) ≡ true)
    × ((verify_owned path (hash_leaf (7 ∷ [])) ≡ false)
        ⊎ (((hash_leaf (8 ∷ []) ++ hash_leaf (7 ∷ [])) ≢ (hash_leaf (7 ∷ []) ++ hash_leaf (8 ∷ [])))
            × (hash_intermediate (hash_leaf (8 ∷ [])) (hash_leaf (7 ∷ []))
                ≡ hash_intermediate (hash_leaf (7 ∷ [])) (hash_leaf (8 ∷ [])))))
find_path-verify_owned_example =
    find_path-verify_owned front_hash-Digests (7 ∷ []) (8 ∷ []) leaves_apart
