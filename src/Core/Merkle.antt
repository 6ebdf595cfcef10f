-- ===== src/Core/Merkle.antt =====
-- shared/core/src/merkle_tree.rs: the tree of hashes in one vector, level after level, and the proofs
-- that an item is in it.
pub mod Levels
pub mod Siblings
pub mod Paths
pub mod Owned
pub mod Examples
use psyche.Base.{
  ℕ, zero, suc, ◌+◌, ◌-◌, ◌*◌, ◌/◌, ◌%◌, ◌==◌, ltb, Bool, true, false, Option, none, some, List, [],
  ◌∷◌, ◌++◌, length, map, take, drop, get_elem?, if◌then◌else◌,
}
use psyche.Base.Keys.{same_bytes}
use psyche.Core.Hashing.{Hashing, sha256v}

-- `HashWrapper`
abbrev pub HashWrapper : Type 0
HashWrapper = List ℕ

pub record MerkleTree : Type 0 where
  pub leaf_count : ℕ
  pub nodes : List HashWrapper

pub record ProofEntry : Type 0 where
  pub target : HashWrapper
  pub left_sibling : Option HashWrapper
  pub right_sibling : Option HashWrapper

-- `Proof`; an `OwnedProof` has the same entries, its hashes copied.
abbrev pub Proof : Type 0
Proof = List ProofEntry

abbrev pub unwrap_or : Option HashWrapper → HashWrapper → HashWrapper
unwrap_or none h = h
unwrap_or (some k) h = k

-- `level_len.div_ceil(2)` above the root
abbrev pub next_level_len : ℕ → ℕ
next_level_len level_len = if level_len == 1 then 0 else (level_len + 1) / 2

-- A step that may panic, and what follows.
abbrev pub then_some : {A B : Type 0} → Option A → (A → Option B) → Option B
then_some none f = none
then_some (some a) f = f a

module _ ⦃hashing : Hashing⦄ where
  abbrev pub hash_leaf : List ℕ → HashWrapper
  hash_leaf d = sha256v ((0 ∷ []) ∷ d ∷ [])

  abbrev pub hash_intermediate : HashWrapper → HashWrapper → HashWrapper
  hash_intermediate l r = sha256v ((1 ∷ []) ∷ l ∷ r ∷ [])

  -- `Proof::verify`
  unfoldable pub verify : Proof → HashWrapper → Bool
  verify [] candidate = true
  verify (e ∷ es) candidate =
      let hash =
        hash_intermediate (unwrap_or e.left_sibling candidate)
          (unwrap_or e.right_sibling candidate) in
      let rest = verify es hash in if same_bytes hash e.target then rest else false

  -- `OwnedProof::verify`, which takes the siblings the other way round
  unfoldable pub verify_owned : Proof → HashWrapper → Bool
  verify_owned [] candidate = true
  verify_owned (e ∷ es) candidate =
      let hash =
        hash_intermediate (unwrap_or e.right_sibling candidate)
          (unwrap_or e.left_sibling candidate) in
      let rest = verify_owned es hash in if same_bytes hash e.target then rest else false

  -- The loop over a level: the last of an odd level is its own sibling. `none` is an index out of
  -- range, here and below.
  unfoldable pub push_level : ℕ → ℕ → ℕ → ℕ → List HashWrapper → Option (List HashWrapper)
  push_level zero i prev_level_start prev_level_len nodes = some nodes
  push_level (suc n) i prev_level_start prev_level_len nodes =
      then_some (get_elem? nodes (prev_level_start + 2 * i)) (λ lsib.
        then_some
          (get_elem? nodes (
            if ltb (2 * i + 1) prev_level_len
            then prev_level_start + 2 * i + 1
            else prev_level_start + 2 * i))
          (λ rsib.
            push_level n (i + 1) prev_level_start prev_level_len
              (nodes ++ hash_intermediate lsib rsib ∷ [])))

  -- The loop over the levels, on fuel.
  unfoldable pub push_levels : ℕ → ℕ → ℕ → ℕ → ℕ → List HashWrapper → Option (List HashWrapper)
  push_levels zero level_len level_start prev_level_len prev_level_start nodes = none
  push_levels (suc fuel) level_len level_start prev_level_len prev_level_start nodes =
      elim (level_len == 0) [
        | true ↦ some nodes
        | false ↦
            then_some (push_level level_len 0 prev_level_start prev_level_len nodes) (λ pushed.
              push_levels fuel (next_level_len level_len) (level_start + level_len) level_len
                level_start pushed)
      ]

  -- `MerkleTree::new`
  unfoldable pub new : List (List ℕ) → Option MerkleTree
  new items =
      let count = length items in
      then_some (push_levels (count + 1) (next_level_len count) count count 0 (map hash_leaf items))
        (λ nodes. some (record { leaf_count = count; nodes = nodes }))

-- `&nodes[start..start + len]`
unfoldable pub slice : ℕ → ℕ → List HashWrapper → Option (List HashWrapper)
slice start len nodes =
    if ltb (length nodes) (start + len) then none else some (take len (drop start nodes))

-- The entry for this node, which the first level does not have; exactly one sibling is asserted.
unfoldable pub entry : Option HashWrapper → Option HashWrapper → HashWrapper → Option Proof
entry none none target = some []
entry (some l) none target =
    some (record { target = target; left_sibling = some l; right_sibling = none } ∷ [])
entry none (some r) target =
    some (record { target = target; left_sibling = none; right_sibling = some r } ∷ [])
entry (some l) (some r) target = none

-- The siblings for the next level.
unfoldable pub siblings : List HashWrapper → ℕ → Option (Option HashWrapper × Option HashWrapper)
siblings level node_index =
    if node_index % 2 == 0
    then then_some
        (get_elem? level
          (if ltb (node_index + 1) (length level) then node_index + 1 else node_index))
        (λ r. some (none, some r))
    else then_some (get_elem? level (node_index - 1)) (λ l. some (some l, none))

-- The loop of `find_path`, on fuel.
unfoldable pub walk :
    ℕ → List HashWrapper → ℕ → ℕ → ℕ → Option HashWrapper × Option HashWrapper → Option Proof
walk zero nodes level_len level_start node_index sibs = none
walk (suc fuel) nodes level_len level_start node_index sibs = elim (level_len == 0) [
  | true ↦ some []
  | false ↦ then_some (slice level_start level_len nodes) (λ level.
      then_some (get_elem? level node_index) (λ target.
        then_some (entry sibs.0 sibs.1 target) (λ pushed.
          then_some (siblings level node_index) (λ next.
            then_some
              (walk fuel nodes (next_level_len level_len) (level_start + level_len) (node_index / 2)
                next)
              (λ rest. some (pushed ++ rest))))))
]

-- `find_path`: outer `none` is a panic, inner `none` an index without a leaf.
unfoldable pub find_path : ℕ → MerkleTree → Option (Option Proof)
find_path index tree =
    if ltb index tree.leaf_count
    then then_some (walk (tree.leaf_count + 1) tree.nodes tree.leaf_count 0 index (none, none))
        (λ path. some (some path))
    else some none
