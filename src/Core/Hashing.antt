-- ===== src/Core/Hashing.antt =====
-- The hash functions that shared/core calls: SHA-256 (of the crate `sha2`, or the Solana syscall) and
-- the keyed FNV hash that a bloom filter takes its positions from. Both are parameters: bytes are
-- numbers, and a digest is a list of bytes. shared/core/src/sha256.rs wraps the first.
use psyche.Base.{ℕ, List, [], ◌∷◌, ◌++◌}

pub record Hashing : Type 0 where
  -- `sha256`
  pub sha256 : List ℕ → List ℕ
  -- `hash_at_index` of shared/core/src/bloom.rs
  pub hash_at_index : List ℕ → ℕ → ℕ

abbrev pub concatenated : List (List ℕ) → List ℕ
concatenated [] = []
concatenated (part ∷ parts) = part ++ concatenated parts

-- `sha256v`: one update of the hasher after the other
abbrev pub sha256v : ⦃hashing : Hashing⦄ → List (List ℕ) → List ℕ
sha256v ⦃hashing⦄ data_parts = hashing.sha256 (concatenated data_parts)
