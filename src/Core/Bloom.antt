-- ===== src/Core/Bloom.antt =====
-- shared/core/src/bloom.rs: a bloom filter of `U` words of 64 bits and `K` keys.
pub mod Laws
use psyche.Base.{
  ℕ, zero, suc, ◌+◌, ◌*◌, ◌%◌, Bool, true, false, Option, none, some, List, [], ◌∷◌, length,
  get_elem?, set, replicate, ltb, if◌then◌else◌, leb, ◌==◌,
}
use psyche.Core.Hashing.{Hashing}

pub record Bloom : Type 0 where
  pub keys : List ℕ
  pub bits : List Bool

-- `Bloom::max_bits`
unfoldable pub max_bits : ℕ → ℕ
max_bits u = u * 64

-- `Bloom::new`; `none` is one of its assertions failing.
unfoldable pub new : ℕ → ℕ → ℕ → List ℕ → Option Bloom
unfolding max_bits
new u k num_bits keys_slice =
    if leb num_bits (max_bits u)
    then if length keys_slice == k
      then some (record { keys = keys_slice; bits = replicate (max_bits u) false })
      else none
    else none

unfoldable pub clear : Bloom → Bloom
clear b = record b { bits = replicate (length b.bits) false }

module _ ⦃hashing : Hashing⦄ where
  -- `checked_rem(..).unwrap_or(0)`
  unfoldable pub pos : Bloom → List ℕ → ℕ → ℕ
  pos b key k = if length b.bits == 0 then 0 else hashing.hash_at_index key k % length b.bits

  -- `*self.bits.0.get(pos).unwrap()`; the callers stay in range, so the default is never read.
  unfoldable pub bit_at : Bloom → ℕ → Bool
  bit_at b p = elim (get_elem? b.bits p) [ none ↦ false | some bit ↦ bit ]

  unfoldable pub add_keys : List ℕ → Bloom → List ℕ → Bloom
  add_keys [] b key = b
  add_keys (k ∷ ks) b key =
      add_keys ks
        (if bit_at b (pos b key k) then b else record b { bits = set b.bits (pos b key k) true })
        key

  unfoldable pub add : Bloom → List ℕ → Bloom
  add b key = add_keys b.keys b key

  unfoldable pub contains_keys : List ℕ → Bloom → List ℕ → Bool
  contains_keys [] b key = true
  contains_keys (k ∷ ks) b key = if bit_at b (pos b key k) then contains_keys ks b key else false

  unfoldable pub contains : Bloom → List ℕ → Bool
  unfolding contains_keys
  contains b key = contains_keys b.keys b key
