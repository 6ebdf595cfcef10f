-- ===== src/Core/Bloom/Laws.antt =====
-- shared/core/src/bloom.rs: a bloom filter has no false negatives.
use psyche.Base.{
  zero, suc, ◌≤◌, some, false, replicate, ℕ, ◌<◌, ◌≡◌, refl, true, List, [], ◌∷◌, length, set,
  if◌then◌else◌, arith, length-set, get_elem?-set_self, get_elem?-set_ne, get_elem?-in_range, ◌∙◌,
}
use native.Mathlib.Decide.{ℕ_discrete}
use native.Mathlib.Nat.{mod-lt}
use psyche.Core.Hashing.{Hashing}
use psyche.Core.Bloom.{
  new, clear, max_bits, Bloom, pos, bit_at, add_keys, add, contains_keys, contains,
}

module _ ⦃hashing : Hashing⦄ where
  pos-lt : (b : Bloom) (key : List ℕ) (k : ℕ) → 0 < length b.bits → pos b key k < length b.bits
  unfolding pos
  pos-lt b key k h = ground (arith, mod-lt (hashing.hash_at_index key k) h)

  -- Setting one bit, as one round of `add` does.
  abbrev mark : Bloom → ℕ → Bloom
  mark b p = if bit_at b p then b else record b { bits = set b.bits p true }

  length-mark : (b : Bloom) (p : ℕ) → length (mark b p).bits ≡ length b.bits
  length-mark b p = ground (arith, length-set b.bits p true)

  pos-mark : (b : Bloom) (p : ℕ) (key : List ℕ) (k : ℕ) → pos (mark b p) key k ≡ pos b key k
  unfolding pos
  pos-mark b p key k = rw (length-mark b p)

  bit_at-mark_self : (b : Bloom) (p : ℕ) → p < length b.bits → bit_at (mark b p) p ≡ true
  unfolding bit_at
  bit_at-mark_self b p h = ground (arith, get_elem?-set_self b.bits p true)

  bit_at-mark : (b : Bloom) (p q : ℕ) → bit_at b q ≡ true → bit_at (mark b p) q ≡ true
  unfolding bit_at
  bit_at-mark b p q h = elim (ℕ_discrete p q) [
    | yes e ↦ ground (arith, get_elem?-set_self b.bits q true, get_elem?-in_range b.bits q)
    | no n ↦ ground (arith, get_elem?-set_ne b.bits p q true n)
  ]

  pos-add_keys :
      (ks : List ℕ) (b : Bloom) (key other : List ℕ) (k : ℕ)
      → pos (add_keys ks b key) other k ≡ pos b other k
  unfolding add_keys
  pos-add_keys [] b key other k = refl
  pos-add_keys (j ∷ ks) b key other k =
      pos-add_keys ks (mark b (pos b key j)) key other k ∙ pos-mark b (pos b key j) other k

  bit_at-add_keys :
      (ks : List ℕ) (b : Bloom) (key : List ℕ) (q : ℕ)
      → bit_at b q ≡ true
      → bit_at (add_keys ks b key) q ≡ true
  unfolding add_keys
  bit_at-add_keys [] b key q h = h
  bit_at-add_keys (j ∷ ks) b key q h =
      bit_at-add_keys ks (mark b (pos b key j)) key q (bit_at-mark b (pos b key j) q h)

  -- Whatever a filter already contains it contains after another key is added.
  contains_keys-add_keys :
      (ks js : List ℕ) (b : Bloom) (key other : List ℕ)
      → contains_keys js b other ≡ true
      → contains_keys js (add_keys ks b key) other ≡ true
  unfolding contains_keys
  contains_keys-add_keys ks [] b key other h = refl
  contains_keys-add_keys ks (j ∷ js) b key other h = rw (pos-add_keys ks b key other j) (
      ground
        (arith, bit_at-add_keys ks b key (pos b other j), contains_keys-add_keys ks js b key other))

  contains_keys-add_keys_self :
      (ks : List ℕ) (b : Bloom) (key : List ℕ)
      → 0 < length b.bits
      → contains_keys ks (add_keys ks b key) key ≡ true
  unfolding contains_keys add_keys
  contains_keys-add_keys_self [] b key h = refl
  contains_keys-add_keys_self (k ∷ ks) b key h =
      let p = pos b key k in
      let later = mark b p in
      let here : bit_at (add_keys ks later key) p ≡ true =
        bit_at-add_keys ks later key p (bit_at-mark_self b p (pos-lt b key k h)) in
      let rest : contains_keys ks (add_keys ks later key) key ≡ true =
        contains_keys-add_keys_self ks later key (rw (length-mark b p) h) in
      rw (pos-add_keys ks later key key k, pos-mark b p key k) (ground arith)

  keys-add_keys : (ks : List ℕ) (b : Bloom) (key : List ℕ) → (add_keys ks b key).keys ≡ b.keys
  unfolding add_keys
  keys-add_keys [] b key = refl
  keys-add_keys (k ∷ ks) b key = keys-add_keys ks (mark b (pos b key k)) key ∙ ground arith

  -- A filter with at least one bit contains a key that was added to it, and adding a key takes
  -- nothing out: what it contained before it contains still.
  pub add_no_false_negatives :
      (b : Bloom) (key : List ℕ)
      → 0 < length b.bits
      → (contains (add b key) key ≡ true)
        × ((other : List ℕ) → contains b other ≡ true → contains (add b key) other ≡ true)
  unfolding contains add
  add_no_false_negatives b key h = (
    simp (keys-add_keys b.keys b key) (contains_keys-add_keys_self b.keys b key h),
    λ other c.
        simp (keys-add_keys b.keys b key) (contains_keys-add_keys b.keys b.keys b key other c),
  )

  bit_at-replicate :
      (keys : List ℕ) (n i : ℕ)
      → bit_at (record { keys = keys; bits = replicate n false }) i ≡ false
  unfolding bit_at
  bit_at-replicate keys zero i = refl
  bit_at-replicate keys (suc n) zero = refl
  bit_at-replicate keys (suc n) (suc i) = bit_at-replicate keys n i

  contains_keys-empty :
      (ks keys : List ℕ) (n : ℕ) (key : List ℕ)
      → 0 < length ks
      → contains_keys ks (record { keys = keys; bits = replicate n false }) key ≡ false
  unfolding contains_keys
  contains_keys-empty [] keys n key h = elim h [ ]
  contains_keys-empty (k ∷ ks) keys n key h =
      rw (bit_at-replicate keys n (pos (record { keys = keys; bits = replicate n false }) key k))
        refl

  -- A filter with at least one key contains nothing when it is new or was cleared; it is new only
  -- when the bits asked for fit and as many keys were given as it has.
  pub new-contains_nothing :
      (u k num_bits : ℕ) (ks key : List ℕ) (b c : Bloom)
      → new u k num_bits ks ≡ some b
      → 0 < k
      → 0 < length c.keys
      → (contains b key ≡ false)
        × (contains (clear c) key ≡ false)
        × (num_bits ≤ max_bits u)
        × (length ks ≡ k)
  unfolding new clear contains
  new-contains_nothing u k num_bits ks key b c h some_key some_keys =
      let made : b ≡ record { keys = ks; bits = replicate (max_bits u) false } = ground arith in
      let keys : length ks ≡ k = ground arith in
      (
        rw made (contains_keys-empty ks ks (max_bits u) key (omega (arith, keys, some_key))),
        contains_keys-empty c.keys c.keys (length c.bits) key some_keys,
        ground arith,
        keys,
      )
