-- ===== src/Base/Keys.antt =====
-- Values under numbers: the accounts of a chain under their addresses, the entries of a map.
use Prim.Native.Nat.{ℕ}
use mathlib.Core.Path.{◌≡◌, refl, subst}
use mathlib.Core.Bool.{Bool, true, false, ◌&&◌, ◌||◌}
use mathlib.Core.Logic.{◌↔◌, inl, inr}
use mathlib.Core.Option.{Option, none, some}
use mathlib.Core.List.{List, [], ◌∷◌}
use native.Mathlib.Omega.{arith}
use psyche.Base.Tests.{◌==◌, if◌then◌else◌, Bool-cases}
use psyche.Base.{◌+◌, Bool-cases}

module _ {ℓ} {V : Type ℓ} where
  unfoldable pub find_key : ℕ → List (ℕ × V) → Option V
  find_key k [] = none
  find_key k ((j, v) ∷ m) = if j == k then some v else find_key k m

  -- A write, to a new key or over the value of an old one.
  unfoldable pub put_key : ℕ → V → List (ℕ × V) → List (ℕ × V)
  put_key k v [] = (k, v) ∷ []
  put_key k v ((j, w) ∷ m) = if j == k then (k, v) ∷ m else (j, w) ∷ put_key k v m

  -- Every entry of the key is gone.
  unfoldable pub drop_key : ℕ → List (ℕ × V) → List (ℕ × V)
  drop_key k [] = []
  drop_key k ((j, w) ∷ m) = let rest = drop_key k m in if j == k then rest else (j, w) ∷ rest

  pub find_key-put_key :
      (k j : ℕ) (v : V) (m : List (ℕ × V))
      → find_key j (put_key k v m) ≡ (if k == j then some v else find_key j m)
  unfolding find_key put_key
  find_key-put_key k j v [] = refl
  find_key-put_key k j v ((i, w) ∷ m) = ground (arith, find_key-put_key k j v m)

  pub find_key-drop_key :
      (k j : ℕ) (m : List (ℕ × V))
      → find_key j (drop_key k m) ≡ (if k == j then none else find_key j m)
  unfolding find_key drop_key
  find_key-drop_key k j [] = ground arith
  find_key-drop_key k j ((i, w) ∷ m) = ground (arith, find_key-drop_key k j m)

module _ {ℓ} {V : Type ℓ} (g : V → ℕ) where
  abbrev pub total_of : List (ℕ × V) → ℕ
  total_of [] = 0
  total_of ((k, v) ∷ m) = g v + total_of m

  pub total_of-put_key :
      (k : ℕ) (v w : V) (m : List (ℕ × V))
      → find_key k m ≡ some w
      → total_of (put_key k v m) + g w ≡ total_of m + g v
  unfolding find_key put_key
  total_of-put_key k v w [] h = cc
  total_of-put_key k v w ((j, x) ∷ m) h = ground (arith, total_of-put_key k v w m)

  pub total_of-put_new :
      (k : ℕ) (v : V) (m : List (ℕ × V))
      → find_key k m ≡ none
      → total_of (put_key k v m) ≡ total_of m + g v
  unfolding find_key put_key
  total_of-put_new k v [] h = omega arith
  total_of-put_new k v ((j, x) ∷ m) h = ground (arith, total_of-put_new k v m)

-- A predicate of every value.
module _ {ℓ κ} {V : Type ℓ} (P : V → Type κ) where
  abbrev pub AllValues : List (ℕ × V) → Type κ
  AllValues [] = Unit
  AllValues ((k, v) ∷ m) = P v × AllValues m

  pub AllValues-put_key :
      (k : ℕ) (v : V) (m : List (ℕ × V)) → P v → AllValues m → AllValues (put_key k v m)
  unfolding put_key
  AllValues-put_key k v [] p h = (p, tt)
  AllValues-put_key k v ((j, x) ∷ m) p h = elim (Bool-cases (j == k)) [
    | inl same ↦ rw same (p, h.1)
    | inr other ↦ rw other (h.0, AllValues-put_key k v m p h.1)
  ]

  pub AllValues-find_key :
      (k : ℕ) (v : V) (m : List (ℕ × V)) → find_key k m ≡ some v → AllValues m → P v
  unfolding find_key
  AllValues-find_key k v [] e h = cc
  AllValues-find_key k v ((j, x) ∷ m) e h = elim (Bool-cases (j == k)) [
    | inl same ↦ let is : x ≡ v = ground arith in subst P is h.0
    | inr other ↦ AllValues-find_key k v m (rw other at e) h.1
  ]

pub AllValues-map {ℓ κ μ} :
    {V : Type ℓ} (P : V → Type κ) (Q : V → Type μ)
    → ((v : V) → P v → Q v)
    → (m : List (ℕ × V)) → AllValues P m
    → AllValues Q m
AllValues-map P Q f [] h = tt
AllValues-map P Q f ((k, v) ∷ m) h = (f v h.0, AllValues-map P Q f m h.1)

-- Equality of two sequences of bytes.
abbrev pub same_bytes : List ℕ → List ℕ → Bool
same_bytes [] [] = true
same_bytes [] (y ∷ ys) = false
same_bytes (x ∷ xs) [] = false
same_bytes (x ∷ xs) (y ∷ ys) = (x == y) && same_bytes xs ys

pub same_bytes_iff : (xs ys : List ℕ) → (same_bytes xs ys ≡ true) ↔ (xs ≡ ys)
same_bytes_iff [] [] = ground arith
same_bytes_iff [] (y ∷ ys) = ground arith
same_bytes_iff (x ∷ xs) [] = ground arith
same_bytes_iff (x ∷ xs) (y ∷ ys) = ground (arith, same_bytes_iff xs ys)

-- `xs.contains(&x)`
abbrev pub contains : List ℕ → ℕ → Bool
contains [] x = false
contains (y ∷ ys) x = (y == x) || contains ys x
