-- ===== src/Core/FixedVec/Runs.antt =====
-- Any sequence of operations on a vector of shared/core/src/fixed_vec.rs is one on a list of bounded
-- length.
use psyche.Base.{
  ℕ, zero, suc, ◌+◌, ◌-◌, ◌<◌, ◌≡◌, refl, sym, ap, Bool, true, false, some, none, List, [], ◌∷◌,
  ◌++◌, length, take, drop, ltb, leb, if◌then◌else◌, inl, inr, Bool-cases, arith, length-take,
  take-append-drop, get_elem?,
}
use mathlib.Core.Path.{subst, ◌∙◌}
use psyche.Core.FixedVec
use psyche.Core.FixedVec.{FixedVec, push, pop, insert, remove, retain, clear}
use psyche.Core.FixedVec.Retains.{filter}
use psyche.Core.FixedVec.Laws.{
  new-Holds, Holds, push-Holds, pop-Holds, new-clear-get-Holds, slots_of,
}
use psyche.Core.FixedVec.Edits.{insert-Holds, remove-Holds, retain-Holds}

pub data Operation (T : Type 0) : Type 0 where
  pushes : T → Operation T
  pops : Operation T
  inserts : ℕ → T → Operation T
  removes : ℕ → Operation T
  retains : (T → Bool) → Operation T
  clears : Operation T

module _ {T : Type 0} where
  -- The vector after an operation. One that fails leaves it as it is.
  abbrev pub operated : T → Operation T → FixedVec T → FixedVec T
  operated d (pushes x) v = elim (push x v) [ none ↦ v | some w ↦ w ]
  operated d pops v = (pop d v).1
  operated d (inserts i x) v = elim (insert i x v) [ none ↦ v | some w ↦ w ]
  operated d (removes i) v = (remove d i v).1
  operated d (retains f) v = retain d f v
  operated d clears v = clear d v

  abbrev pub operated_all : T → List (Operation T) → FixedVec T → FixedVec T
  operated_all d [] v = v
  operated_all d (o ∷ os) v = operated_all d os (operated d o v)

  -- What an operation does to a list of at most `n` items.
  abbrev pub listed : ℕ → Operation T → List T → List T
  listed n (pushes x) xs = if ltb (length xs) n then xs ++ x ∷ [] else xs
  listed n pops xs = take (length xs - 1) xs
  listed n (inserts i x) xs =
      if ltb (length xs) n
      then (if ltb (length xs) i then xs else take i xs ++ x ∷ drop i xs)
      else xs
  listed n (removes i) xs = if ltb i (length xs) then take i xs ++ drop (i + 1) xs else xs
  listed n (retains f) xs = filter f xs
  listed n clears xs = []

  abbrev pub listed_all : ℕ → List (Operation T) → List T → List T
  listed_all n [] xs = xs
  listed_all n (o ∷ os) xs = listed_all n os (listed n o xs)

  -- A list around one of its items.
  around : (xs : List T) (i : ℕ) → i < length xs → (x : T) × (xs ≡ take i xs ++ x ∷ drop (i + 1) xs)
  around [] i h = absurd (omega (arith, h))
  around (x ∷ xs) zero h = (x, refl)
  around (x ∷ xs) (suc i) h =
      let (y, e) = around xs i (omega (arith, h)) in
      let next : suc i + 1 ≡ suc (i + 1) = omega arith in (y, rw next (ap (λ zs. x ∷ zs) e))

  drop_all : (xs : List T) → drop (length xs) xs ≡ []
  drop_all [] = refl
  drop_all (x ∷ xs) = drop_all xs

  -- The vector and the list may be given by equations.
  Holds-at :
      {v w : FixedVec T} {n : ℕ} {xs ys : List T} → w ≡ v → ys ≡ xs → Holds v n xs → Holds w n ys
  Holds-at {v} {w} {n} {xs} {ys} a b h =
      subst (λ u. Holds u n ys) (sym a) (subst (λ zs. Holds v n zs) (sym b) h)

  pushes-Holds :
      (d x : T) (v : FixedVec T) (n : ℕ) (xs : List T)
      → Holds v n xs
      → Holds (operated d (pushes x) v) n (listed n (pushes x) xs)
  pushes-Holds d x v n xs h = elim (Bool-cases (ltb (length xs) n)) [
    | inl room ↦
        let (w, is, k) = (push-Holds v n xs x h).0 (ground (arith, room)) in
        Holds-at (ground (arith, is)) (ground (arith, room)) k
    | inr full ↦
        let is : push x v ≡ none = (push-Holds v n xs x h).1 (ground (arith, full)) in
        Holds-at (ground (arith, is)) (ground (arith, full)) h
  ]

  pops-Holds :
      (d : T) (v : FixedVec T) (n : ℕ) (xs : List T)
      → Holds v n xs
      → Holds (operated d pops v) n (listed n pops xs)
  unfolding pop
  pops-Holds d v n [] h =
      let long : v.len ≡ 0 = (slots_of v n [] h).1 in
      let nothing : ltb 0 v.len ≡ false = ground (arith, long) in
      Holds-at (ground (arith, nothing)) (ground arith) h
  pops-Holds d v n (y ∷ ys) h =
      let xs : List T = y ∷ ys in
      let i : ℕ = length xs - 1 in
      let (x, e) = around xs i (omega arith) in
      let end : i + 1 ≡ length xs = omega arith in
      let e' : xs ≡ take i xs ++ x ∷ [] =
        e ∙ ap (λ zs. take i xs ++ x ∷ zs) (ap (λ k. drop k xs) end ∙ drop_all xs) in
      (pop-Holds d v n (take i xs) x (Holds-at refl (sym e') h)).1

  inserts-Holds :
      (d x : T) (i : ℕ) (v : FixedVec T) (n : ℕ) (xs : List T)
      → Holds v n xs
      → Holds (operated d (inserts i x) v) n (listed n (inserts i x) xs)
  unfolding insert
  inserts-Holds d x i v n xs h = elim (Bool-cases (ltb (length xs) n)) [
    | inl room ↦ elim (Bool-cases (ltb (length xs) i)) [
      | inl beyond ↦
          let is : insert i x v ≡ none =
            ground (arith, beyond, room, (slots_of v n xs h).1, h.cap) in
          Holds-at (ground (arith, is)) (ground (arith, room, beyond)) h
      | inr inside ↦
          let whole : take i xs ++ drop i xs ≡ xs = take-append-drop i xs in
          let at_i : length (take i xs) ≡ i = ground (arith, length-take i xs, inside) in
          let (w, is, k) =
            insert-Holds v n (take i xs) x (drop i xs) (Holds-at refl whole h)
              (ground (arith, ap length whole, room)) in
          let is' : insert i x v ≡ some w = ap (λ j. insert j x v) (sym at_i) ∙ is in
          Holds-at (ground (arith, is')) (ground (arith, room, inside)) k
    ]
    | inr full ↦
        let is : insert i x v ≡ none = ground (arith, full, (slots_of v n xs h).1, h.cap) in
        Holds-at (ground (arith, is)) (ground (arith, full)) h
  ]

  removes-Holds :
      (d : T) (i : ℕ) (v : FixedVec T) (n : ℕ) (xs : List T)
      → Holds v n xs
      → Holds (operated d (removes i) v) n (listed n (removes i) xs)
  unfolding remove
  removes-Holds d i v n xs h = elim (Bool-cases (ltb i (length xs))) [
    | inl inside ↦
        let (x, e) = around xs i (ground (arith, inside)) in
        let at_i : length (take i xs) ≡ i = ground (arith, length-take i xs, inside) in
        let k = (remove-Holds d v n (take i xs) x (drop (i + 1) xs) (Holds-at refl (sym e) h)).1 in
        Holds-at (ap (λ j. (remove d j v).1) (sym at_i)) (ground (arith, inside)) k
    | inr beyond ↦
        let off : leb v.len i ≡ true = ground (arith, beyond, (slots_of v n xs h).1) in
        Holds-at (ground (arith, off)) (ground (arith, beyond)) h
  ]

  operated-Holds :
      (d : T) (o : Operation T) (v : FixedVec T) (n : ℕ) (xs : List T)
      → Holds v n xs
      → Holds (operated d o v) n (listed n o xs)
  operated-Holds d (pushes x) v n xs h = pushes-Holds d x v n xs h
  operated-Holds d pops v n xs h = pops-Holds d v n xs h
  operated-Holds d (inserts i x) v n xs h = inserts-Holds d x i v n xs h
  operated-Holds d (removes i) v n xs h = removes-Holds d i v n xs h
  operated-Holds d (retains f) v n xs h = retain-Holds d f v n xs h
  operated-Holds d clears v n xs h = (new-clear-get-Holds d v n 0 xs h).1

  operated_all-from :
      (d : T) (os : List (Operation T)) (v : FixedVec T) (n : ℕ) (xs : List T)
      → Holds v n xs
      → Holds (operated_all d os v) n (listed_all n os xs)
  operated_all-from d [] v n xs h = h
  operated_all-from d (o ∷ os) v n xs h =
      operated_all-from d os (operated d o v) n (listed n o xs) (operated-Holds d o v n xs h)

  -- After any sequence of pushes, pops, insertions, removals, filters and clearings, failing ones
  -- among them, a vector that was new holds what the same operations make of an empty list that
  -- takes at most `n` items, at the capacity `n`; and `get` looks up in that list.
  pub operated_all-Holds :
      (d : T) (n : ℕ) (os : List (Operation T)) (i : ℕ)
      → Holds (operated_all d os (FixedVec.new d n)) n (listed_all n os [])
        × (FixedVec.get i (operated_all d os (FixedVec.new d n)) ≡ get_elem? (listed_all n os []) i)
  operated_all-Holds d n os i =
      let start : Holds (FixedVec.new d n) n [] = new-Holds d n in
      let ends : Holds (operated_all d os (FixedVec.new d n)) n (listed_all n os []) =
        operated_all-from d os (FixedVec.new d n) n [] start in
      (ends, (new-clear-get-Holds d _ n i (listed_all n os []) ends).2)
