-- ===== src/Core/FixedVec/Shifts.antt =====
-- The loops of shared/core/src/fixed_vec.rs that move or reset slots.
use psyche.Base.{
  inl, inr, Option-cases, ℕ, zero, suc, ◌+◌, ◌≤◌, ◌≡◌, refl, sym, ap, ◌∙◌, List, [], ◌∷◌, ◌++◌,
  some, length, get_elem?, set, take, arith, length-append, length-set, get_elem?-middle,
  set-middle,
}
use native.Mathlib.Numerals.{unary_clauses}
use mathlib.Core.List.{append_assoc}
use psyche.Core.FixedVec.{copy, reset, shift_left, shift_right}

module _ {T : Type 0} where
  pub take-append : (xs ys : List T) → take (length xs) (xs ++ ys) ≡ xs
  take-append [] ys = refl
  take-append (x ∷ xs) ys = ap (λ l. x ∷ l) (take-append xs ys)

  pub length-reset : (d : T) (i n : ℕ) (ds : List T) → length (reset d i n ds) ≡ length ds
  unfolding reset
  length-reset d i zero ds = refl
  length-reset d i (suc n) ds = length-reset d (i + 1) n (set ds i d) ∙ length-set ds i d

  take-set : (i k : ℕ) (ds : List T) (x : T) → i ≤ k → take i (set ds k x) ≡ take i ds
  take-set zero k ds x h = refl
  take-set (suc i) k [] x h = refl
  take-set (suc i) zero (y ∷ ds) x h = elim h [ ]
  take-set (suc i) (suc k) (y ∷ ds) x h = ap (λ l. y ∷ l) (take-set i k ds x (omega arith))

  -- Slots below the first one that is reset are kept.
  pub take-reset : (d : T) (i k n : ℕ) (ds : List T) → i ≤ k → take i (reset d k n ds) ≡ take i ds
  unfolding reset
  take-reset d i k zero ds h = refl
  take-reset d i k (suc n) ds h =
      take-reset d i (k + 1) n (set ds k d) (omega arith) ∙ take-set i k ds d h

  pub length-copy : (i j : ℕ) (ds : List T) → length (copy i j ds) ≡ length ds
  length-copy i j ds = elim (Option-cases (get_elem? ds i)) [
    | inl e ↦ rw (copy, e) refl
    | inr (x, e) ↦ rw (copy, e) (length-set ds j x)
  ]

  get_elem?-second :
      (xs : List T) (x y : T) (ys : List T)
      → get_elem? (xs ++ (x ∷ y ∷ ys)) (length xs + 1) ≡ some y
  get_elem?-second [] x y ys = refl
  get_elem?-second (z ∷ xs) x y ys =
      simp unary_clauses (simp unary_clauses at (get_elem?-second xs x y ys))

  set-second :
      (xs : List T) (x y z : T) (ys : List T)
      → set (xs ++ (x ∷ y ∷ ys)) (length xs + 1) z ≡ xs ++ (x ∷ z ∷ ys)
  set-second [] x y z ys = refl
  set-second (w ∷ xs) x y z ys =
      simp unary_clauses (simp unary_clauses at (ap (λ l. w ∷ l) (set-second xs x y z ys)))

  -- A copy from a slot to the one before it, and to the one after it.
  copy_down :
      (xs : List T) (x y : T) (ys : List T)
      → copy (length xs + 1) (length xs) (xs ++ (x ∷ y ∷ ys)) ≡ xs ++ (y ∷ y ∷ ys)
  copy_down xs x y ys = rw (copy, get_elem?-second xs x y ys) (set-middle xs (y ∷ ys) x y)

  copy_up :
      (xs : List T) (x y : T) (ys : List T)
      → copy (length xs) (length xs + 1) (xs ++ (x ∷ y ∷ ys)) ≡ xs ++ (x ∷ x ∷ ys)
  copy_up xs x y ys = rw (copy, get_elem?-middle xs (y ∷ ys) x) (set-second xs x y x ys)

  length-snoc : (xs : List T) (x : T) → length (xs ++ (x ∷ [])) ≡ length xs + 1
  length-snoc xs x = length-append xs (x ∷ [])

  -- The item before `mid` is overwritten, and the last slot of `mid` is left over.
  pub shift_left-eq :
      (xs : List T) (x : T) (mid ys : List T)
      → (z : T) × (shift_left (length xs) (length mid) (xs ++ (x ∷ (mid ++ ys)))
          ≡ xs ++ (mid ++ (z ∷ ys)))
  unfolding shift_left
  shift_left-eq xs x [] ys = (x, refl)
  shift_left-eq xs x (m ∷ mid) ys =
      let (z, e) = shift_left-eq (xs ++ (m ∷ [])) m mid ys in
      (
        z,
        ap (shift_left (length xs + 1) (length mid)) (copy_down xs x m (mid ++ ys))
            ∙ (simp (length-snoc xs m, append_assoc xs (m ∷ [])) at e),
      )

  last_of :
      (n : ℕ) (xs : List T)
      → length xs ≡ suc n
      → (ys : List T) × (y : T) × (xs ≡ ys ++ (y ∷ [])) × (length ys ≡ n)
  last_of n [] h = absurd (omega (arith, h))
  last_of zero (x ∷ []) h = ([], x, refl, refl)
  last_of zero (x ∷ y ∷ xs) h = absurd (omega (arith, h))
  last_of (suc n) (x ∷ xs) h =
      let (ys, y, e, k) = last_of n xs (omega (arith, h)) in
      (x ∷ ys, y, ap (λ l. x ∷ l) e, ap suc k)

  -- The last item of `mid` is copied over the slot after it.
  copy_last :
      (xs front : List T) (y x : T) (ys : List T)
      → copy
          (length xs + length front)
          (length xs + length front + 1)
          (xs ++ ((front ++ (y ∷ [])) ++ (x ∷ ys)))
        ≡ xs ++ (front ++ (y ∷ y ∷ ys))
  copy_last xs front y x ys =
      simp (append_assoc front (y ∷ []) (x ∷ ys))
        (simp (length-append xs front, append_assoc xs front) at (copy_up (xs ++ front) y x ys))

  -- `mid` moves up by one slot, over the slot after it, and the first slot of it is left over.
  pub shift_right-eq :
      (n : ℕ) (xs mid : List T) (x : T) (ys : List T)
      → length mid ≡ n
      → (z : T) × (shift_right (length xs) n (xs ++ (mid ++ (x ∷ ys))) ≡ xs ++ (z ∷ (mid ++ ys)))
  unfolding shift_right
  shift_right-eq zero xs [] x ys h = (x, refl)
  shift_right-eq zero xs (m ∷ mid) x ys h = absurd (omega (arith, h))
  shift_right-eq (suc n) xs mid x ys h =
      let (front, y, e, k) = last_of n mid h in
      let (z, later) = shift_right-eq n xs front y (y ∷ ys) k in
      (
        z,
        ap (shift_right (length xs) n) (rw (e, sym k) (copy_last xs front y x ys))
            ∙ (later ∙ rw (e, append_assoc front (y ∷ []) ys) refl),
      )
