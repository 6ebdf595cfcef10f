-- ===== src/Core/FixedVec/Laws.antt =====
-- shared/core/src/fixed_vec.rs implements a list of bounded length.
use psyche.Base.{
  replicate, Bool-cases, inl, inr, ltb→lt, ℕ, zero, suc, ◌+◌, ◌-◌, ◌<◌, ◌≤◌, ◌≡◌, refl, sym, ap,
  ◌∙◌, true, List, [], ◌∷◌, ◌++◌, some, none, length, get_elem?, set, take, drop, arith, ltb,
  length-append, length-set, length-take, get_elem?-middle, set-middle, take-append-drop,
}
use mathlib.Core.List.{append_assoc, append-nil}
use psyche.Core.FixedVec.{
  new, clear, get, FixedVec, capacity, items, IsValid, push, pop, extend, reset,
}
use psyche.Core.FixedVec.Shifts.{take-append, take-reset, length-reset}

module _ {T : Type 0} where
  -- The vector is valid, of the given capacity, and its items are those of the list.
  pub record Holds (v : FixedVec T) (n : ℕ) (xs : List T) : Type 0 where
    pub valid : IsValid v
    pub cap : capacity v ≡ n
    pub same : items v ≡ xs

  -- The vector whose slots are those of a list and some others holds the list.
  pub holds :
      (slots xs junk : List T) (len n : ℕ)
      → slots ≡ xs ++ junk
      → len ≡ length xs
      → length slots ≡ n
      → Holds (record { slots = slots; len = len }) n xs
  holds slots xs junk len n e l c = record {
    valid = omega (arith, l, ap length e, length-append xs junk);
    cap = c;
    same = rw (l, e) (take-append xs junk);
  }

  -- The slots and the number of items of a vector that holds a list.
  pub slots_of :
      (v : FixedVec T) (n : ℕ) (xs : List T)
      → Holds v n xs
      → (v.slots ≡ xs ++ drop v.len v.slots) × (v.len ≡ length xs)
  slots_of v n xs h = (
    rw (sym h.same) (sym (take-append-drop v.len v.slots)),
    omega (arith, ap length h.same, length-take v.len v.slots, h.valid),
  )

  -- Below its capacity a vector has a slot behind its items.
  pub spare :
      (v : FixedVec T) (n : ℕ) (xs : List T)
      → Holds v n xs
      → length xs < n
      → (y : T) × (ys : List T) × (v.slots ≡ xs ++ (y ∷ ys))
  spare v n xs h lt = go (drop v.len v.slots) (slots_of v n xs h).0
    where
      go :
          (rest : List T)
          → v.slots ≡ xs ++ rest
          → (y : T) × (ys : List T) × (v.slots ≡ xs ++ (y ∷ ys))
      go [] e = absurd (omega (arith, ap length e, length-append xs [], h.cap, lt))
      go (y ∷ ys) e = (y, ys, e)

  -- On a vector that holds a list, a push yields one of the same capacity that holds the list with
  -- the item at its end when there is room, and fails when there is none.
  pub push-Holds :
      (v : FixedVec T) (n : ℕ) (xs : List T) (x : T)
      → Holds v n xs
      → (length xs < n → (w : FixedVec T) × (push x v ≡ some w) × Holds w n (xs ++ (x ∷ [])))
        × (n ≤ length xs → push x v ≡ none)
  unfolding push
  push-Holds v n xs x h = (λ room. appended room, λ full. ground (arith, long, h.cap))
    where
      long : v.len ≡ length xs
      long = (slots_of v n xs h).1

      appended : length xs < n → (w : FixedVec T) × (push x v ≡ some w) × Holds w n (xs ++ (x ∷ []))
      appended room =
          let (y, ys, e) = spare v n xs h room in
          (
            record { slots = set v.slots v.len x; len = v.len + 1 },
            ground (arith, long, h.cap),
            holds _ (xs ++ (x ∷ [])) ys _ n
                (rw (append_assoc xs (x ∷ []) ys, long, e) (set-middle xs ys y x))
                (omega (arith, long, length-append xs (x ∷ [])))
                (length-set v.slots v.len x ∙ h.cap),
          )

  -- On a vector that holds a list with a last item, a pop returns that item and leaves the rest of
  -- the list, at the same capacity.
  pub pop-Holds :
      (d : T) (v : FixedVec T) (n : ℕ) (xs : List T) (x : T)
      → Holds v n (xs ++ (x ∷ []))
      → ((pop d v).0 ≡ some x) × Holds (pop d v).1 n xs
  unfolding pop
  pop-Holds d v n xs x h =
      let (e, l) = slots_of v n (xs ++ (x ∷ [])) h in
      let rest = drop v.len v.slots in
      let e' : v.slots ≡ xs ++ (x ∷ rest) = e ∙ append_assoc xs (x ∷ []) rest in
      let below : v.len - 1 ≡ length xs = omega (arith, l, length-append xs (x ∷ [])) in
      let some_item : ltb 0 v.len ≡ true = ground (arith, l, length-append xs (x ∷ [])) in
      rw (some_item) (
        rw (below, e') (get_elem?-middle xs rest x),
        holds _ xs (d ∷ rest) _ n
            (ap (λ l. set l (v.len - 1) d) e' ∙ rw below (set-middle xs rest x d)) below
            (length-set v.slots (v.len - 1) d ∙ h.cap),
      )

  extend-step :
      (y : T) (ys : List T) (v w : FixedVec T) → push y v ≡ some w → extend (y ∷ ys) v ≡ extend ys w
  unfolding extend
  extend-step y ys v w e = ground arith

  -- On a vector that holds a list, an extension by items that fit succeeds, and the vector then
  -- holds the list followed by them in their order.
  pub extend-Holds :
      (ys : List T) (v : FixedVec T) (n : ℕ) (xs : List T)
      → Holds v n xs
      → length xs + length ys ≤ n
      → ((extend ys v).0 ≡ true) × Holds (extend ys v).1 n (xs ++ ys)
  unfolding extend
  extend-Holds [] v n xs h fits = (refl, rw (append-nil xs) h)
  extend-Holds (y ∷ ys) v n xs h fits =
      let (w, e, k) = (push-Holds v n xs y h).0 (omega (arith, fits)) in
      let later =
        extend-Holds ys w n (xs ++ (y ∷ [])) k (omega (arith, fits, length-append xs (y ∷ []))) in
      rw (extend-step y ys v w e) (simp (append_assoc xs (y ∷ []) ys) at later)

  -- The slots behind the items that are kept are reset.
  pub reset-Holds :
      (d : T) (slots xs junk : List T) (write k n : ℕ)
      → slots ≡ xs ++ junk
      → write ≡ length xs
      → length slots ≡ n
      → Holds (record { slots = reset d write k slots; len = write }) n xs
  reset-Holds d slots xs junk write k n e w c = record {
    valid = omega (arith, w, ap length e, length-append xs junk, length-reset d write k slots);
    cap = length-reset d write k slots ∙ c;
    same = take-reset d write write k slots (omega arith) ∙ rw (w, e) (take-append xs junk);
  }

  length-replicate : (n : ℕ) (d : T) → length (replicate n d) ≡ n
  length-replicate zero d = refl
  length-replicate (suc n) d = ap suc (length-replicate n d)

  get_elem?-take : (k i : ℕ) (ds : List T) → i < k → get_elem? (take k ds) i ≡ get_elem? ds i
  get_elem?-take zero i ds h = elim h [ ]
  get_elem?-take (suc k) i [] h = refl
  get_elem?-take (suc k) zero (y ∷ ds) h = refl
  get_elem?-take (suc k) (suc i) (y ∷ ds) h = get_elem?-take k i ds (omega arith)

  get_elem?-beyond : (i : ℕ) (ds : List T) → length ds ≤ i → get_elem? ds i ≡ none
  get_elem?-beyond i [] h = refl
  get_elem?-beyond zero (y ∷ ds) h = elim h [ ]
  get_elem?-beyond (suc i) (y ∷ ds) h = get_elem?-beyond i ds (omega arith)

  pub new-Holds : (d : T) (n : ℕ) → Holds (new d n) n []
  unfolding new
  new-Holds d n = holds (replicate n d) [] (replicate n d) 0 n refl refl (length-replicate n d)

  -- A new vector and a cleared one hold the empty list at their capacity, and on a vector that
  -- holds a list `get` is the look-up in the list, which fails behind the last item.
  pub new-clear-get-Holds :
      (d : T) (v : FixedVec T) (n i : ℕ) (xs : List T)
      → Holds v n xs
      → Holds (new d n) n [] × Holds (clear d v) n [] × (get i v ≡ get_elem? xs i)
  unfolding clear get
  new-clear-get-Holds d v n i xs h = (
    new-Holds d n,
    reset-Holds d v.slots [] v.slots 0 v.len n refl refl h.cap,
    elim (Bool-cases (ltb i v.len)) [
      | inl below ↦
          rw (below, sym h.same) (sym (get_elem?-take v.len i v.slots (ltb→lt i v.len below)))
      | inr beyond ↦ rw beyond (sym (get_elem?-beyond i xs (ground (arith, (slots_of v n xs h).1))))
    ],
  )
