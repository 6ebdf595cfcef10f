-- ===== src/Core/FixedVec/Edits.antt =====
-- The edits of shared/core/src/fixed_vec.rs: removals, insertions and `retain`.
use psyche.Base.{
  ℕ, zero, suc, ◌+◌, ◌-◌, ◌<◌, ◌≡◌, refl, sym, ap, ◌∙◌, Bool, false, List, [], ◌∷◌, ◌++◌, some,
  length, set, drop, arith, length-append, length-set, get_elem?-middle, set-middle, leb,
}
use mathlib.Core.List.{append_assoc}
use psyche.Core.FixedVec.{
  FixedVec, remove, insert, retain, shift_left, shift_right, copy, retain_from,
}
use psyche.Core.FixedVec.Shifts.{shift_left-eq, shift_right-eq, length-copy}
use psyche.Core.FixedVec.Retains.{filter, retain_from-Kept}
use psyche.Core.FixedVec.Laws.{Holds, holds, slots_of, spare, reset-Holds}

module _ {T : Type 0} where
  length-shift_left : (i n : ℕ) (ds : List T) → length (shift_left i n ds) ≡ length ds
  unfolding shift_left
  length-shift_left i zero ds = refl
  length-shift_left i (suc n) ds =
      length-shift_left (i + 1) n (copy (i + 1) i ds) ∙ length-copy (i + 1) i ds

  length-shift_right : (i n : ℕ) (ds : List T) → length (shift_right i n ds) ≡ length ds
  unfolding shift_right
  length-shift_right i zero ds = refl
  length-shift_right i (suc n) ds =
      length-shift_right i n (copy (i + n) (i + n + 1) ds) ∙ length-copy (i + n) (i + n + 1) ds

  -- On a vector that holds a list, the removal at an item's place returns the item, and leaves the
  -- list without it, the order of the others kept.
  pub remove-Holds :
      (d : T) (v : FixedVec T) (n : ℕ) (xs : List T) (x : T) (ys : List T)
      → Holds v n (xs ++ (x ∷ ys))
      → ((remove d (length xs) v).0 ≡ some x) × Holds (remove d (length xs) v).1 n (xs ++ ys)
  unfolding remove
  remove-Holds d v n xs x ys h =
      let (e, l) = slots_of v n (xs ++ (x ∷ ys)) h in
      let rest = drop v.len v.slots in
      let e' : v.slots ≡ xs ++ (x ∷ (ys ++ rest)) = e ∙ append_assoc xs (x ∷ ys) rest in
      let long : v.len ≡ length xs + length ys + 1 = omega (arith, l, length-append xs (x ∷ ys)) in
      let (z, moved) = shift_left-eq xs x ys rest in
      let gap : v.len - 1 - length xs ≡ length ys = omega (arith, long) in
      let last : v.len - 1 ≡ length (xs ++ ys) = omega (arith, long, length-append xs ys) in
      let there : leb v.len (length xs) ≡ false = ground (arith, long) in
      let shifted : shift_left (length xs) (v.len - 1 - length xs) v.slots
          ≡ xs ++ (ys ++ (z ∷ rest)) =
        ap (shift_left (length xs) (v.len - 1 - length xs)) e' ∙ rw gap moved in
      rw there (
        rw e' (get_elem?-middle xs (ys ++ rest) x),
        holds _ (xs ++ ys) (d ∷ rest) _ n
            (ap (λ s. set s (v.len - 1) d) (shifted ∙ sym (append_assoc xs ys (z ∷ rest)))
              ∙ rw last (set-middle (xs ++ ys) rest z d))
            last (length-set _ (v.len - 1) d ∙ length-shift_left _ _ v.slots ∙ h.cap),
      )

  -- On a vector that holds a list and has room, an insertion at any place up to the end succeeds,
  -- and the vector then holds the list with the item at that place.
  pub insert-Holds :
      (v : FixedVec T) (n : ℕ) (xs : List T) (x : T) (ys : List T)
      → Holds v n (xs ++ ys)
      → length (xs ++ ys) < n
      → (w : FixedVec T) × (insert (length xs) x v ≡ some w) × Holds w n (xs ++ (x ∷ ys))
  unfolding insert
  insert-Holds v n xs x ys h room =
      let (_, l) = slots_of v n (xs ++ ys) h in
      let (y, rest, e) = spare v n (xs ++ ys) h room in
      let (z, moved) = shift_right-eq (length ys) xs ys y rest refl in
      let gap : v.len - length xs ≡ length ys = omega (arith, l, length-append xs ys) in
      let shifted : shift_right (length xs) (v.len - length xs) v.slots ≡ xs ++ (z ∷ (ys ++ rest)) =
        ap (shift_right (length xs) (v.len - length xs)) (e ∙ append_assoc xs ys (y ∷ rest))
        ∙ rw gap moved in
      (
        record {
          slots = set (shift_right (length xs) (v.len - length xs) v.slots) (length xs) x;
          len = v.len + 1;
        },
        ground (arith, l, h.cap, length-append xs ys),
        holds _ (xs ++ (x ∷ ys)) rest _ n
            (ap (λ s. set s (length xs) x) shifted
              ∙ (set-middle xs (ys ++ rest) z x ∙ sym (append_assoc xs (x ∷ ys) rest)))
            (omega (arith, l, length-append xs ys, length-append xs (x ∷ ys)))
            (length-set _ (length xs) x ∙ (length-shift_right _ _ v.slots ∙ h.cap)),
      )

  -- On a vector that holds a list, `retain` leaves the list of the items that pass its test, in
  -- their order, at the same capacity.
  pub retain-Holds :
      (d : T) (f : T → Bool) (v : FixedVec T) (n : ℕ) (xs : List T)
      → Holds v n xs
      → Holds (retain d f v) n (filter f xs)
  unfolding retain
  retain-Holds d f v n xs h =
      let (e, l) = slots_of v n xs h in
      let rest = drop v.len v.slots in
      let (junk, left, write, long) =
        retain_from-Kept f xs [] [] rest (filter f xs) v.slots 0 0 (length xs) e refl refl refl
          (omega arith) in
      let (slots, end) = retain_from f v.len 0 0 v.slots in
      let same : retain_from f v.len 0 0 v.slots ≡ retain_from f (length xs) 0 0 v.slots =
        ap (λ m. retain_from f m 0 0 v.slots) l in
      let kept : slots ≡ filter f xs ++ (junk ++ rest) = ap (λ r. r.0) same ∙ left in
      reset-Holds d slots (filter f xs) (junk ++ rest) end (v.len - end) n kept
        (ap (λ r. r.1) same ∙ write)
        (omega (
          arith,
          ap length kept,
          ap length e,
          length-append (filter f xs) (junk ++ rest),
          length-append junk rest,
          length-append xs rest,
          long,
          h.cap,
        ))
