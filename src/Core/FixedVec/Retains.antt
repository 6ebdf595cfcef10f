-- ===== src/Core/FixedVec/Retains.antt =====
-- The loop of `retain` of shared/core/src/fixed_vec.rs keeps the items that pass, in order.
use psyche.Base.{
  ℕ, suc, ◌+◌, ◌≡◌, refl, ◌∙◌, Bool, true, false, List, [], ◌∷◌, ◌++◌, some, length, get_elem?,
  arith, if◌then◌else◌, ◌==◌, length-append, get_elem?-middle, set-middle, Bool-cases, inl, inr,
}
use mathlib.Core.List.{append_assoc, append-nil}
use psyche.Core.FixedVec.{copy, retain_from}

module _ {T : Type 0} where
  abbrev pub filter : (T → Bool) → List T → List T
  filter f [] = []
  filter f (x ∷ xs) = if f x then x ∷ filter f xs else filter f xs

  -- What the loop leaves: the items kept, in front of as many slots as were dropped.
  abbrev Kept : List T → List T → List T × ℕ → ℕ → Type 0
  Kept kept rest (slots, write) n =
      (junk : List T) × (slots ≡ kept ++ (junk ++ rest))
      × (write ≡ length kept)
      × (length kept + length junk ≡ n)

  length-snoc : (xs : List T) (x : T) → length (xs ++ (x ∷ [])) ≡ length xs + 1
  length-snoc xs x = length-append xs (x ∷ [])

  -- The next slot to read.
  next_read :
      (kept junk rest : List T) (x : T)
      → get_elem? (kept ++ (junk ++ (x ∷ rest))) (length kept + length junk) ≡ some x
  next_read kept junk rest x =
      simp (length-append kept junk, append_assoc kept junk (x ∷ rest)) at
        (get_elem?-middle (kept ++ junk) rest x)

  -- One item that passes is written behind those kept.
  write_kept :
      (kept junk rest : List T) (x : T)
      → (junk' : List T) × ((if length kept + length junk == length kept
            then kept ++ (junk ++ (x ∷ rest))
            else copy (length kept + length junk) (length kept) (kept ++ (junk ++ (x ∷ rest))))
          ≡ (kept ++ (x ∷ [])) ++ (junk' ++ rest))
        × (length junk' ≡ length junk)
  write_kept kept [] rest x = ([], rw (append_assoc kept (x ∷ []) rest) (ground arith), refl)
  write_kept kept (j ∷ junk) rest x = (
    junk ++ (x ∷ []),
    rw (append_assoc kept (x ∷ []) ((junk ++ (x ∷ [])) ++ rest), append_assoc junk (x ∷ []) rest)
        (ground
          (arith, next_read kept (j ∷ junk) rest x, set-middle kept (junk ++ (x ∷ rest)) j x)),
    omega (arith, length-snoc junk x),
  )

  retain_from-passes :
      (f : T → Bool) (n read write : ℕ) (slots : List T) (x : T)
      → get_elem? slots read ≡ some x
      → f x ≡ true
      → retain_from f (suc n) read write slots
        ≡ retain_from f n
            (read + 1)
            (write + 1)
            (if read == write then slots else copy read write slots)
  unfolding retain_from
  retain_from-passes f n read write slots x h k = ground arith

  retain_from-fails :
      (f : T → Bool) (n read write : ℕ) (slots : List T) (x : T)
      → get_elem? slots read ≡ some x
      → f x ≡ false
      → retain_from f (suc n) read write slots ≡ retain_from f n (read + 1) write slots
  unfolding retain_from
  retain_from-fails f n read write slots x h k = ground arith

  pub retain_from-Kept :
      (f : T → Bool) (todo kept junk rest all slots : List T) (read write n : ℕ)
      → slots ≡ kept ++ (junk ++ (todo ++ rest))
      → read ≡ length kept + length junk
      → write ≡ length kept
      → all ≡ kept ++ filter f todo
      → n ≡ read + length todo
      → Kept all rest (retain_from f (length todo) read write slots) n
  unfolding retain_from
  retain_from-Kept f [] kept junk rest all slots read write n e r w a m =
      let same : all ≡ kept = a ∙ append-nil kept in
      (junk, rw same e, rw same w, rw (same, m, r) (omega arith))
  retain_from-Kept f (x ∷ todo) kept junk rest all slots read write n e r w a m =
      let found : get_elem? slots read ≡ some x =
        rw (e, r) (next_read kept junk (todo ++ rest) x) in
      elim (Bool-cases (f x)) [
        | inl passes ↦
            let (junk', moved, long) = write_kept kept junk (todo ++ rest) x in
            rw (retain_from-passes f (length todo) read write slots x found passes) (
              retain_from-Kept f todo (kept ++ (x ∷ [])) junk' rest all _ (read + 1) (write + 1) n
                (rw (e, r, w) moved) (omega (arith, r, long, length-snoc kept x))
                (omega (arith, w, length-snoc kept x))
                (rw (append_assoc kept (x ∷ []) (filter f todo)) (ground arith)) (omega (arith, m)))
        | inr fails ↦ rw (retain_from-fails f (length todo) read write slots x found fails) (
            retain_from-Kept f todo kept (junk ++ (x ∷ [])) rest all slots (read + 1) write n
              (rw (append_assoc junk (x ∷ []) (todo ++ rest)) e)
              (omega (arith, r, length-snoc junk x)) w (ground arith) (omega (arith, m)))
      ]
