-- ===== src/Coordinator/DataSelection/Laws.antt =====
-- shared/coordinator/src/data_selection.rs: the batches of a round tile its data.
use psyche.Base.{
  ℕ, suc, ◌+◌, ◌-◌, ◌*◌, ◌/◌, ◌%◌, ◌≤◌, ◌<◌, ◌≡◌, ◌≢◌, refl, ap, true, some, List, [], ◌∷◌, ◌⊎◌,
  inl, inr, length, arith, Option-cases, Bool-cases, ltb, leb, u64_mod, min, sym,
}
use native.Mathlib.Nat.{div-add-mod', mod-lt}
use mathlib.Core.Path.{subst, sym}
use psyche.Coordinator.DataSelection.{
  BatchId, node_batch_size, assign_from, assign_to, batch_ids_from, batch_ids,
}

-- The intervals follow one another from one index up to another, and none is empty.
abbrev pub Tiles : ℕ → List BatchId → ℕ → Type 0
Tiles from [] to = from ≡ to
Tiles from (b ∷ bs) to = (b.start ≡ from) × (b.start ≤ b.end) × Tiles (b.end + 1) bs to

-- Every interval has one of two neighbouring lengths.
abbrev pub Even : ℕ → List BatchId → Type 0
Even base [] = Unit
Even base (b ∷ bs) =
    ((b.end + 1 ≡ b.start + base) ⊎ (b.end + 1 ≡ b.start + base + 1)) × Even base bs

-- The data of the `n` nodes from position `i` on.
rest_size : ℕ → ℕ → ℕ → ℕ → ℕ
rest_size base remainder i n = base * n + (min remainder (i + n) - min remainder i)

rest_size-zero : (base remainder i : ℕ) → rest_size base remainder i 0 ≡ 0
unfolding rest_size
rest_size-zero base remainder i = ground arith

rest_size-suc :
    (base remainder i n : ℕ)
    → rest_size base remainder i (suc n)
      ≡ node_batch_size base remainder i + rest_size base remainder (i + 1) n
unfolding rest_size
rest_size-suc base remainder i n = ground arith

module _ {T : Type 0} where
  abbrev pub keys : List (BatchId × T) → List BatchId
  keys [] = []
  keys ((b, node) ∷ rest) = b ∷ keys rest

  -- One turn of the loop: the node's batch is empty, or it is the first of the intervals.
  assign_from-cons :
      (base remainder i current : ℕ) (x : T) (nodes : List T) (out : List (BatchId × T))
      → assign_from base remainder i current (x ∷ nodes) ≡ some out
      → ((node_batch_size base remainder i ≡ 0)
          × (assign_from base remainder (i + 1) current nodes ≡ some out))
        ⊎ ((0 < node_batch_size base remainder i)
            × ((rest : List (BatchId × T)) × (assign_from base remainder
                    (i + 1)
                    (current + node_batch_size base remainder i)
                    nodes
                  ≡ some rest)
                × (out
                    ≡ (
                      record {
                        start = current;
                        end = current + node_batch_size base remainder i - 1;
                      },
                      x,
                    )
                      ∷ rest)))
  unfolding assign_from
  assign_from-cons base remainder i current x nodes out h =
      let size = node_batch_size base remainder i in
      elim (Option-cases (assign_from base remainder (i + 1) (current + size) nodes)) [
        | inl e ↦ ground arith
        | inr (rest, e) ↦ elim (Bool-cases (ltb 0 size)) [
          | inl some_data ↦ inr (ground arith, (rest, e, ground arith))
          | inr no_data ↦ inl (ground arith, ground arith)
        ]
      ]

  assign_from-Tiles :
      (base remainder i current : ℕ) (nodes : List T) (out : List (BatchId × T))
      → assign_from base remainder i current nodes ≡ some out
      → Tiles current (keys out) (current + rest_size base remainder i (length nodes))
        × Even base (keys out)
  unfolding assign_from
  assign_from-Tiles base remainder i current [] out h =
      let none_left : out ≡ [] = ground arith in
      rw none_left (omega (arith, rest_size-zero base remainder i), tt)
  assign_from-Tiles base remainder i current (x ∷ nodes) out h =
      let size = node_batch_size base remainder i in
      let total = rest_size-suc base remainder i (length nodes) in
      elim (assign_from-cons base remainder i current x nodes out h) [
        | inl (nothing, later) ↦
            let (tiles, even) = assign_from-Tiles base remainder (i + 1) current nodes out later in
            let same : current + rest_size base remainder (i + 1) (length nodes)
                ≡ current + rest_size base remainder i (suc (length nodes)) =
              omega (arith, total, nothing) in
            (subst (Tiles current (keys out)) same tiles, even)
        | inr (some_data, (rest, later, all)) ↦
            let (tiles, even) =
              assign_from-Tiles base remainder (i + 1) (current + size) nodes rest later in
            let same : current + size + rest_size base remainder (i + 1) (length nodes)
                ≡ current + rest_size base remainder i (suc (length nodes)) =
              omega (arith, total) in
            let next : current + size ≡ current + size - 1 + 1 = omega (arith, some_data) in
            rw all (
              (
                refl,
                omega (arith, some_data),
                subst
                    (λ a.
                      Tiles a (keys rest)
                        (current + rest_size base remainder i (suc (length nodes))))
                    next (subst (Tiles (current + size) (keys rest)) same tiles),
              ),
              (ground arith, even),
            )
      ]

-- All of the data goes to the nodes.
rest_size-all : (total n : ℕ) → 0 < n → rest_size (total / n) (total % n) 0 n ≡ total
unfolding rest_size
rest_size-all total n h = ground (arith, div-add-mod' total n, mod-lt total h)

module _ {T : Type 0} where
  -- When there are trainers and the assignment succeeds, it tiles the data of the round: the
  -- intervals follow one another from the first data index on, without gap or overlap, over as
  -- many indices as the batch size says, and the length of each is the quotient of the batch size
  -- by the trainers, or one more.
  pub assign_to-Tiles :
      (total_size data_index : ℕ) (nodes : List T) (out : List (BatchId × T))
      → nodes ≢ []
      → assign_to total_size data_index nodes ≡ some out
      → Tiles data_index (keys out) (data_index + total_size)
        × Even (total_size / length nodes) (keys out)
  unfolding assign_to
  assign_to-Tiles total_size data_index [] out h e = absurd (h refl)
  assign_to-Tiles total_size data_index (x ∷ nodes) out h e =
      let n = length (x ∷ nodes) in
      let (tiles, even) =
        assign_from-Tiles (total_size / n) (total_size % n) 0 data_index (x ∷ nodes) out e in
      (
        subst (λ k. Tiles data_index (keys out) (data_index + k))
            (rest_size-all total_size n (omega arith)) tiles,
        even,
      )

  assign_from-nothing :
      (base remainder i current : ℕ) (nodes : List T)
      → rest_size base remainder i (length nodes) ≡ 0
      → assign_from base remainder i current nodes ≡ some []
  unfolding assign_from
  assign_from-nothing base remainder i current [] h = refl
  assign_from-nothing base remainder i current (x ∷ nodes) h =
      let total = rest_size-suc base remainder i (length nodes) in
      let later : assign_from base remainder (i + 1) current nodes ≡ some [] =
        assign_from-nothing base remainder (i + 1) current nodes (omega (arith, total, h)) in
      let empty : node_batch_size base remainder i ≡ 0 = omega (arith, total, h) in
      ground (arith, later, empty)

  -- Both loops make the same intervals.
  same_intervals :
      (base remainder end i current : ℕ) (nodes : List T)
      → end ≡ current + rest_size base remainder i (length nodes)
      → end < u64_mod
      → (out : List (BatchId × T)) × (assign_from base remainder i current nodes ≡ some out)
        × (batch_ids_from base remainder end i current (length nodes) ≡ some (keys out))
  unfolding assign_from batch_ids_from
  same_intervals base remainder end i current [] e fits = ([], refl, refl)
  same_intervals base remainder end i current (x ∷ nodes) e fits =
      let size = node_batch_size base remainder i in
      let total = rest_size-suc base remainder i (length nodes) in
      elim (Bool-cases (ltb 0 size)) [
        | inr no_data ↦
            let (out, a, b) =
              same_intervals base remainder end (i + 1) current nodes (ground (arith, total))
                fits in
            (out, ground (arith, a), ground (arith, b))
        | inl some_data ↦
            let room : ltb (current + size) u64_mod ≡ true = ground (arith, total) in
            elim (Bool-cases (leb end (current + size))) [
              | inl over ↦
                  let nothing =
                    assign_from-nothing base remainder (i + 1) (current + size) nodes
                      (ground (arith, total)) in
                  (
                    (record { start = current; end = current + size - 1 }, x) ∷ [],
                    ground arith,
                    ground arith,
                  )
              | inr more ↦
                  let (out, a, b) =
                    same_intervals base remainder end (i + 1) (current + size) nodes
                      (omega (arith, total, e)) fits in
                  (
                    (record { start = current; end = current + size - 1 }, x) ∷ out,
                    ground arith,
                    ground arith,
                  )
            ]
      ]

  -- When the data of a round has indices below 2^64 and there are trainers, they are assigned
  -- batches, and the batches that `get_batch_ids_for_round` lists for as many nodes are the same.
  pub batch_ids-assign_to :
      (total_size data_index : ℕ) (nodes : List T)
      → data_index + total_size < u64_mod
      → nodes ≢ []
      → (out : List (BatchId × T)) × (assign_to total_size data_index nodes ≡ some out)
        × (batch_ids total_size data_index (length nodes) ≡ some (keys out))
  unfolding assign_to batch_ids
  batch_ids-assign_to total_size data_index [] fits h = absurd (h refl)
  batch_ids-assign_to total_size data_index (x ∷ nodes) fits h =
      let n = length (x ∷ nodes) in
      let (out, a, b) =
        same_intervals (total_size / n) (total_size % n) (data_index + total_size) 0 data_index
          (x ∷ nodes) (ap (λ k. data_index + k) (sym (rest_size-all total_size n (omega arith))))
          fits in
      (out, a, ground (arith, b))
