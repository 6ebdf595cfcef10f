-- ===== src/Coordinator/Quorum/Laws.antt =====
-- The witness quorum and the consensus commitment of shared/coordinator/src/coordinator.rs.
use psyche.Base.{
  ℕ, zero, suc, ◌+◌, ◌*◌, ◌≤◌, ◌<◌, ◌≡◌, ◌≢◌, refl, Option, none, some, List, [], ◌∷◌, leb, ◌&&◌,
  length, get_elem?, replicate, arith, ◌⊎◌, inl, inr, Bool-cases, Option-cases, ap,
}
use native.Mathlib.Decide.{ℕ_discrete}
use psyche.Core.Bloom.{Bloom}
use psyche.Core.Hashing.{Hashing}
use psyche.Coordinator.Types.{Witness}
use psyche.Coordinator.Quorum.{
  quorum_of, best, better, index_of, Commitment, credit, credit_all,
  select_consensus_commitment_by_witnesses,
}

-- From one witness node on, a quorum has at least one member and at most all; from three on it is
-- two thirds of them, rounded down; and it is more than half of them unless there are exactly
-- four.
pub quorum_bounds :
    (n : ℕ)
    → 0 < n
    → (0 < quorum_of n)
      × (quorum_of n ≤ n)
      × (3 ≤ n → (3 * quorum_of n ≤ 2 * n) × (2 * n < 3 * quorum_of n + 3))
      × (n ≢ 4 → n < 2 * quorum_of n)
unfolding quorum_of
quorum_bounds n h = ground arith

-- What was found before is not beaten by a smaller score.
best_keeps :
    (quorum index : ℕ) (ss : List ℕ) (a b i s : ℕ)
    → best quorum index ss (some (a, b)) ≡ some (i, s)
    → b ≤ s
unfolding best
best_keeps quorum index [] a b i s h = ground arith
best_keeps quorum index (x ∷ ss) a b i s h =
    ground (
      arith,
      best_keeps quorum (index + 1) ss index x i s,
      best_keeps quorum (index + 1) ss a b i s,
    )

-- No later score that reaches the quorum exceeds the one found.
best_max :
    (quorum index : ℕ) (ss : List ℕ) (found : Option (ℕ × ℕ)) (i s j t : ℕ)
    → best quorum index ss found ≡ some (i, s)
    → get_elem? ss j ≡ some t
    → quorum ≤ t
    → t ≤ s
unfolding best
best_max quorum index [] found i s j t h e q = cc
best_max quorum index (x ∷ ss) none i s zero t h e q =
    ground (arith, best_keeps quorum (index + 1) ss index x i s)
best_max quorum index (x ∷ ss) (some (a, b)) i s zero t h e q =
    ground (
      arith,
      best_keeps quorum (index + 1) ss index x i s,
      best_keeps quorum (index + 1) ss a b i s,
    )
best_max quorum index (x ∷ ss) found i s (suc j) t h e q =
    best_max quorum (index + 1) ss (better quorum index x found) i s j t h e q

-- Where what is found comes from: it was there before, or it stands among the scores.
abbrev Source : ℕ → ℕ → List ℕ → Option (ℕ × ℕ) → ℕ → ℕ → Type 0
Source quorum index ss found i s =
    (found ≡ some (i, s)) ⊎ ((j : ℕ) × (get_elem? ss j ≡ some s) × (i ≡ index + j) × (quorum ≤ s))

best-Source :
    (quorum index : ℕ) (ss : List ℕ) (found : Option (ℕ × ℕ)) (i s : ℕ)
    → best quorum index ss found ≡ some (i, s)
    → Source quorum index ss found i s
unfolding best
best-Source quorum index [] found i s h = inl h
best-Source quorum index (x ∷ ss) found i s h =
    elim (best-Source quorum (index + 1) ss (better quorum index x found) i s h) [
      | inr (j, e, at, q) ↦ inr (suc j, e, omega arith, q)
      | inl e ↦ first found e
    ]
  where
    first :
        (found : Option (ℕ × ℕ))
        → better quorum index x found ≡ some (i, s)
        → Source quorum index (x ∷ ss) found i s
    first none e = inr (0, ground arith, ground arith, ground arith)
    first (some (a, b)) e = elim (Bool-cases (leb quorum x && leb b x)) [
      | inl new ↦ inr (0, ground arith, ground arith, ground arith)
      | inr old ↦ inl (ground arith)
    ]

best_found : (quorum index : ℕ) (ss : List ℕ) (p : ℕ × ℕ) → best quorum index ss (some p) ≢ none
unfolding best
best_found quorum index [] p h = cc
best_found quorum index (x ∷ ss) (a, b) h =
    ground
      (arith, best_found quorum (index + 1) ss (index, x), best_found quorum (index + 1) ss (a, b))

best-none :
    (quorum index : ℕ) (ss : List ℕ) (j t : ℕ)
    → best quorum index ss none ≡ none
    → get_elem? ss j ≡ some t
    → t < quorum
unfolding best
best-none quorum index [] j t h e = cc
best-none quorum index (x ∷ ss) zero t h e =
    ground (arith, best_found quorum (index + 1) ss (index, x))
best-none quorum index (x ∷ ss) (suc j) t h e =
    ground (arith, best_found quorum (index + 1) ss (index, x), best-none quorum (index + 1) ss j t)

abbrev sum : List ℕ → ℕ
sum [] = 0
sum (x ∷ xs) = x + sum xs

sum-one : (xs : List ℕ) (i a : ℕ) → get_elem? xs i ≡ some a → a ≤ sum xs
sum-one [] i a e = cc
sum-one (x ∷ xs) zero a e = ground arith
sum-one (x ∷ xs) (suc i) a e = omega (arith, sum-one xs i a e)

sum-two :
    (xs : List ℕ) (i j a b : ℕ)
    → i ≢ j
    → get_elem? xs i ≡ some a
    → get_elem? xs j ≡ some b
    → a + b ≤ sum xs
sum-two [] i j a b ne e f = cc
sum-two (x ∷ xs) zero zero a b ne e f = absurd (ne refl)
sum-two (x ∷ xs) zero (suc j) a b ne e f = ground (arith, sum-one xs j b f)
sum-two (x ∷ xs) (suc i) zero a b ne e f = ground (arith, sum-one xs i a e)
sum-two (x ∷ xs) (suc i) (suc j) a b ne e f =
    omega (arith, sum-two xs i j a b (λ p. ne (ap suc p)) e f)

sum-replicate_zero : (n : ℕ) → sum (replicate n 0) ≡ 0
sum-replicate_zero zero = refl
sum-replicate_zero (suc n) = omega (arith, sum-replicate_zero n)

module _ ⦃hashing : Hashing⦄ where
  -- A witness gives at most one point.
  sum-credit :
      (bloom : Bloom) (cs : List Commitment) (ss : List ℕ) → sum (credit bloom cs ss) ≤ sum ss + 1
  unfolding credit
  sum-credit bloom [] ss = omega arith
  sum-credit bloom (c ∷ cs) [] = omega arith
  sum-credit bloom (c ∷ cs) (s ∷ ss) = ground (arith, sum-credit bloom cs ss)

  sum-credit_all :
      (ws : List Witness) (cs : List Commitment) (ss : List ℕ)
      → sum (credit_all ws cs ss) ≤ sum ss + length ws
  unfolding credit_all
  sum-credit_all [] cs ss = omega arith
  sum-credit_all (w ∷ ws) cs ss = omega (
    arith,
    sum-credit w.broadcast_bloom cs ss,
    sum-credit_all ws cs (credit w.broadcast_bloom cs ss),
  )

  -- The points that the witnesses give to the commitments.
  abbrev pub scores_of : List Commitment → List Witness → List ℕ
  scores_of cs ws = credit_all ws cs (replicate (length cs) 0)

  -- The selected commitment has a score that reaches the quorum and that no other score exceeds;
  -- if nothing is selected, no score reaches the quorum.
  pub select_consensus_max :
      (cs : List Commitment) (ws : List Witness) (quorum : ℕ)
      → ((i : ℕ)
          → select_consensus_commitment_by_witnesses cs ws quorum ≡ some i
          → (s : ℕ) × (get_elem? (scores_of cs ws) i ≡ some s)
            × (quorum ≤ s)
            × ((j t : ℕ) → get_elem? (scores_of cs ws) j ≡ some t → t ≤ s))
        × (select_consensus_commitment_by_witnesses cs ws quorum ≡ none
            → (j t : ℕ) → get_elem? (scores_of cs ws) j ≡ some t
            → t < quorum)
  unfolding select_consensus_commitment_by_witnesses
  select_consensus_max cs ws quorum = (chosen, rejected)
    where
      scores : List ℕ
      scores = scores_of cs ws

      chosen :
          (i : ℕ)
          → index_of (best quorum 0 scores none) ≡ some i
          → (s : ℕ) × (get_elem? scores i ≡ some s)
            × (quorum ≤ s)
            × ((j t : ℕ) → get_elem? scores j ≡ some t → t ≤ s)
      chosen i e = elim (Option-cases (best quorum 0 scores none)) [
        | inl nothing ↦ ground arith
        | inr ((k, s), found) ↦ elim (best-Source quorum 0 scores none k s found) [
          | inl never ↦ cc
          | inr (j, at, index, q) ↦ (
            s,
            ground arith,
            q,
            λ j' t e'. ground (arith, best_max quorum 0 scores none k s j' t found e'),
          )
        ]
      ]

      rejected :
          index_of (best quorum 0 scores none) ≡ none
          → (j t : ℕ) → get_elem? scores j ≡ some t
          → t < quorum
      rejected e j t at = elim (Option-cases (best quorum 0 scores none)) [
        | inl nothing ↦ best-none quorum 0 scores j t nothing at
        | inr (p, found) ↦ ground arith
      ]

  -- When a quorum is more than half of the witnesses, at most one commitment reaches it.
  pub consensus_unique :
      (cs : List Commitment) (ws : List Witness) (quorum i j a b : ℕ)
      → length ws < 2 * quorum
      → get_elem? (scores_of cs ws) i ≡ some a
      → get_elem? (scores_of cs ws) j ≡ some b
      → quorum ≤ a
      → quorum ≤ b
      → i ≡ j
  consensus_unique cs ws quorum i j a b h e f p q = elim (ℕ_discrete i j) [
    | yes same ↦ same
    | no differ ↦ absurd (
        omega (
          arith,
          sum-two (scores_of cs ws) i j a b differ e f,
          sum-credit_all ws cs (replicate (length cs) 0),
          sum-replicate_zero (length cs),
        ))
  ]
