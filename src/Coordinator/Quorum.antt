-- ===== src/Coordinator/Quorum.antt =====
-- `witness_quorum`, the health score and the choice of a commitment, of
-- shared/coordinator/src/coordinator.rs.
-- `(n as f64 * (2.0 / 3.0)) as u16` is the floor of 2n/3 at every `u16`: the product of the rounded
-- quotient with a multiple of 3 rounds to the exact even number, and elsewhere the error is far
-- below the distance to the next integer.
pub mod Laws
use psyche.Base.{
  ℕ, ◌*◌, ◌/◌, ◌==◌, if◌then◌else◌, max, Outcome, ok, Option, List, leb, ◌∷◌, some, ◌&&◌, none, ◌+◌,
  [], replicate, length, ◌%◌, u16_mod,
}
use psyche.Coordinator.Types.{Coord, NodeIdentity, Witness}
use psyche.Core.Hashing.{Hashing, sha256v}
use psyche.Core.Bloom.{Bloom, contains}

-- The `match` on the number of witness nodes; its last case is the product with 2/3.
unfoldable pub quorum_of : ℕ → ℕ
quorum_of n = if n == 1 then 1 else if n == 2 then 2 else if n == 3 then 2 else max (2 * n / 3) 1

-- One turn of the loop of `trainer_healthy_score_by_witnesses` adds one to a `u16`.
unfoldable pub health_score : ⦃hashing : Hashing⦄ → List ℕ → List Witness → ℕ → ℕ
health_score hash [] score = score
health_score hash (w ∷ ws) score =
    health_score hash ws
      (if contains w.participant_bloom hash then (score + 1) % u16_mod else score)

module _ {T : Type 0} where
  unfoldable pub witness_quorum : ℕ → Coord T ℕ
  witness_quorum num_witnesses c =
      let witness_nodes =
        if c.config.witness_nodes == 0 then num_witnesses else c.config.witness_nodes in
      if witness_nodes == 0 then Outcome.panic else ok (quorum_of witness_nodes) c

  unfoldable pub trainer_healthy_score_by_witnesses :
      ⦃node : NodeIdentity T⦄ ⦃hashing : Hashing⦄ → T → List Witness → ℕ
  trainer_healthy_score_by_witnesses ⦃node⦄ ⦃hashing⦄ id witnesses =
      health_score (sha256v (node.as_ref id ∷ [])) witnesses 0

-- shared/coordinator/src/commitment.rs
pub record Commitment : Type 0 where
  pub data_hash : List ℕ
  pub signature : List ℕ

module _ ⦃hashing : Hashing⦄ where
  -- The inner loop: the first commitment that the witness saw scores, and the loop breaks.
  unfoldable pub credit : Bloom → List Commitment → List ℕ → List ℕ
  credit bloom [] scores = scores
  credit bloom (c ∷ cs) [] = []
  credit bloom (c ∷ cs) (s ∷ ss) =
      if contains bloom c.data_hash then ((s + 1) % u16_mod) ∷ ss else s ∷ credit bloom cs ss

  unfoldable pub credit_all : List Witness → List Commitment → List ℕ → List ℕ
  credit_all [] commitments scores = scores
  credit_all (w ∷ ws) commitments scores =
      credit_all ws commitments (credit w.broadcast_bloom commitments scores)

-- One turn of `filter(score >= quorum).max_by_key(score)`, which keeps the last of equal maxima.
abbrev better : ℕ → ℕ → ℕ → Option (ℕ × ℕ) → Option (ℕ × ℕ)
better quorum index score none = if leb quorum score then some (index, score) else none
better quorum index score (some (i, s)) =
    if leb quorum score && leb s score then some (index, score) else some (i, s)

unfoldable pub best : ℕ → ℕ → List ℕ → Option (ℕ × ℕ) → Option (ℕ × ℕ)
best quorum index [] found = found
best quorum index (s ∷ ss) found = best quorum (index + 1) ss (better quorum index s found)

abbrev index_of : Option (ℕ × ℕ) → Option ℕ
index_of none = none
index_of (some (i, s)) = some i

unfoldable pub select_consensus_commitment_by_witnesses :
    ⦃hashing : Hashing⦄ → List Commitment → List Witness → ℕ → Option ℕ
select_consensus_commitment_by_witnesses commitments witnesses witness_quorum = index_of (
    best witness_quorum 0 (credit_all witnesses commitments (replicate (length commitments) 0))
      none)
