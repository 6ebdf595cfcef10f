-- ===== src/Coordinator/Committees/Laws.antt =====
-- shared/coordinator/src/committee_selection.rs: the roles partition the nodes, and a proof is
-- accepted exactly if it is the one that the selection gives.
use psyche.Base.{
  ℕ, ◌+◌, ◌-◌, ◌*◌, ◌/◌, ◌≤◌, ◌<◌, ◌≡◌, ◌≢◌, ◌↔◌, refl, true, some, List, [], ◌∷◌, ◌==◌,
  if◌then◌else◌, arith, inl, inr, Option-cases, ok, err, ◌⊎◌, u16_mod, Returns,
}
use psyche.Core.Hashing.{Hashing, sha256v}
use psyche.Core.SwapOrNot.{compute_shuffled_index, to_le_bytes}
use psyche.Core.SwapOrNot.Laws.{compute_shuffled_index_permutes}
use psyche.Coordinator.Types.{
  CommitteeProof, WitnessProof, invalid_committee_selection, solana_max_num_witnesses,
}
use psyche.Coordinator.Committees.{
  CommitteeSelection, new, get_witness_from_position, get_num_trainer_nodes, position_of,
  get_witness, get_committee, verify_committee, verify_witness, committee_salt, witness_salt,
  to_le_bytes,
}

module _ ⦃hashing : Hashing⦄ where
  verify_committee_iff :
      (s : CommitteeSelection) (p : CommitteeProof)
      → (verify_committee s p ≡ some true) ↔ (get_committee s p.index ≡ some p)
  unfolding verify_committee get_committee
  verify_committee_iff s p = elim (Option-cases (position_of s p.index committee_salt)) [
    | inl none_there ↦ (λ h. ground arith, λ h. ground arith)
    | inr (q, e) ↦ (λ h. ground arith, λ h. ground arith)
  ]

  pub verify_witness_iff :
      (s : CommitteeSelection) (p : WitnessProof)
      → (verify_witness s p ≡ some true) ↔ (get_witness s p.index ≡ some p)
  unfolding verify_witness get_witness
  verify_witness_iff s p = elim (Option-cases (position_of s p.index witness_salt)) [
    | inl none_there ↦ (λ h. ground arith, λ h. ground arith)
    | inr (q, e) ↦ (λ h. ground arith, λ h. ground arith)
  ]

  -- A committee proof is accepted exactly if it is the one that `get_committee` gives for its index,
  -- and a witness proof exactly if it is the one that `get_witness` gives for its index.
  pub verify_iff :
      (s : CommitteeSelection) (c : CommitteeProof) (w : WitnessProof)
      → ((verify_committee s c ≡ some true) ↔ (get_committee s c.index ≡ some c))
        × ((verify_witness s w ≡ some true) ↔ (get_witness s w.index ≡ some w))
  verify_iff s c w = (verify_committee_iff s c, verify_witness_iff s w)

  -- How many nodes may witness.
  abbrev pub witness_limit : CommitteeSelection → ℕ
  witness_limit s = if s.witness_nodes == 0 then solana_max_num_witnesses else s.witness_nodes

  -- The witnesses are the nodes at the first positions of a permutation, as many as the limit: each
  -- node below the count has a position below the count and is a witness exactly if that is below
  -- the limit; two nodes never share a position; and every position belongs to a node.
  pub witnesses_exact :
      (s : CommitteeSelection)
      → ((i : ℕ)
          → i < s.total_nodes
          → (p : WitnessProof) × (get_witness s i ≡ some p)
            × (p.position < s.total_nodes)
            × ((p.witness ≡ true) ↔ (p.position < witness_limit s)))
        × ((i j : ℕ) (p q : WitnessProof)
            → get_witness s i ≡ some p
            → get_witness s j ≡ some q
            → p.position ≡ q.position
            → i ≡ j)
        × ((k : ℕ)
            → k < s.total_nodes
            → (i : ℕ) × (p : WitnessProof) × (get_witness s i ≡ some p) × (p.position ≡ k))
  unfolding get_witness get_witness_from_position position_of
  witnesses_exact s = (placed, apart, filled)
    where
      seed : List ℕ
      seed = sha256v (s.seed ∷ witness_salt ∷ [])

      proof_at : ℕ → ℕ → WitnessProof
      proof_at i k = record { position = k; index = i; witness = get_witness_from_position s k }

      placed :
          (i : ℕ)
          → i < s.total_nodes
          → (p : WitnessProof) × (get_witness s i ≡ some p)
            × (p.position < s.total_nodes)
            × ((p.witness ≡ true) ↔ (p.position < witness_limit s))
      placed i h =
          let (k, e, lt) = (compute_shuffled_index_permutes s.total_nodes seed).0 i h in
          (proof_at i k, rw (e, get_witness), lt, (λ w. ground arith, λ w. ground arith))

      apart :
          (i j : ℕ) (p q : WitnessProof)
          → get_witness s i ≡ some p
          → get_witness s j ≡ some q
          → p.position ≡ q.position
          → i ≡ j
      apart i j p q e f same = elim (Option-cases (compute_shuffled_index i s.total_nodes seed)) [
        | inl no_i ↦ ground arith
        | inr (k, at_i) ↦
            (compute_shuffled_index_permutes s.total_nodes seed).1 i j k at_i (ground arith)
      ]

      filled :
          (k : ℕ)
          → k < s.total_nodes
          → (i : ℕ) × (p : WitnessProof) × (get_witness s i ≡ some p) × (p.position ≡ k)
      filled k h =
          let (i, lt, e) = (compute_shuffled_index_permutes s.total_nodes seed).2 k h in
          (i, proof_at i k, rw (e, get_witness), refl)

-- What a selection that was accepted satisfies: the three roles add up to the nodes.
abbrev pub Partition : ℕ → ℕ → CommitteeSelection → Type 0
Partition tie_breakers total s =
    (s.tie_breaker_nodes ≡ tie_breakers)
    × (s.total_nodes ≡ total)
    × ((t : ℕ) × (get_num_trainer_nodes s ≡ some t)
        × (s.tie_breaker_nodes + s.verifier_nodes + t ≡ total))

percent_le : (n m p : ℕ) → n ≤ m → p ≤ 100 → n * p ≤ m * 100
percent_le n m p g h = grind arith

module _ {S : Type 0} ⦃hashing : Hashing⦄ where
  -- For a 16-bit number of nodes, `new` accepts exactly what is within bounds: at most as many tie
  -- breakers as nodes, at most as many witnesses as nodes unless it is 0, and at most 100 percent.
  -- The tie breakers, verifiers and trainers of what it accepts then add up to the nodes; all else
  -- it rejects with an error, and it never panics.
  pub new_accepts_iff :
      (tie_breakers witnesses percent total seed : ℕ) (state : S)
      → total < u16_mod
      → (tie_breakers ≤ total
          → (witnesses ≡ 0) ⊎ (witnesses ≤ total)
          → percent ≤ 100
          → Returns
              (new tie_breakers witnesses percent total seed state)
              (λ s _. Partition tie_breakers total s))
        × ((total < tie_breakers) ⊎ ((witnesses ≢ 0) × (total < witnesses)) ⊎ (100 < percent)
            → new tie_breakers witnesses percent total seed state
              ≡ err invalid_committee_selection state)
  unfolding new get_num_trainer_nodes
  new_accepts_iff tie_breakers witnesses percent total seed state small =
      (λ h k m. accepts h k m, λ h. ground arith)
    where
      free : ℕ
      free = total - tie_breakers

      chosen : CommitteeSelection
      chosen = record {
        tie_breaker_nodes = tie_breakers;
        verifier_nodes = free * percent / 100;
        total_nodes = total;
        witness_nodes = witnesses;
        seed = sha256v (to_le_bytes 8 seed ∷ []);
      }

      accepts :
          tie_breakers ≤ total
          → (witnesses ≡ 0) ⊎ (witnesses ≤ total)
          → percent ≤ 100
          → Returns
              (new tie_breakers witnesses percent total seed state)
              (λ s _. Partition tie_breakers total s)
      accepts h k m =
          let product_le = percent_le free total percent (omega arith) m in
          let share_le = percent_le free free percent (omega arith) m in
          let share : free * percent / 100 ≤ free = omega (arith, share_le) in
          let e : new tie_breakers witnesses percent total seed state ≡ ok chosen state =
            ground (arith, product_le) in
          rw e
            (refl, refl, (free - free * percent / 100, ground (arith, share), omega (arith, share)))
