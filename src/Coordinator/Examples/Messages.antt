-- ===== src/Coordinator/Examples/Messages.antt =====
-- Examples for the quorum, the committees and what clients send.
use psyche.Base.{
  ℕ, ◌≡◌, ◌↔◌, ◌≢◌, refl, true, false, some, none, List, [], ◌∷◌, get_elem?, ◌<◌, ◌≤◌, ◌*◌, ◌+◌, ok,
  err, panic, arith, Returns, ◌⊎◌,
}
use psyche.Coordinator.Types.{
  round_train, round_witness, warmup, Round, Coordinator, zero_round, CommitteeProof, trainer,
  WitnessProof, Witness, invalid_committee_selection,
}
use psyche.Coordinator.Rounds.{
  current_round_unchecked, update_current_round, current_round, halted, previous_round,
  get_client_at_historical_index,
}
use psyche.Coordinator.Quorum.{
  witness_quorum, trainer_healthy_score_by_witnesses, health_score, quorum_of, Commitment,
  select_consensus_commitment_by_witnesses, credit_all, credit,
}
use psyche.Coordinator.Quorum.Laws.{
  quorum_bounds, scores_of, consensus_unique, select_consensus_max,
}
use psyche.Coordinator.Committees.{
  get_witness_from_position, get_committee_from_position, CommitteeSelection, new, verify_committee,
  verify_witness, get_committee, get_witness, from_coordinator, verify_witness_for_client,
  verify_client, position_of, verify_committee_for_client,
}
use psyche.Coordinator.Committees.Laws.{
  verify_iff, witnesses_exact, new_accepts_iff, witness_limit, Partition,
}
use psyche.Coordinator.Messages
use psyche.Coordinator.Messages.{
  witness, warmup_witness, health_check, accept_witness, check_all, healthy_client,
}
use psyche.Coordinator.Messages.Witnesses.{Accepted, witnessed, witness-Accepted}
use psyche.Coordinator.Messages.Warmups.{warmup_witness_poisons}
use psyche.Coordinator.Messages.Drops.{ids, marked}
use psyche.Coordinator.Messages.Health.{health_check_drops, AllUnhealthy}
use psyche.Core.SwapOrNot.{
  compute_shuffled_index, shuffle_rounds, shuffle_round, pivot_of, bit_of, from_le_bytes,
  to_le_bytes,
}
use psyche.Core.Bloom.{contains, contains_keys, bit_at, pos}
use psyche.Coordinator.Examples.{
  toy_floats, toy_identity, toy_hashing, training, running, first_rounds, first_round, member, lost,
  witness_at, Witness,
}
use psyche.Coordinator.Lifecycle.Leaving.{with_clients}

quorum_bounds_example :
    (0 < quorum_of 7)
    × (quorum_of 7 ≤ 7)
    × (3 ≤ 7 → (3 * quorum_of 7 ≤ 2 * 7) × (2 * 7 < 3 * quorum_of 7 + 3))
    × (◌≢◌ {A = ℕ} 7 4 → 7 < 2 * quorum_of 7)
quorum_bounds_example = quorum_bounds 7 (omega arith)

abbrev selection : CommitteeSelection
selection = record {
  tie_breaker_nodes = 1;
  verifier_nodes = 1;
  total_nodes = 5;
  witness_nodes = 2;
  seed = 3 ∷ [];
}

abbrev some_committee : CommitteeProof
some_committee = record { committee = trainer; position = 3; index = 1 }

abbrev some_witness : WitnessProof
some_witness = record { position = 1; index = 4; witness = true }

verify_iff_example :
    ((verify_committee selection some_committee ≡ some true)
      ↔ (get_committee selection 1 ≡ some some_committee))
    × ((verify_witness selection some_witness ≡ some true)
        ↔ (get_witness selection 4 ≡ some some_witness))
verify_iff_example = verify_iff selection some_committee some_witness

witnesses_exact_example :
    ((i : ℕ)
      → i < 5
      → (p : WitnessProof) × (get_witness selection i ≡ some p)
        × (p.position < 5)
        × ((p.witness ≡ true) ↔ (p.position < witness_limit selection)))
    × ((i j : ℕ) (p q : WitnessProof)
        → get_witness selection i ≡ some p
        → get_witness selection j ≡ some q
        → p.position ≡ q.position
        → i ≡ j)
    × ((k : ℕ)
        → k < 5
        → (i : ℕ) × (p : WitnessProof) × (get_witness selection i ≡ some p) × (p.position ≡ k))
witnesses_exact_example = witnesses_exact selection

new_accepts_iff_example :
    (1 ≤ 5
      → (◌≡◌ {A = ℕ} 2 0) ⊎ (2 ≤ 5)
      → 25 ≤ 100
      → Returns (new 1 2 25 5 9 training) (λ s _. Partition 1 5 s))
    × ((5 < 1) ⊎ ((◌≢◌ {A = ℕ} 2 0) × (5 < 2)) ⊎ (100 < 25)
        → new 1 2 25 5 9 training ≡ err invalid_committee_selection training)
new_accepts_iff_example = new_accepts_iff 1 2 25 5 9 training (omega arith)

accepted-witness :
    witness 10 (witness_at 0 0) 104 training
    ≡ ok tt (witnessed first_round (witness_at 0 0) training)
unfolding witness halted accept_witness from_coordinator current_round new verify_witness_for_client
    verify_client toy_identity verify_witness position_of compute_shuffled_index shuffle_rounds
    shuffle_round pivot_of bit_of toy_hashing from_le_bytes to_le_bytes get_witness_from_position
    Messages.store_witness Messages.record_witness Messages.check_duplicates Messages.push_witness
    current_round_unchecked update_current_round
accepted-witness = refl

witness-Accepted_example :
    ((round_train ≡ round_train) ⊎ (round_train ≡ round_witness))
    × ((r : Round) × (s : CommitteeSelection) × Accepted 10
          (witness_at 0 0)
          r
          s
          training
          (witnessed first_round (witness_at 0 0) training))
witness-Accepted_example =
    witness-Accepted 10 (witness_at 0 0) 104 training
      (witnessed first_round (witness_at 0 0) training) accepted-witness

abbrev warming : Coordinator ℕ
warming = running warmup first_rounds 0

warming-current : current_round warming ≡ some first_round
unfolding current_round
warming-current = refl

warmup_witness_poisons_example :
    (warmup_witness 10 (witness_at 0 9) 104 0 warming
      ≡ ok tt (witnessed first_round (witness_at 0 9) warming))
    × ((from' : ℕ) (w' : Witness) (now' seed' : ℕ)
        → warmup_witness from' w' now' seed' (witnessed first_round (witness_at 0 9) warming)
          ≡ panic)
warmup_witness_poisons_example =
    warmup_witness_poisons 10 (witness_at 0 9) 104 0 warming first_round refl warming-current refl
      (ground arith) (omega arith)

-- The round before was witnessed twice, and neither witness saw anyone take part.
abbrev seen_round : Round
seen_round = record zero_round {
  height = 1;
  clients_len = 3;
  random_seed = 5;
  witnesses = witness_at 0 0 ∷ witness_at 1 2 ∷ [];
}

abbrev third_round : Round
third_round = record zero_round { height = 2; clients_len = 3; random_seed = 6 }

abbrev reporting : Coordinator ℕ
reporting = running round_train (first_round ∷ seen_round ∷ third_round ∷ zero_round ∷ []) 2

abbrev report : List (ℕ × CommitteeProof)
report = (11, record { committee = trainer; position = 1; index = 1 }) ∷ []

reporting-health_check :
    health_check report reporting
    ≡ ok 1 (with_clients (member 10 ∷ lost 11 ∷ member 12 ∷ []) reporting)
unfolding health_check halted current_round check_all Messages.healthy previous_round
    get_client_at_historical_index healthy_client from_coordinator new toy_identity
    verify_committee_for_client verify_client verify_committee position_of compute_shuffled_index
    shuffle_rounds shuffle_round pivot_of bit_of toy_hashing from_le_bytes to_le_bytes
    get_committee_from_position Messages.trainer_healthy witness_quorum quorum_of
    trainer_healthy_score_by_witnesses health_score contains bit_at pos Messages.drop_all
reporting-health_check = refl

health_check_drops_example :
    (halted reporting ≡ false)
    × ((r : Round) × (current_round reporting ≡ some r) × (2 ≤ r.height))
    × AllUnhealthy report reporting
    × (with_clients (member 10 ∷ lost 11 ∷ member 12 ∷ []) reporting
        ≡ with_clients (marked report 0 reporting.epoch_state.clients) reporting)
    × (◌≡◌ {A = ℕ} (2 + 1) 3)
    × (ids reporting.epoch_state.clients ≡ 10 ∷ 11 ∷ 12 ∷ [])
    × (round_train ≡ round_train)
health_check_drops_example =
    health_check_drops report 1 reporting
      (with_clients (member 10 ∷ lost 11 ∷ member 12 ∷ []) reporting) reporting-health_check

-- Both witnesses saw the first commitment.
abbrev two_hashes : List Commitment
two_hashes =
    record { data_hash = 1 ∷ []; signature = [] }
    ∷ record { data_hash = 2 ∷ []; signature = [] }
    ∷ []

abbrev two_witnesses : List Witness
two_witnesses = witness_at 0 0 ∷ witness_at 1 2 ∷ []

first-score : get_elem? (scores_of two_hashes two_witnesses) 0 ≡ some 2
unfolding credit_all credit contains contains_keys bit_at pos toy_hashing
first-score = refl

select_consensus_max_example :
    ((i : ℕ)
      → select_consensus_commitment_by_witnesses two_hashes two_witnesses 2 ≡ some i
      → (s : ℕ) × (get_elem? (scores_of two_hashes two_witnesses) i ≡ some s)
        × (2 ≤ s)
        × ((j t : ℕ) → get_elem? (scores_of two_hashes two_witnesses) j ≡ some t → t ≤ s))
    × (select_consensus_commitment_by_witnesses two_hashes two_witnesses 2 ≡ none
        → (j t : ℕ) → get_elem? (scores_of two_hashes two_witnesses) j ≡ some t
        → t < 2)
select_consensus_max_example = select_consensus_max two_hashes two_witnesses 2

consensus_unique_example : ◌≡◌ {A = ℕ} 0 0
consensus_unique_example =
    consensus_unique two_hashes two_witnesses 2 0 0 2 2 (omega arith) first-score first-score
      (omega arith) (omega arith)
