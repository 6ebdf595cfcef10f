-- ===== src/Coordinator/Committees.antt =====
-- shared/coordinator/src/committee_selection.rs: who breaks ties, verifies, trains and witnesses.
-- `none` is the panic of the shuffle at an index that is out of range.
pub mod Laws
use psyche.Base.{
  ℕ, zero, suc, ◌+◌, ◌-◌, ◌*◌, ◌/◌, Bool, true, false, Option, none, some, List, [], ◌∷◌, ◌&&◌,
  ◌||◌, not, ◌==◌, ltb, leb, if◌then◌else◌, get_elem?, Outcome, ok, pure, checked, checked_sub,
  fail_if, gets, ok_or, Method, u64_mod, ◌>>=◌, ◌>>◌,
}
use psyche.Core.Hashing.{Hashing, sha256v}
use psyche.Core.SwapOrNot.{to_le_bytes, compute_shuffled_index}
use psyche.Coordinator.Types.{
  NodeIdentity, Committee, tie_breaker, verifier, trainer, CommitteeProof, WitnessProof, Client,
  Round, Coordinator, Coord, CoordinatorError, no_active_round, invalid_committee_selection,
  solana_max_num_witnesses,
}
use psyche.Coordinator.Rounds.{current_round, previous_round, previous_previous_round}

-- The bytes of "committee" and "witness".
abbrev pub committee_salt : List ℕ
committee_salt = b'c' ∷ b'o' ∷ b'm' ∷ b'm' ∷ b'i' ∷ b't' ∷ b't' ∷ b'e' ∷ b'e' ∷ []

abbrev pub witness_salt : List ℕ
witness_salt = b'w' ∷ b'i' ∷ b't' ∷ b'n' ∷ b'e' ∷ b's' ∷ b's' ∷ []

pub record CommitteeSelection : Type 0 where
  pub tie_breaker_nodes : ℕ
  pub verifier_nodes : ℕ
  pub total_nodes : ℕ
  pub witness_nodes : ℕ
  pub seed : List ℕ

-- The rounds that `from_coordinator` takes: the offsets 0, -1, -2, and any other.
pub data Offset : Type 0 where
  current previous previous_previous other : Offset

-- The order of the roles, by which derived equality compares.
abbrev role : Committee → ℕ
role tie_breaker = 0
role verifier = 1
role trainer = 2

abbrev pub same_bool : Bool → Bool → Bool
same_bool true b = b
same_bool false b = not b

-- `CommitteeSelection::new`
unfoldable pub new :
    {S : Type 0} ⦃hashing : Hashing⦄
    → ℕ
    → ℕ
    → ℕ
    → ℕ
    → ℕ
    → Method CoordinatorError S CommitteeSelection
new ⦃hashing⦄ tie_breaker_nodes witness_nodes verification_percent total_nodes seed = do
  fail_if (leb (u64_mod - 1) total_nodes) invalid_committee_selection
  fail_if (ltb total_nodes tie_breaker_nodes) invalid_committee_selection
  fail_if (not (witness_nodes == 0) && ltb total_nodes witness_nodes) invalid_committee_selection
  fail_if (ltb 100 verification_percent) invalid_committee_selection
  free_nodes ← checked_sub total_nodes tie_breaker_nodes
  product ← checked u64_mod (free_nodes * verification_percent)
  pure (record {
    tie_breaker_nodes = tie_breaker_nodes;
    verifier_nodes = product / 100;
    total_nodes = total_nodes;
    witness_nodes = witness_nodes;
    seed = sha256v (to_le_bytes 8 seed ∷ []);
  })

unfoldable pub get_committee_from_position : CommitteeSelection → ℕ → Committee
get_committee_from_position s committee_position =
    if ltb committee_position s.tie_breaker_nodes
    then tie_breaker
    else if ltb committee_position (s.tie_breaker_nodes + s.verifier_nodes)
    then verifier
    else trainer

unfoldable pub get_witness_from_position : CommitteeSelection → ℕ → Bool
get_witness_from_position s witness_position =
    if s.witness_nodes == 0
    then ltb witness_position solana_max_num_witnesses
    else ltb witness_position s.witness_nodes

-- `get_num_trainer_nodes`; `none` is an underflow.
unfoldable pub get_num_trainer_nodes : CommitteeSelection → Option ℕ
get_num_trainer_nodes s =
    if leb (s.tie_breaker_nodes + s.verifier_nodes) s.total_nodes
    then some (s.total_nodes - s.tie_breaker_nodes - s.verifier_nodes)
    else none

module _ ⦃hashing : Hashing⦄ where
  -- `CommitteeSelection::compute_shuffled_index`
  unfoldable pub position_of : CommitteeSelection → ℕ → List ℕ → Option ℕ
  position_of s index salt =
      compute_shuffled_index index s.total_nodes (sha256v (s.seed ∷ salt ∷ []))

  unfoldable pub get_witness : CommitteeSelection → ℕ → Option WitnessProof
  get_witness s index = elim (position_of s index witness_salt) [
    | none ↦ none
    | some position ↦ some (record {
      position = position;
      index = index;
      witness = get_witness_from_position s position;
    })
  ]

  unfoldable pub get_committee : CommitteeSelection → ℕ → Option CommitteeProof
  get_committee s index = elim (position_of s index committee_salt) [
    | none ↦ none
    | some position ↦ some (record {
      committee = get_committee_from_position s position;
      position = position;
      index = index;
    })
  ]

  unfoldable pub verify_committee : CommitteeSelection → CommitteeProof → Option Bool
  verify_committee s proof = elim (position_of s proof.index committee_salt) [
    | none ↦ none
    | some position ↦ some (
        proof.position == position
        && role proof.committee == role (get_committee_from_position s position))
  ]

  unfoldable pub verify_witness : CommitteeSelection → WitnessProof → Option Bool
  verify_witness s proof = elim (position_of s proof.index witness_salt) [
    | none ↦ none
    | some position ↦ some (
        proof.position == position
        && same_bool proof.witness (get_witness_from_position s position))
  ]

module _ {T : Type 0} where
  -- `clients.get(index).map(|c| &c.id) == Some(client_id)`
  unfoldable pub verify_client : ⦃node : NodeIdentity T⦄ → T → ℕ → List (Client T) → Bool
  verify_client ⦃node⦄ client_id index clients = elim (get_elem? clients index) [
    | none ↦ false
    | some c ↦ node.same c.id client_id
  ]

  -- `verify_client(..) && verify_committee(..)`
  unfoldable pub verify_committee_for_client :
      ⦃node : NodeIdentity T⦄ ⦃hashing : Hashing⦄
      → CommitteeSelection
      → T
      → CommitteeProof
      → List (Client T)
      → Option Bool
  verify_committee_for_client s client_id proof clients =
      if verify_client client_id proof.index clients then verify_committee s proof else some false

  unfoldable pub verify_witness_for_client :
      ⦃node : NodeIdentity T⦄ ⦃hashing : Hashing⦄
      → CommitteeSelection
      → T
      → WitnessProof
      → List (Client T)
      → Option Bool
  verify_witness_for_client s client_id proof clients =
      if verify_client client_id proof.index clients then verify_witness s proof else some false

  -- The round at an offset.
  abbrev pub round_at : Offset → Coordinator T → Option Round
  round_at current c = current_round c
  round_at previous c = previous_round c
  round_at previous_previous c = previous_previous_round c
  round_at other c = none

  unfoldable pub from_coordinator : ⦃hashing : Hashing⦄ → Offset → Coord T CommitteeSelection
  from_coordinator offset c =
      (do
        round ← ok_or (round_at offset c) no_active_round
        new round.tie_breaker_tasks c.config.witness_nodes c.config.verification_percent
            round.clients_len round.random_seed)
        c
