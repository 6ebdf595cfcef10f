-- ===== src/Coordinator/Messages.antt =====
-- What clients send: `warmup_witness`, `witness`, `health_check`, `healthy`, `trainer_healthy` and
-- `checkpoint` of shared/coordinator/src/coordinator.rs.
pub mod Drops
pub mod Health
pub mod Warmups
pub mod Witnesses
use psyche.Base.{
  ℕ, zero, suc, ◌+◌, Bool, true, false, Option, none, some, List, [], ◌∷◌, ◌++◌, ◌&&◌, ◌||◌, not,
  ◌==◌, ltb, leb, if◌then◌else◌, length, get_elem?, min, Outcome, ok, err, pure, fail, panics,
  unwrap, ok_or, gets, modify, fail_if, when, ◌>>=◌, ◌>>◌, u16_mod, ◌%◌,
}
use psyche.Core.Hashing.{Hashing}
use psyche.Coordinator.Model.{Model, llm, HubRepo, Checkpoint, hub, p2p}
use psyche.Coordinator.Types.{
  NodeIdentity, RunState, warmup, round_train, round_witness, dropped, CoordinatorError,
  no_active_round, invalid_witness, invalid_run_state, duplicate_witness, invalid_health_check,
  halted as halted_error, witnesses_full, invalid_committee_proof, Committee, tie_breaker, verifier,
  trainer, CommitteeProof, Witness, Client, Round, Coordinator, Coord, solana_max_num_witnesses,
}
use psyche.Coordinator.Config.{Float64}
use psyche.Coordinator.Rounds.{
  current_round, current_round_unchecked, update_current_round, previous_round, halted,
  get_client_at_historical_index,
}
use psyche.Coordinator.Quorum.{witness_quorum, trainer_healthy_score_by_witnesses}
use psyche.Coordinator.Lifecycle.{
  to_usize, is_healthy, change_state, start_round_train, set_client_state,
}
use psyche.Coordinator.Committees.{
  current, previous, from_coordinator, verify_committee_for_client, verify_witness_for_client,
}

-- How many witnesses complete a round.
abbrev pub expected_witnesses : {T : Type 0} → Coordinator T → ℕ
expected_witnesses c =
    if c.config.witness_nodes == 0
    then min (length c.epoch_state.clients) solana_max_num_witnesses
    else c.config.witness_nodes

abbrev pub add_witness : Witness → Round → Round
add_witness w r = record r { witnesses = r.witnesses ++ w ∷ [] }

abbrev with_checkpoint : HubRepo → Model → Model
with_checkpoint repo (llm m) = elim m.checkpoint [
  | p2p old ↦ llm (record m { checkpoint = p2p repo })
  | hub old ↦ llm (record m { checkpoint = hub repo })
  | _ ↦ llm m
]

module _ {T : Type 0} where
  -- The loop over the witnesses that are there: none may be of the sender.
  unfoldable pub check_duplicates : ⦃node : NodeIdentity T⦄ → T → List Witness → Coord T (Unit {0})
  check_duplicates from [] = pure tt
  check_duplicates ⦃node⦄ from (w ∷ ws) = do
    entry ← gets λ c. get_elem? c.epoch_state.clients w.proof.index
    client ← unwrap entry
    fail_if (node.same client.id from) duplicate_witness
    check_duplicates from ws

  -- The push into the current round's witnesses, and their number after it.
  unfoldable pub push_witness : Witness → Coord T ℕ
  push_witness w = do
    round ← current_round_unchecked
    fail_if (not (ltb (length round.witnesses) solana_max_num_witnesses)) witnesses_full
    update_current_round (add_witness w)
    pure (length round.witnesses + 1)

  -- What both kinds of witness do once they are accepted.
  unfoldable pub record_witness : ⦃node : NodeIdentity T⦄ → T → Witness → Coord T ℕ
  record_witness from w = do
    round? ← gets current_round
    round ← unwrap round?
    check_duplicates from round.witnesses
    push_witness w

  unfoldable pub warmup_witness :
      ⦃node : NodeIdentity T⦄ ⦃f : Float64⦄ → T → Witness → ℕ → ℕ → Coord T (Unit {0})
  warmup_witness from w unix_timestamp random_seed c =
      if halted c
      then err halted_error c
      else if to_usize c.run_state == to_usize round_train
      then ok tt c
      else if not (to_usize c.run_state == to_usize warmup)
      then err invalid_run_state c
      else (do
        witness_nodes ← gets expected_witnesses
        count ← record_witness from w
        when (count == witness_nodes) (start_round_train unix_timestamp random_seed 0))
          c

  -- The end of `witness`: the last witness that is expected ends the training of the round.
  unfoldable pub store_witness : ⦃node : NodeIdentity T⦄ → T → Witness → ℕ → ℕ → Coord T (Unit {0})
  store_witness from w unix_timestamp witness_nodes = do
    count ← record_witness from w
    in_witness ← gets λ c. to_usize c.run_state == to_usize round_witness
    when (count == witness_nodes && not in_witness) (change_state unix_timestamp round_witness)

  -- The part of `witness` that follows its checks of the run state.
  unfoldable pub accept_witness :
      ⦃node : NodeIdentity T⦄ ⦃hashing : Hashing⦄ → T → Witness → ℕ → ℕ → Coord T (Unit {0})
  accept_witness from w unix_timestamp witness_nodes = do
    selection ← from_coordinator current
    clients ← gets λ c. c.epoch_state.clients
    verified ← unwrap (verify_witness_for_client selection from w.proof clients)
    fail_if (not verified || not w.proof.witness) invalid_witness
    store_witness from w unix_timestamp witness_nodes

  unfoldable pub witness :
      ⦃node : NodeIdentity T⦄ ⦃hashing : Hashing⦄ → T → Witness → ℕ → Coord T (Unit {0})
  witness from w unix_timestamp c =
      if halted c
      then err halted_error c
      else if not (
          to_usize c.run_state == to_usize round_witness
          || to_usize c.run_state == to_usize round_train)
      then err invalid_run_state c
      else accept_witness from w unix_timestamp (expected_witnesses c) c

  unfoldable pub trainer_healthy : ⦃node : NodeIdentity T⦄ ⦃hashing : Hashing⦄ → T → Coord T Bool
  trainer_healthy id = do
    round? ← gets previous_round
    round ← ok_or round? no_active_round
    let score = trainer_healthy_score_by_witnesses id round.witnesses
    quorum ← witness_quorum (length round.witnesses % u16_mod)
    pure (leb quorum score)

  -- The `match` on the committee of a proof; two of its cases are `todo!()`.
  abbrev pub healthy_in : ⦃node : NodeIdentity T⦄ ⦃hashing : Hashing⦄ → Committee → T → Coord T Bool
  healthy_in tie_breaker id = panics
  healthy_in verifier id = panics
  healthy_in trainer id = trainer_healthy id

  -- The part of `healthy` that follows the look-up of the client. A proof of another client fails
  -- before its committee is looked at.
  unfoldable pub healthy_client :
      ⦃node : NodeIdentity T⦄ ⦃hashing : Hashing⦄ → T → CommitteeProof → Client T → Coord T Bool
  healthy_client ⦃node⦄ id proof client = do
    selection ← from_coordinator previous
    fail_if (not (node.same client.id id)) invalid_committee_proof
    clients ← gets λ c. c.epoch_state.clients
    verified ← unwrap (verify_committee_for_client selection client.id proof clients)
    fail_if (not verified) invalid_committee_proof
    healthy_in proof.committee client.id

  unfoldable pub healthy :
      ⦃node : NodeIdentity T⦄ ⦃hashing : Hashing⦄ → T → CommitteeProof → Coord T Bool
  healthy id proof = do
    round? ← gets previous_round
    round ← ok_or round? no_active_round
    if ltb proof.index round.clients_len
        then (do
          client? ← gets λ c. get_client_at_historical_index c proof.index round.clients_len
          client ← ok_or client? invalid_committee_proof
          healthy_client id proof client)
        else fail invalid_committee_proof

  -- The first loop of `health_check`: every client that is reported must be unhealthy.
  unfoldable pub check_all :
      ⦃node : NodeIdentity T⦄ ⦃hashing : Hashing⦄ → List (T × CommitteeProof) → Coord T (Unit {0})
  check_all [] = pure tt
  check_all ((id, proof) ∷ checks) = do
    is_well ← healthy id proof
    fail_if is_well invalid_health_check
    check_all checks

  -- The second loop of `health_check`: healthy clients are dropped, and counted.
  unfoldable pub drop_all : List (T × CommitteeProof) → ℕ → Coord T ℕ
  drop_all [] count = pure count
  drop_all ((id, proof) ∷ checks) count = do
    entry ← gets λ c. get_elem? c.epoch_state.clients proof.index
    client ← unwrap entry
    when (is_healthy client.state) (modify (set_client_state proof.index client dropped))
    drop_all checks (if is_healthy client.state then count + 1 else count)

  unfoldable pub health_check :
      ⦃node : NodeIdentity T⦄ ⦃hashing : Hashing⦄ → List (T × CommitteeProof) → Coord T ℕ
  health_check checks c =
      if halted c
      then err halted_error c
      else (do
        round? ← gets current_round
        round ← ok_or round? no_active_round
        fail_if (ltb round.height 2) invalid_health_check
        check_all checks
        drop_all checks 0)
          c

  unfoldable pub checkpoint : ⦃node : NodeIdentity T⦄ → T → ℕ → HubRepo → Coord T (Unit {0})
  checkpoint ⦃node⦄ from index repo c = elim (get_elem? c.epoch_state.clients index) [
    | none ↦ err invalid_committee_proof c
    | some client ↦
        if not (node.same client.id from)
        then err invalid_committee_proof c
        else ok tt (record c { model = with_checkpoint repo c.model })
  ]
