-- ===== src/Coordinator/Members/Checks.antt =====
-- A health check brings in no client: `health_check` and its parts of
-- shared/coordinator/src/coordinator.rs.
use psyche.Base.{
  ℕ, ◌+◌, Bool, List, [], ◌∷◌, get_elem?, not, ltb, Bool-cases, inl, inr, Option-cases, ◌>>◌, ◌>>=◌,
  gets, unwrap, fail_if,
}
use psyche.Base.Keeps.{
  Leaves, pure-Keeps, fail-Keeps, unwrap-Keeps, ok_or-Keeps, fail_if-Keeps, if-Keeps, bind-Keeps,
  seq-Keeps,
}
use psyche.Core.Hashing.{Hashing}
use psyche.Coordinator.Types.{
  NodeIdentity, RunState, waiting_for_members, warmup, round_train, round_witness, paused, Witness,
  CommitteeProof, Client, Round, Coordinator, Coord, duplicate_witness, solana_max_num_witnesses,
  witnesses_full, cannot_resume, invalid_run_state, no_active_round, invalid_health_check,
  Committee, invalid_committee_proof, invalid_witness, tie_breaker, verifier,
  invalid_committee_selection, dropped,
}
use psyche.Coordinator.Rounds.{
  current_round, halted, previous_round, get_client_at_historical_index,
}
use psyche.Coordinator.Lifecycle.{is_healthy, set_client_state}
use psyche.Coordinator.Messages.{
  trainer_healthy, healthy_client, healthy, check_all, drop_all, health_check, healthy_in,
}
use psyche.Coordinator.Members.Requests.{from_coordinator-Keeps}
use psyche.Coordinator.Members.{AllIds-set, Kept, then_Kept}
use psyche.Coordinator.Committees.{previous, verify_committee_for_client, CommitteeSelection}
use psyche.Coordinator.Members.Ticks.{witness_quorum-Keeps}

module _ {T : Type 0} (Q : T → Type 0) (r : List ℕ) where
  module _ ⦃node : NodeIdentity T⦄ ⦃hashing : Hashing⦄ where
    trainer_healthy-Keeps : (id : T) → Kept Q r (trainer_healthy id)
    unfolding trainer_healthy
    trainer_healthy-Keeps id = record {
      keeps = λ c h.
          then_Kept Q r (ok_or-Keeps (previous_round c) no_active_round)
            (λ x. bind-Keeps (witness_quorum-Keeps Q r _) (λ quorum. pure-Keeps _)) c h;
    }

    healthy_in-Keeps : (committee : Committee) (id : T) → Kept Q r (healthy_in committee id)
    healthy_in-Keeps psyche.Coordinator.Types.tie_breaker id = record { keeps = λ c h. tt }
    healthy_in-Keeps psyche.Coordinator.Types.verifier id = record { keeps = λ c h. tt }
    healthy_in-Keeps psyche.Coordinator.Types.trainer id = trainer_healthy-Keeps id

    -- The end of `healthy_client`.
    verified-Keeps :
        (selection : CommitteeSelection) (proof : CommitteeProof) (x : Client T)
        → Kept Q r {A = Bool} (do
          clients ← gets λ c. c.epoch_state.clients
          verified ← unwrap (verify_committee_for_client selection x.id proof clients)
          fail_if (not verified) invalid_committee_proof
          healthy_in proof.committee x.id)
    verified-Keeps selection proof x = record {
      keeps = λ c h.
          then_Kept Q r
            (unwrap-Keeps (verify_committee_for_client selection x.id proof c.epoch_state.clients))
            (λ verified.
              seq-Keeps (fail_if-Keeps (not verified) invalid_committee_proof)
                (healthy_in-Keeps proof.committee x.id))
            c h;
    }

    healthy_client-Keeps :
        (id : T) (proof : CommitteeProof) (x : Client T) → Kept Q r (healthy_client id proof x)
    unfolding healthy_client
    healthy_client-Keeps id proof x = bind-Keeps (from_coordinator-Keeps Q r previous) (λ selection.
        seq-Keeps (fail_if-Keeps (not (node.same x.id id)) invalid_committee_proof)
          (verified-Keeps selection proof x))

    healthy-Keeps : (id : T) (proof : CommitteeProof) → Kept Q r (healthy id proof)
    unfolding healthy
    healthy-Keeps id proof = record {
      keeps = λ c h.
          then_Kept Q r (ok_or-Keeps (previous_round c) no_active_round)
            (λ x.
              if-Keeps (ltb proof.index x.clients_len)
                (record {
                  keeps = λ d k.
                      then_Kept Q r
                        (ok_or-Keeps (get_client_at_historical_index d proof.index x.clients_len)
                          invalid_committee_proof)
                        (λ y. healthy_client-Keeps id proof y) d k;
                })
                (fail-Keeps invalid_committee_proof))
            c h;
    }

    check_all-Keeps : (checks : List (T × CommitteeProof)) → Kept Q r (check_all checks)
    unfolding check_all
    check_all-Keeps [] = pure-Keeps tt
    check_all-Keeps ((id, proof) ∷ checks) =
        bind-Keeps (healthy-Keeps id proof)
          (λ well. seq-Keeps (fail_if-Keeps well invalid_health_check) (check_all-Keeps checks))

    drop_all-Keeps :
        (checks : List (T × CommitteeProof)) (count : ℕ) → Kept Q r (drop_all checks count)
    unfolding drop_all
    drop_all-Keeps [] count = pure-Keeps count
    drop_all-Keeps ((id, proof) ∷ checks) count = record {
      keeps = λ c h. elim (Option-cases (get_elem? c.epoch_state.clients proof.index)) [
        | inl missing ↦ rw missing tt
        | inr (x, there) ↦ elim (Bool-cases (is_healthy x.state)) [
          | inl well ↦
              rw (there, well)
                ((drop_all-Keeps checks (count + 1)).keeps
                  (set_client_state proof.index x dropped c)
                  (h.0, AllIds-set Q r _ proof.index x dropped there h.1))
          | inr ill ↦ rw (there, ill) ((drop_all-Keeps checks count).keeps c h)
        ]
      ];
    }

    pub health_check-Keeps : (checks : List (T × CommitteeProof)) → Kept Q r (health_check checks)
    unfolding health_check
    health_check-Keeps checks = record {
      keeps = λ c h. elim (Bool-cases (halted c)) [
        | inl stopped ↦ rw (stopped, Leaves) h
        | inr going ↦ rw going (
            then_Kept Q r (ok_or-Keeps (current_round c) no_active_round)
              (λ x.
                seq-Keeps (fail_if-Keeps _ invalid_health_check)
                  (seq-Keeps (check_all-Keeps checks) (drop_all-Keeps checks 0)))
              c h)
      ];
    }
