-- ===== src/Coordinator/Members/Requests.antt =====
-- What clients send, and who leaves, brings in no client: the messages, `withdraw`, `pause` and
-- `resume` of shared/coordinator/src/coordinator.rs.
use psyche.Base.{
  ℕ, true, List, [], ◌∷◌, get_elem?, not, ◌==◌, ◌&&◌, ltb, leb, Bool-cases, inl, inr, Option-cases,
  ◌||◌, ◌>>◌, ◌>>=◌, modify, when, ◌-◌, ◌*◌, u64_mod, ◌/◌,
}
use psyche.Base.Keeps.{
  Leaves, pure-Keeps, fail-Keeps, unwrap-Keeps, ok_or-Keeps, fail_if-Keeps, modify-Keeps,
  when-Keeps, checked_sub-Keeps, checked-Keeps, bind-Keeps, seq-Keeps,
}
use psyche.Core.Hashing.{Hashing, sha256v}
use psyche.Coordinator.Config.{Float64}
use psyche.Coordinator.Model.{HubRepo}
use psyche.Coordinator.Types.{
  NodeIdentity, warmup, round_train, round_witness, paused, Witness, duplicate_witness,
  witnesses_full, cannot_resume, invalid_run_state, no_active_round, invalid_witness,
  invalid_committee_selection,
}
use psyche.Coordinator.Rounds.{current_round, halted, active}
use psyche.Coordinator.Lifecycle.{
  pause, resume, to_usize, start_round_train, withdraw_all, change_state,
}
use psyche.Coordinator.Messages.{
  check_duplicates, push_witness, record_witness, warmup_witness, store_witness, accept_witness,
  witness, checkpoint, expected_witnesses,
}
use psyche.Coordinator.Members.{
  Kept, then_Kept, if_Kept, change_state-Keeps, start_waiting_for_members-Keeps,
  current_round_unchecked-Keeps, update_current_round-Keeps, start_round_train-Keeps,
  withdraw_all-Keeps,
}
use psyche.Coordinator.Committees.{
  from_coordinator, Offset, round_at, new, current, verify_witness_for_client,
}
use psyche.Core.SwapOrNot.{to_le_bytes}

module _ {T : Type 0} (Q : T → Type 0) (r : List ℕ) where
  -- A run that is not active pauses at once: its clients leave.
  leave-Keeps :
      (now : ℕ)
      → Kept Q r {A = Unit {0}} (do
        withdraw_all
        change_state now paused
        modify λ c. record c { epoch_state = record c.epoch_state { cold_start_epoch = true } })
  leave-Keeps now =
      seq-Keeps (withdraw_all-Keeps Q r)
        (seq-Keeps (change_state-Keeps Q r now paused) (modify-Keeps (λ d k. k)))

  pub pause-Keeps : (now : ℕ) → Kept Q r (pause now)
  unfolding pause
  pause-Keeps now = record {
    keeps = λ c h. elim (Bool-cases (halted c)) [
      | inl stopped ↦ rw (stopped, Leaves) h
      | inr going ↦ elim (Bool-cases (active c)) [
        | inl on ↦ rw (going, on) h
        | inr off ↦ rw (going, off) ((leave-Keeps now).keeps c h)
      ]
    ];
  }

  pub resume-Keeps : (now : ℕ) → Kept Q r (resume now)
  unfolding resume
  resume-Keeps now = record {
    keeps = λ c h.
        if_Kept Q r (not (to_usize c.run_state == to_usize paused)) (fail-Keeps cannot_resume)
          (start_waiting_for_members-Keeps Q r now) c h;
  }

  pub checkpoint-Keeps :
      ⦃node : NodeIdentity T⦄ (from : T) (index : ℕ) (repo : HubRepo)
      → Kept Q r (checkpoint from index repo)
  unfolding checkpoint
  checkpoint-Keeps ⦃node⦄ from index repo = record {
    keeps = λ c h. elim (Option-cases (get_elem? c.epoch_state.clients index)) [
      | inl missing ↦ rw (missing, Leaves) h
      | inr (x, there) ↦ elim (Bool-cases (node.same x.id from)) [
        | inl same ↦ rw (there, Leaves, same) h
        | inr other ↦ rw (there, Leaves, other) h
      ]
    ];
  }

  check_duplicates-Keeps :
      ⦃node : NodeIdentity T⦄ (from : T) (ws : List Witness) → Kept Q r (check_duplicates from ws)
  unfolding check_duplicates
  check_duplicates-Keeps from [] = pure-Keeps tt
  check_duplicates-Keeps from (w ∷ ws) = record {
    keeps = λ c h.
        then_Kept Q r (unwrap-Keeps (get_elem? c.epoch_state.clients w.proof.index))
          (λ x. seq-Keeps (fail_if-Keeps _ duplicate_witness) (check_duplicates-Keeps from ws)) c h;
  }

  push_witness-Keeps : (w : Witness) → Kept Q r (push_witness w)
  unfolding push_witness
  push_witness-Keeps w = bind-Keeps (current_round_unchecked-Keeps Q r) (λ x.
      seq-Keeps (fail_if-Keeps _ witnesses_full)
        (seq-Keeps (update_current_round-Keeps Q r _) (pure-Keeps _)))

  record_witness-Keeps :
      ⦃node : NodeIdentity T⦄ (from : T) (w : Witness) → Kept Q r (record_witness from w)
  unfolding record_witness
  record_witness-Keeps from w = record {
    keeps = λ c h.
        then_Kept Q r (unwrap-Keeps (current_round c))
          (λ x. seq-Keeps (check_duplicates-Keeps from x.witnesses) (push_witness-Keeps w)) c h;
  }

  -- The witness is recorded, and the last one that is expected starts the round.
  warmup_count-Keeps :
      ⦃node : NodeIdentity T⦄ ⦃f : Float64⦄ (from : T) (w : Witness) (now seed expected : ℕ)
      → Kept Q r {A = Unit {0}} (do
        count ← record_witness from w
        when (count == expected) (start_round_train now seed 0))
  warmup_count-Keeps from w now seed expected =
      bind-Keeps (record_witness-Keeps from w)
        (λ count. when-Keeps (count == expected) (start_round_train-Keeps Q r now seed 0))

  pub warmup_witness-Keeps :
      ⦃node : NodeIdentity T⦄ ⦃f : Float64⦄ (from : T) (w : Witness) (now seed : ℕ)
      → Kept Q r (warmup_witness from w now seed)
  unfolding warmup_witness
  warmup_witness-Keeps from w now seed = record {
    keeps = λ c h. elim (Bool-cases (halted c)) [
      | inl stopped ↦ rw (stopped, Leaves) h
      | inr going ↦ rw going (
          if_Kept Q r (to_usize c.run_state == to_usize round_train) (pure-Keeps tt)
            (record {
              keeps = λ d k.
                  if_Kept Q r (not (to_usize c.run_state == to_usize warmup))
                    (fail-Keeps invalid_run_state)
                    (warmup_count-Keeps from w now seed (expected_witnesses c)) d k;
            })
            c h)
    ];
  }

  store_witness-Keeps :
      ⦃node : NodeIdentity T⦄ (from : T) (w : Witness) (now expected : ℕ)
      → Kept Q r (store_witness from w now expected)
  unfolding store_witness
  store_witness-Keeps from w now expected = bind-Keeps (record_witness-Keeps from w) (λ count.
      record {
        keeps = λ c h.
            (when-Keeps (count == expected && not (to_usize c.run_state == to_usize round_witness))
                (change_state-Keeps Q r now round_witness)).keeps
              c h;
      })

  module _ ⦃node : NodeIdentity T⦄ ⦃hashing : Hashing⦄ where
    new-Keeps :
        (tasks witness_nodes percent total seed : ℕ)
        → Kept Q r (new tasks witness_nodes percent total seed)
    unfolding new
    new-Keeps tasks witness_nodes percent total seed =
        seq-Keeps (fail_if-Keeps (leb (u64_mod - 1) total) invalid_committee_selection) (
          seq-Keeps (fail_if-Keeps (ltb total tasks) invalid_committee_selection) (
            seq-Keeps
              (fail_if-Keeps (not (witness_nodes == 0) && ltb total witness_nodes)
                invalid_committee_selection)
              (seq-Keeps (fail_if-Keeps (ltb 100 percent) invalid_committee_selection) (
                bind-Keeps (checked_sub-Keeps total tasks) (λ free.
                  bind-Keeps (checked-Keeps u64_mod (free * percent)) (λ product.
                    pure-Keeps (record {
                      tie_breaker_nodes = tasks;
                      verifier_nodes = product / 100;
                      total_nodes = total;
                      witness_nodes = witness_nodes;
                      seed = sha256v (to_le_bytes 8 seed ∷ []);
                    })))))))

    pub from_coordinator-Keeps : (o : Offset) → Kept Q r (from_coordinator o)
    unfolding from_coordinator
    from_coordinator-Keeps o = record {
      keeps = λ c h.
          then_Kept Q r (ok_or-Keeps (round_at o c) no_active_round)
            (λ x.
              new-Keeps x.tie_breaker_tasks c.config.witness_nodes c.config.verification_percent
                x.clients_len x.random_seed)
            c h;
    }

    accept_witness-Keeps :
        (from : T) (w : Witness) (now expected : ℕ) → Kept Q r (accept_witness from w now expected)
    unfolding accept_witness
    accept_witness-Keeps from w now expected =
        bind-Keeps (from_coordinator-Keeps current) (λ selection. record {
          keeps = λ c h.
              then_Kept Q r
                (unwrap-Keeps
                  (verify_witness_for_client selection from w.proof c.epoch_state.clients))
                (λ verified.
                  seq-Keeps (fail_if-Keeps _ invalid_witness)
                    (store_witness-Keeps from w now expected))
                c h;
        })

    pub witness-Keeps : (from : T) (w : Witness) (now : ℕ) → Kept Q r (witness from w now)
    unfolding witness
    witness-Keeps from w now = record {
      keeps = λ c h. elim (Bool-cases (halted c)) [
        | inl stopped ↦ rw (stopped, Leaves) h
        | inr going ↦ rw going (
            if_Kept Q r
              (not (
                to_usize c.run_state == to_usize round_witness
                || to_usize c.run_state == to_usize round_train))
              (fail-Keeps invalid_run_state)
              (accept_witness-Keeps from w now (expected_witnesses c)) c h)
      ];
    }
