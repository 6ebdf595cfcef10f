-- ===== src/Coordinator/Messages/Witnesses.antt =====
-- What an accepted witness tells: `witness` of shared/coordinator/src/coordinator.rs.
use psyche.Base.{
  ℕ, ◌+◌, ◌<◌, ◌≡◌, ◌⊎◌, inl, inr, true, false, some, List, [], ◌∷◌, length, get_elem?, set, ok,
  bind, bind-eq-ok, arith, Bool-cases, Option-cases,
}
use mathlib.Core.Path.{subst}
use psyche.Core.Hashing.{Hashing}
use psyche.Coordinator.Types.{
  NodeIdentity, round_train, round_witness, Witness, Client, Round, Coordinator,
  solana_max_num_witnesses,
}
use psyche.Coordinator.Rounds.{current_round, current_round_unchecked, update_current_round, halted}
use psyche.Coordinator.Lifecycle.{change_state}
use psyche.Coordinator.Committees.{
  CommitteeSelection, Offset, new, round_at, current, from_coordinator, get_witness, verify_client,
  verify_witness, verify_witness_for_client,
}
use psyche.Coordinator.Committees.Laws.{verify_witness_iff}
use psyche.Coordinator.Messages.{
  expected_witnesses, add_witness, check_duplicates, push_witness, record_witness, witness,
  accept_witness, store_witness,
}

module _ {T : Type 0} ⦃node : NodeIdentity T⦄ where
  -- No witness of the list was sent by `from`.
  abbrev pub NotFrom : T → Coordinator T → List Witness → Type 0
  NotFrom from c [] = Unit
  NotFrom from c (w ∷ ws) =
      ((client : Client T) × (get_elem? c.epoch_state.clients w.proof.index ≡ some client)
        × (node.same client.id from ≡ false))
      × NotFrom from c ws

  check_duplicates-ok :
      (from : T) (ws : List Witness) (c d : Coordinator T)
      → check_duplicates from ws c ≡ ok tt d
      → (d ≡ c) × NotFrom from c ws
  unfolding check_duplicates
  check_duplicates-ok from [] c d h = ground arith
  check_duplicates-ok from (w ∷ ws) c d h =
      elim (Option-cases (get_elem? c.epoch_state.clients w.proof.index)) [
        | inl nobody ↦ ground arith
        | inr (client, e) ↦ elim (Bool-cases (node.same client.id from)) [
          | inl same ↦ ground arith
          | inr differs ↦
              let rest : check_duplicates from ws c ≡ ok tt d = ground arith in
              let (unchanged, others) = check_duplicates-ok from ws c d rest in
              (unchanged, ((client, e, differs), others))
        ]
      ]

  -- Appended to the current round's witnesses.
  abbrev pub witnessed : Round → Witness → Coordinator T → Coordinator T
  witnessed r w c = record c {
    epoch_state = record c.epoch_state {
      rounds = set c.epoch_state.rounds c.epoch_state.rounds_head (add_witness w r);
    };
  }

  push_witness-ok :
      (r : Round) (w : Witness) (c d : Coordinator T) (n : ℕ)
      → current_round c ≡ some r
      → push_witness w c ≡ ok n d
      → (length r.witnesses < solana_max_num_witnesses)
        × (n ≡ length r.witnesses + 1)
        × (d ≡ witnessed r w c)
  unfolding push_witness current_round_unchecked update_current_round current_round
  push_witness-ok r w c d n e h = ground arith

  record_witness-ok :
      (from : T) (w : Witness) (c d : Coordinator T) (n : ℕ)
      → record_witness from w c ≡ ok n d
      → (r : Round) × (current_round c ≡ some r)
        × NotFrom from c r.witnesses
        × (length r.witnesses < solana_max_num_witnesses)
        × (n ≡ length r.witnesses + 1)
        × (d ≡ witnessed r w c)
  unfolding record_witness
  record_witness-ok from w c d n h = elim (Option-cases (current_round c)) [
    | inl no_round ↦ ground arith
    | inr (r, e) ↦
        let after : bind (check_duplicates from r.witnesses c) (λ _. push_witness w) ≡ ok n d =
          ground arith in
        let (_, m, checked, pushed) =
          bind-eq-ok (check_duplicates from r.witnesses c) (λ _. push_witness w) after in
        let (same, others) = check_duplicates-ok from r.witnesses c m checked in
        let (room, count, final) =
          push_witness-ok r w c d n e (subst (λ s. push_witness w s ≡ ok n d) same pushed) in
        (r, e, others, room, count, final)
  ]

module _ {T : Type 0} ⦃node : NodeIdentity T⦄ ⦃hashing : Hashing⦄ where
  pub from_coordinator_keeps :
      (o : Offset) (c d : Coordinator T) (s : CommitteeSelection)
      → from_coordinator o c ≡ ok s d
      → d ≡ c
  unfolding from_coordinator new
  from_coordinator_keeps o c d s h = elim (Option-cases (round_at o c)) [
    | inl no_round ↦ ground arith
    | inr (r, e) ↦ ground arith
  ]

  -- What is true of a witness that was accepted, when `r` was the current round and `s` its
  -- committees.
  pub record Accepted (from : T) (w : Witness) (r : Round) (s : CommitteeSelection)
      (c d : Coordinator T) : Type 0 where
    pub round : current_round c ≡ some r
    pub committees : from_coordinator current c ≡ ok s c
    pub sender : verify_client from w.proof.index c.epoch_state.clients ≡ true
    pub chosen : get_witness s w.proof.index ≡ some w.proof
    pub is_witness : w.proof.witness ≡ true
    pub first : NotFrom from c r.witnesses
    pub room : length r.witnesses < solana_max_num_witnesses
    pub appended : d.epoch_state ≡ (witnessed r w c).epoch_state
    pub state :
        (d.run_state ≡ c.run_state)
        ⊎ ((d.run_state ≡ round_witness) × (length r.witnesses + 1 ≡ expected_witnesses c))

  store_witness-ok :
      (from : T) (w : Witness) (now : ℕ) (c d : Coordinator T)
      → store_witness from w now (expected_witnesses c) c ≡ ok tt d
      → (r : Round) × (current_round c ≡ some r)
        × NotFrom from c r.witnesses
        × (length r.witnesses < solana_max_num_witnesses)
        × (d.epoch_state ≡ (witnessed r w c).epoch_state)
        × ((d.run_state ≡ c.run_state)
            ⊎ ((d.run_state ≡ round_witness) × (length r.witnesses + 1 ≡ expected_witnesses c)))
  unfolding store_witness change_state
  store_witness-ok from w now c d h =
      let (n, m, recorded, end) = bind-eq-ok (record_witness from w c) _ h in
      let (r, e, others, room, count, same) = record_witness-ok from w c m n recorded in
      (r, e, others, room, ground arith, ground arith)

  accept_witness-ok :
      (from : T) (w : Witness) (now : ℕ) (c d : Coordinator T)
      → accept_witness from w now (expected_witnesses c) c ≡ ok tt d
      → (r : Round) × (s : CommitteeSelection) × Accepted from w r s c d
  unfolding accept_witness verify_witness_for_client
  accept_witness-ok from w now c d h =
      let (s, m, selected, h1) = bind-eq-ok (from_coordinator current c) _ h in
      let same = from_coordinator_keeps current c m s selected in
      let stored : store_witness from w now (expected_witnesses c) c ≡ ok tt d = ground arith in
      let (r, e, others, room, appended, state) = store_witness-ok from w now c d stored in
      let is_sender : verify_client from w.proof.index c.epoch_state.clients ≡ true =
        ground arith in
      let verified : verify_witness s w.proof ≡ some true = ground arith in
      (
        r,
        s,
        record {
          round = e;
          committees = ground arith;
          sender = is_sender;
          chosen = (verify_witness_iff s w.proof).0 verified;
          is_witness = ground arith;
          first = others;
          room = room;
          appended = appended;
          state = state;
        },
      )

  -- If `witness` returns, the run was collecting witnesses; the sender is the client at the proof's
  -- index, and the proof is the one that the round's committees give to that index and says
  -- "witness"; no witness of the round was the sender's, and the list had room; the witness was
  -- appended, and the run state is the old one, or `round_witness` if this was the last one expected.
  pub witness-Accepted :
      (from : T) (w : Witness) (now : ℕ) (c d : Coordinator T)
      → witness from w now c ≡ ok tt d
      → ((c.run_state ≡ round_train) ⊎ (c.run_state ≡ round_witness))
        × ((r : Round) × (s : CommitteeSelection) × Accepted from w r s c d)
  unfolding witness halted
  witness-Accepted from w now c d h =
      let accepted : accept_witness from w now (expected_witnesses c) c ≡ ok tt d = ground arith in
      (ground arith, accept_witness-ok from w now c d accepted)
