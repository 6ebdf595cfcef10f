-- ===== src/Coordinator/Tick/RoundEnds.antt =====
-- What `tick_round_witness` does: it returns, keeps the invariant, and follows the diagram.
use psyche.Base.{
  ℕ, ◌+◌, ◌%◌, ◌<◌, ◌≡◌, ◌∙◌, ◌≢◌, Bool, false, some, [], length, get_elem?, set, ok, arith, inl,
  inr, Bool-cases, ltb, if◌then◌else◌, ◌==◌, u16_mod, u32_mod, u64_mod, leb, ◌&&◌, ◌||◌, not,
  Returns, Returns-map, Returns-bind, get_elem?-set_self, length-set,
}
use psyche.Coordinator.Types.{round_witness, cooldown, Round, Coordinator}
use psyche.Coordinator.Config.{Float64}
use psyche.Coordinator.Rounds.{current_round, update_current_round, get_sequence_length}
use psyche.Coordinator.Invariant.{IsValid, Fits, RoundFits, RoundsToU16}
use psyche.Coordinator.Quorum.{witness_quorum, quorum_of}
use psyche.Coordinator.Lifecycle.{check_epoch_timeout, last_step_set, start_cooldown}
use psyche.Coordinator.Lifecycle.Leaving.{
  moved, move_clients_to_exited_lem, with_clients, withdrawn_clients, withdraw_all_lem,
  healthy_clients-AllHealthy,
}
use psyche.Coordinator.Lifecycle.Ring.{start_round_train_lem, trained-IsValid}
use psyche.Coordinator.Tick.{set_last_step, must_stop, end_round, next_step, tick_round_witness}
use psyche.Coordinator.Tick.Edges.{◌⟶◌, stay, wind_down, another_round}
use psyche.Coordinator.Tick.Steps.{
  Steps, timed_out, check_timeout_lem, change_state_lem, current_of, moved-IsValid, in_state,
  current_round_unchecked_lem,
}
use psyche.Coordinator.Tick.Cooldowns.{withdrawn-IsValid}

module _ {T : Type 0} where
  -- The current round without its witnesses.
  abbrev pub cleared : Round → Coordinator T → Coordinator T
  cleared r c = record c {
    epoch_state = record c.epoch_state {
      rounds = set c.epoch_state.rounds c.epoch_state.rounds_head (record r { witnesses = [] });
    };
  }

  cleared-IsValid :
      (r : Round) (c : Coordinator T)
      → IsValid c
      → get_elem? c.epoch_state.rounds c.epoch_state.rounds_head ≡ some r
      → IsValid (cleared r c)
  cleared-IsValid r c v e =
      let empty = record r { witnesses = [] } in
      let size = length-set c.epoch_state.rounds c.epoch_state.rounds_head empty in
      record {
        ring = size ∙ v.ring;
        head = v.head;
        in_step = λ s found. ground (
          arith,
          get_elem?-set_self c.epoch_state.rounds c.epoch_state.rounds_head empty,
          v.in_step r e,
          v.head,
          v.ring,
        );
        room = v.room;
      }

  start_cooldown_lem :
      (now : ℕ) (r : Round) (c : Coordinator T)
      → get_elem? c.epoch_state.rounds c.epoch_state.rounds_head ≡ some r
      → c.run_state ≢ cooldown
      → start_cooldown now c ≡ ok tt (in_state now cooldown (cleared r c))
  unfolding start_cooldown update_current_round current_round
  start_cooldown_lem now r c e h =
      rw (e, change_state_lem now cooldown (cleared r c) (ground arith))

  -- From a round's end the run winds down.
  start_cooldown-Returns :
      (now : ℕ) (r : Round) (c : Coordinator T)
      → IsValid c
      → get_elem? c.epoch_state.rounds c.epoch_state.rounds_head ≡ some r
      → c.run_state ≡ round_witness
      → Returns (start_cooldown now c) (λ _ d. IsValid d × (round_witness ⟶ d.run_state))
  start_cooldown-Returns now r c v e h =
      rw (start_cooldown_lem now r c e (ground arith)) (cleared-IsValid r c v e, wind_down)

  -- The last step of the epoch, as `set_last_step` leaves it.
  abbrev pub last_step_after : ℕ → Coordinator T → ℕ
  last_step_after now c =
      if not (c.epoch_state.start_timestamp == now)
        && leb (c.epoch_state.start_timestamp + c.config.epoch_time) now
        && (c.epoch_state.last_step == 0)
        && leb 4 (c.progress.step + 2)
      then c.progress.step + 2
      else c.epoch_state.last_step

  abbrev pub with_last_step : ℕ → Coordinator T → Coordinator T
  with_last_step l c = record c { epoch_state = record c.epoch_state { last_step = l } }

  -- When its two sums fit their words, `set_last_step` returns, and sets the epoch's last step to
  -- two after the current one if the epoch, not just begun, has lasted its time, no last step is set yet, and that
  -- number is at least 4; else it changes nothing.
  pub set_last_step_lem :
      (now : ℕ) (c : Coordinator T)
      → c.epoch_state.start_timestamp + c.config.epoch_time < u64_mod
      → c.progress.step + 2 < u32_mod
      → set_last_step now c ≡ ok tt (with_last_step (last_step_after now c) c)
  unfolding set_last_step check_epoch_timeout last_step_set
  set_last_step_lem now c fits small = ground arith

  -- The witness nodes that the quorum is counted against.
  abbrev pub witness_nodes_for : ℕ → Coordinator T → ℕ
  witness_nodes_for n c = if c.config.witness_nodes == 0 then n else c.config.witness_nodes

  -- The four reasons to stop after a round.
  abbrev pub stops : ℕ → Coordinator T → Bool
  stops n c =
      ltb (length c.epoch_state.clients) c.config.min_clients
      || (ltb n (quorum_of (witness_nodes_for n c))
          || leb c.config.total_steps c.progress.step
          || c.pending_pause)

  pub must_stop_lem : (n : ℕ) (c : Coordinator T) → n ≢ 0 → must_stop n c ≡ ok (stops n c) c
  unfolding must_stop witness_quorum
  must_stop_lem n c h = ground arith

  end_round-Returns :
      ⦃f : Float64⦄ (c : Coordinator T) (r : Round) (now seed n : ℕ)
      → RoundsToU16 f
      → IsValid c
      → RoundFits (get_sequence_length c) r
      → c.config.global_batch_size_end < u16_mod
      → c.epoch_state.start_timestamp + c.config.epoch_time < u64_mod
      → c.progress.step + 2 < u32_mod
      → get_elem? c.epoch_state.rounds c.epoch_state.rounds_head ≡ some r
      → c.run_state ≡ round_witness
      → n ≢ 0
      → Returns (end_round now seed n c) (λ _ d. IsValid d × (round_witness ⟶ d.run_state))
  unfolding end_round last_step_set get_sequence_length
  end_round-Returns c r now seed n w v fit small time step e h some_witness =
      let m = with_last_step (last_step_after now c) c in
      let valid : IsValid m = record {
        ring = v.ring;
        head = v.head;
        in_step = v.in_step;
        room = v.room;
      } in
      elim (Bool-cases (last_step_set m && c.progress.step == m.epoch_state.last_step)) [
        | inl reached ↦
            rw (set_last_step_lem now c time step, reached)
              (Returns-bind (start_cooldown now m) _ _ _ (start_cooldown-Returns now r m valid e h)
                (λ _ d p. p))
        | inr more ↦ elim (Bool-cases (stops n m)) [
          | inl stop ↦
              rw (set_last_step_lem now c time step, more, must_stop_lem n m some_witness, stop)
                (Returns-bind (start_cooldown now m) _ _ _
                  (start_cooldown-Returns now r m valid e h) (λ _ d p. p))
          | inr go_on ↦
              rw
                (
                  set_last_step_lem now c time step,
                  more,
                  must_stop_lem n m some_witness,
                  go_on,
                  start_round_train_lem m r now seed 0 w valid fit small (unfold current_round in e)
                      (ground arith),
                )
                (trained-IsValid m r now seed 0 valid (unfold current_round in e), another_round)
        ]
      ]

  -- The state when a round's time is over: the first round is done and the step counted.
  abbrev pub stepped : Coordinator T → Coordinator T
  stepped c = record c {
    epoch_state = record c.epoch_state { first_round = false };
    progress = record c.progress { step = c.progress.step + 1 };
  }

  next_step_lem :
      (c : Coordinator T)
      → c.progress.step + 1 < u32_mod
      → next_step c
        ≡ ok tt (record c { progress = record c.progress { step = c.progress.step + 1 } })
  unfolding next_step
  next_step_lem c h = ground arith

  pub tick_round_witness-Steps :
      ⦃f : Float64⦄ (c : Coordinator T) (now seed : ℕ)
      → RoundsToU16 f
      → IsValid c
      → Fits c
      → c.run_state ≡ round_witness
      → Returns (tick_round_witness now seed c) (λ r d. Steps c d)
  unfolding tick_round_witness current_round get_sequence_length
  tick_round_witness-Steps c now seed w v fits e =
      elim (Bool-cases (timed_out now c.config.round_witness_time c)) [
        | inr not_yet ↦
            rw (check_timeout_lem now c.config.round_witness_time c fits.witness, not_yet)
              (record { valid = v; edge = stay })
        | inl over ↦
            let (r, found) = current_of c v in
            let s = stepped c in
            let valid : IsValid s = record {
              ring = v.ring;
              head = v.head;
              in_step = v.in_step;
              room = v.room;
            } in
            let m = moved r.height s in
            let vm = moved-IsValid r.height s valid in
            let all_gone = with_clients (withdrawn_clients m.epoch_state.clients) m in
            elim (Bool-cases (length r.witnesses % u16_mod == 0)) [
              | inl none_left ↦
                  rw
                    (
                      check_timeout_lem now c.config.round_witness_time c fits.witness,
                      over,
                      next_step_lem (record c { epoch_state = s.epoch_state })
                          (omega (arith, fits.step)),
                      current_round_unchecked_lem s r found,
                      move_clients_to_exited_lem r.height s v.room,
                      none_left,
                      withdraw_all_lem m (healthy_clients-AllHealthy c.epoch_state.clients),
                    )
                    (Returns-bind (start_cooldown now all_gone) _ _ (λ r d. Steps c d)
                      (start_cooldown-Returns now r all_gone (withdrawn-IsValid m vm) found e)
                      (λ _ d p. record { valid = p.0; edge = rw e p.1 }))
              | inr some_left ↦
                  rw
                    (
                      check_timeout_lem now c.config.round_witness_time c fits.witness,
                      over,
                      next_step_lem (record c { epoch_state = s.epoch_state })
                          (omega (arith, fits.step)),
                      current_round_unchecked_lem s r found,
                      move_clients_to_exited_lem r.height s v.room,
                      some_left,
                    )
                    (Returns-map (end_round now seed (length r.witnesses % u16_mod) m) _
                      (λ r d. Steps c d) (λ _ d p. record { valid = p.0; edge = rw e p.1 })
                      (end_round-Returns m r now seed (length r.witnesses % u16_mod) w vm
                        (fits.rounds r found) fits.batch_size fits.epoch_time
                        (omega (arith, fits.step)) found e (ground arith)))
            ]
      ]
