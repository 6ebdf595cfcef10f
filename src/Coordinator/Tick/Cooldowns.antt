-- ===== src/Coordinator/Tick/Cooldowns.antt =====
-- What `tick_cooldown` does: it returns, keeps the invariant, and follows the diagram.
use psyche.Base.{
  ℕ, ◌+◌, ◌*◌, ◌≡◌, Bool, true, false, some, ok, arith, inl, inr, Bool-cases, Returns, Returns-bind,
}
use psyche.Coordinator.Types.{cooldown, paused, Round, Coordinator, CoordinatorEpochState}
use psyche.Coordinator.Config.{Float64, get_batch_size}
use psyche.Coordinator.Rounds.{
  current_round, current_round_unchecked, get_sequence_length, get_target_global_batch_size,
  total_tokens_processed, get_global_batch_size_for_tokens,
}
use psyche.Coordinator.Invariant.{EpochIsValid, IsValid, Fits, RoundsToU16}
use psyche.Coordinator.Lifecycle.Leaving.{
  moved, move_clients_to_exited_lem, with_clients, withdrawn_clients, withdraw_all_lem,
  healthy_clients-AllHealthy, AllHealthy, length-withdrawn,
}
use psyche.Coordinator.Lifecycle.Ring.{get_batch_size-lt}
use psyche.Coordinator.Tick.{tick_cooldown, finish_epoch, settle, end_epoch, p2p_checkpoint}
use psyche.Coordinator.Tick.Edges.{◌⟶◌, edges, stay, pausing}
use psyche.Coordinator.Tick.Steps.{
  current_round_unchecked_lem, Steps, timed_out, check_timeout_lem, change_state_lem, current_of,
  moved-IsValid, start_waiting_for_members_lem,
}

module _ {T : Type 0} ⦃f : Float64⦄ where
  -- The state after `end_epoch`, when `r` is the last round.
  abbrev pub ended : Round → Coordinator T → Coordinator T
  ended r c = record c {
    progress = record c.progress {
      epoch_start_data_index =
          r.data_index + get_batch_size c.config (r.data_index * get_sequence_length c);
      epoch = c.progress.epoch + 1;
    };
  }

  end_epoch_lem :
      (c : Coordinator T) (r : Round)
      → RoundsToU16 f
      → Fits c
      → current_round c ≡ some r
      → end_epoch c ≡ ok tt (ended r c)
  unfolding end_epoch get_target_global_batch_size total_tokens_processed
      get_global_batch_size_for_tokens current_round_unchecked current_round
  end_epoch_lem c r w fits e = ground (
    arith,
    fits.rounds r e,
    get_batch_size-lt f c.config (r.data_index * get_sequence_length c) w fits.batch_size,
  )

  -- Flags apart, the epoch state is what counts.
  cold_start-IsValid :
      (e : CoordinatorEpochState T) (b : Bool)
      → EpochIsValid e
      → EpochIsValid (record e { cold_start_epoch = b })
  cold_start-IsValid e b v = record {
    ring = v.ring;
    head = v.head;
    in_step = v.in_step;
    room = v.room;
  }

  pub withdrawn-IsValid :
      (c : Coordinator T)
      → IsValid c
      → IsValid (with_clients (withdrawn_clients c.epoch_state.clients) c)
  withdrawn-IsValid c v = record {
    ring = v.ring;
    head = v.head;
    in_step = v.in_step;
    room = omega (arith, v.room, length-withdrawn c.epoch_state.clients);
  }

  settle-Returns :
      (c : Coordinator T) (now : ℕ)
      → IsValid c
      → AllHealthy c.epoch_state.clients
      → c.run_state ≡ cooldown
      → Returns (settle now c) (λ _ d. IsValid d × (cooldown ⟶ d.run_state))
  unfolding settle
  settle-Returns c now v healthy e = elim (Bool-cases c.pending_pause) [
    | inl pause ↦
        let d = with_clients (withdrawn_clients c.epoch_state.clients) c in
        simp pause (
          rw (withdraw_all_lem c healthy, change_state_lem now paused d (ground arith))
            (cold_start-IsValid d.epoch_state true (withdrawn-IsValid c v), pausing))
    | inr go_on ↦ simp go_on (
        rw (start_waiting_for_members_lem now c (ground arith) (ground arith))
          (cold_start-IsValid c.epoch_state false v, grind (arith, edges)))
  ]

  pub tick_cooldown-Steps :
      (c : Coordinator T) (now : ℕ)
      → RoundsToU16 f
      → IsValid c
      → Fits c
      → c.run_state ≡ cooldown
      → Returns (tick_cooldown now c) (λ r d. Steps c d)
  unfolding tick_cooldown finish_epoch
  tick_cooldown-Steps c now w v fits e =
      elim (Bool-cases (timed_out now c.config.cooldown_time c)) [
        | inr not_yet ↦
            rw (check_timeout_lem now c.config.cooldown_time c fits.cooldown, not_yet)
              (record { valid = v; edge = stay })
        | inl over ↦
            let (r, found) = current_of c v in
            let m = moved r.height (ended r c) in
            let n = record m { model = p2p_checkpoint c.model } in
            rw
              (
                check_timeout_lem now c.config.cooldown_time c fits.cooldown,
                over,
                end_epoch_lem c r w fits found,
                current_round_unchecked_lem (ended r c) r (unfold current_round in found),
                move_clients_to_exited_lem r.height (ended r c) v.room,
              )
              (Returns-bind (settle now n) _ _ (λ r d. Steps c d)
                (settle-Returns n now (moved-IsValid r.height c v)
                  (healthy_clients-AllHealthy c.epoch_state.clients) e)
                (λ _ d p. record { valid = p.0; edge = rw e p.1 }))
      ]
