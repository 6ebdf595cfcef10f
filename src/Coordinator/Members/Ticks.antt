-- ===== src/Coordinator/Members/Ticks.antt =====
-- `tick` of shared/coordinator/src/coordinator.rs brings in no client but those that are pending.
use psyche.Base.{
  ℕ, zero, suc, ◌+◌, ◌%◌, true, false, Option, some, List, [], ◌∷◌, map, take, length, not, ◌==◌,
  ◌&&◌, ltb, leb, if◌then◌else◌, pure, Bool-cases, inl, inr, u16_mod, u32_mod, u64_mod, ◌>>◌, ◌>>=◌,
}
use psyche.Base.Keeps.{
  Leaves, pure-Keeps, fail-Keeps, if-Keeps, modify-Keeps, checked-Keeps, when-Keeps, bind-Keeps,
  seq-Keeps,
}
use psyche.Coordinator.Config.{Float64}
use psyche.Coordinator.Types.{
  NodeIdentity, RunState, uninitialized, waiting_for_members, warmup, round_train, round_witness,
  cooldown, finished, paused, TickResult, ticked, epoch_end, Round, Coordinator,
  solana_max_num_clients, new_client, halted,
}
use psyche.Coordinator.Rounds.{
  current_round, current_round_unchecked, total_tokens_processed, get_target_global_batch_size,
}
use psyche.Coordinator.Quorum.{witness_quorum}
use psyche.Coordinator.Members.{
  AllIds, Members, Kept, then_Kept, if_Kept, change_state-Keeps, check_timeout-Keeps,
  check_epoch_timeout-Keeps, start_waiting_for_members-Keeps, start_cooldown-Keeps,
  current_round_unchecked-Keeps, move_clients_to_exited-Keeps, start_round_train-Keeps,
  withdraw_all-Keeps, batch_size-Keeps,
}
use psyche.Coordinator.Tick.{
  start_epoch, tick_waiting_for_members, check_min_clients, tick_warmup, tick_round_train,
  next_step, set_last_step, must_stop, end_round, tick_round_witness, end_epoch, settle,
  finish_epoch, tick_cooldown, tick_in, tick,
}
use psyche.Coordinator.Lifecycle.{
  last_step_set, move_clients_to_exited, withdraw_all, start_cooldown,
}

abbrev pub AllPending : {T : Type 0} → (T → Type 0) → List T → Type 0
AllPending Q [] = Unit
AllPending Q (x ∷ xs) = Q x × AllPending Q xs

module _ {T : Type 0} (Q : T → Type 0) (r : List ℕ) where
  new_clients-AllIds :
      (n : ℕ) (pending : List T) → AllPending Q pending → AllIds Q (map new_client (take n pending))
  unfolding new_client
  new_clients-AllIds zero pending h = tt
  new_clients-AllIds (suc n) [] h = tt
  new_clients-AllIds (suc n) (x ∷ xs) h = (h.0, new_clients-AllIds n xs h.1)

  start_epoch-Members :
      ⦃node : NodeIdentity T⦄ (pending : List T) (now : ℕ) (c : Coordinator T)
      → AllPending Q pending
      → Members Q r c
      → Members Q r (start_epoch pending now c)
  unfolding start_epoch
  start_epoch-Members pending now c q h = (h.0, new_clients-AllIds solana_max_num_clients pending q)

  tick_round_train-Keeps : (now : ℕ) → Kept Q r (tick_round_train now)
  unfolding tick_round_train
  tick_round_train-Keeps now = record {
    keeps = λ c h.
        then_Kept Q r (check_timeout-Keeps Q r now c.config.max_round_train_time)
          (λ timeout.
            seq-Keeps (when-Keeps timeout (change_state-Keeps Q r now round_witness))
              (pure-Keeps ticked))
          c h;
  }

  check_min_clients-Keeps : (now : ℕ) → Kept Q r (check_min_clients now)
  unfolding check_min_clients
  check_min_clients-Keeps now = record {
    keeps = λ c h.
        (if-Keeps (ltb (length c.epoch_state.clients % u16_mod) c.config.min_clients)
            (seq-Keeps (start_waiting_for_members-Keeps Q r now) (pure-Keeps (epoch_end false)))
            (pure-Keeps ticked)).keeps
          c h;
  }

  tick_warmup-Keeps : ⦃f : Float64⦄ (now seed : ℕ) → Kept Q r (tick_warmup now seed)
  unfolding tick_warmup
  tick_warmup-Keeps now seed = record {
    keeps = λ c h.
        then_Kept Q r (check_timeout-Keeps Q r now c.config.warmup_time)
          (λ timeout.
            seq-Keeps
              (if-Keeps timeout (start_round_train-Keeps Q r now seed 0)
                (move_clients_to_exited-Keeps Q r 0))
              (check_min_clients-Keeps now))
          c h;
  }

  start_warmup_epoch-Keeps :
      ⦃node : NodeIdentity T⦄ (pending : List T) (now : ℕ)
      → AllPending Q pending
      → Kept Q r (tick_waiting_for_members (some pending) now)
  unfolding tick_waiting_for_members psyche.Coordinator.Lifecycle.start_warmup
  start_warmup_epoch-Keeps pending now q = record {
    keeps = λ c h.
        if_Kept Q r (leb c.config.init_min_clients (length pending % u16_mod))
          (bind-Keeps (check_timeout-Keeps Q r now c.config.waiting_for_members_extra_time)
            (λ ready.
              seq-Keeps
                (when-Keeps ready (
                  bind-Keeps (current_round_unchecked-Keeps Q r) (λ x.
                    seq-Keeps (move_clients_to_exited-Keeps Q r x.height) (
                      seq-Keeps (modify-Keeps (λ d k. start_epoch-Members pending now d q k))
                        (change_state-Keeps Q r now warmup)))))
                (pure-Keeps ticked)))
          (pure-Keeps ticked) c h;
  }

  next_step-Keeps : Kept Q r next_step
  unfolding next_step
  next_step-Keeps = record {
    keeps = λ c h.
        then_Kept Q r (checked-Keeps u32_mod (c.progress.step + 1))
          (λ next. modify-Keeps (λ d k. k)) c h;
  }

  set_last_step-Keeps : (now : ℕ) → Kept Q r (set_last_step now)
  unfolding set_last_step
  set_last_step-Keeps now = bind-Keeps (check_epoch_timeout-Keeps Q r now) (λ over. record {
    keeps = λ c h.
        (when-Keeps (over && not (last_step_set c)) (record {
          keeps = λ d k.
              then_Kept Q r (checked-Keeps u32_mod (d.progress.step + 2))
                (λ last_step. when-Keeps (leb 4 last_step) (modify-Keeps (λ e l. l))) d k;
        })).keeps
          c h;
  })

  pub witness_quorum-Keeps : (n : ℕ) → Kept Q r (witness_quorum n)
  unfolding witness_quorum
  witness_quorum-Keeps n = record {
    keeps = λ c h.
        elim (Bool-cases
          ((if c.config.witness_nodes == 0 then n else c.config.witness_nodes) == 0)) [
            | inl nobody ↦ rw (nobody, Leaves) tt
            | inr some_nodes ↦ rw (some_nodes, Leaves) h
          ];
  }

  must_stop-Keeps : (n : ℕ) → Kept Q r (must_stop n)
  unfolding must_stop
  must_stop-Keeps n = record {
    keeps = λ c h.
        if_Kept Q r (ltb (length c.epoch_state.clients) c.config.min_clients) (pure-Keeps true)
          (bind-Keeps (witness_quorum-Keeps n) (λ quorum. pure-Keeps _)) c h;
  }

  end_round-Keeps : ⦃f : Float64⦄ (now seed n : ℕ) → Kept Q r (end_round now seed n)
  unfolding end_round
  end_round-Keeps now seed n = seq-Keeps (set_last_step-Keeps now) (record {
    keeps = λ c h.
        (if-Keeps (last_step_set c && c.progress.step == c.epoch_state.last_step)
            (seq-Keeps (start_cooldown-Keeps Q r now) (pure-Keeps ticked))
            (bind-Keeps (must_stop-Keeps n) (λ stop.
              if-Keeps stop (seq-Keeps (start_cooldown-Keeps Q r now) (pure-Keeps ticked))
                (seq-Keeps (start_round_train-Keeps Q r now seed 0) (pure-Keeps ticked))))).keeps
          c h;
  })

  -- What follows the reset of the first-round flag.
  witness_round-Keeps :
      ⦃f : Float64⦄ (now seed : ℕ)
      → Kept Q r {A = TickResult} (do
        next_step
        round ← current_round_unchecked
        move_clients_to_exited round.height
        if length round.witnesses % u16_mod == 0
            then withdraw_all >> start_cooldown now >> pure ticked
            else end_round now seed (length round.witnesses % u16_mod))
  witness_round-Keeps now seed = seq-Keeps next_step-Keeps (
      bind-Keeps (current_round_unchecked-Keeps Q r) (λ x.
        seq-Keeps (move_clients_to_exited-Keeps Q r x.height) (
          if-Keeps (length x.witnesses % u16_mod == 0)
            (seq-Keeps (seq-Keeps (withdraw_all-Keeps Q r) (start_cooldown-Keeps Q r now))
              (pure-Keeps ticked))
            (end_round-Keeps now seed (length x.witnesses % u16_mod)))))

  tick_round_witness-Keeps : ⦃f : Float64⦄ (now seed : ℕ) → Kept Q r (tick_round_witness now seed)
  unfolding tick_round_witness
  tick_round_witness-Keeps now seed = record {
    keeps = λ c h.
        then_Kept Q r (check_timeout-Keeps Q r now c.config.round_witness_time)
          (λ timeout.
            if-Keeps timeout (record { keeps = λ d k. (witness_round-Keeps now seed).keeps _ k })
              (pure-Keeps ticked))
          c h;
  }

  target-Keeps : ⦃f : Float64⦄ (o : Option Round) → Kept Q r (get_target_global_batch_size o)
  unfolding get_target_global_batch_size total_tokens_processed
  target-Keeps o = record {
    keeps =
        λ c h. then_Kept Q r (checked-Keeps u64_mod _) (λ tokens. batch_size-Keeps Q r tokens) c h;
  }

  end_epoch-Keeps : ⦃f : Float64⦄ → Kept Q r end_epoch
  unfolding end_epoch
  end_epoch-Keeps = record {
    keeps = λ c h.
        then_Kept Q r (target-Keeps (current_round c))
          (λ size. bind-Keeps (current_round_unchecked-Keeps Q r) (λ x.
            bind-Keeps (checked-Keeps u64_mod (x.data_index + size)) (λ index. record {
              keeps = λ d k.
                  then_Kept Q r (checked-Keeps u16_mod (d.progress.epoch + 1))
                    (λ next. modify-Keeps (λ e l. l)) d k;
            })))
          c h;
  }

  settle-Keeps : (now : ℕ) → Kept Q r (settle now)
  unfolding settle
  settle-Keeps now = record {
    keeps = λ c h.
        if_Kept Q r c.pending_pause
          (seq-Keeps (withdraw_all-Keeps Q r)
            (seq-Keeps (change_state-Keeps Q r now paused) (modify-Keeps (λ d k. k))))
          (seq-Keeps (start_waiting_for_members-Keeps Q r now) (modify-Keeps (λ d k. k))) c h;
  }

  finish_epoch-Keeps : ⦃f : Float64⦄ (now : ℕ) → Kept Q r (finish_epoch now)
  unfolding finish_epoch
  finish_epoch-Keeps now = seq-Keeps end_epoch-Keeps (
      bind-Keeps (current_round_unchecked-Keeps Q r) (λ x.
        seq-Keeps (move_clients_to_exited-Keeps Q r x.height) (
          seq-Keeps (modify-Keeps (λ d k. k))
            (seq-Keeps (settle-Keeps now) (pure-Keeps (epoch_end true))))))

  tick_cooldown-Keeps : ⦃f : Float64⦄ (now : ℕ) → Kept Q r (tick_cooldown now)
  unfolding tick_cooldown
  tick_cooldown-Keeps now = record {
    keeps = λ c h.
        then_Kept Q r (check_timeout-Keeps Q r now c.config.cooldown_time)
          (λ timeout. if-Keeps timeout (finish_epoch-Keeps now) (pure-Keeps ticked)) c h;
  }

  tick_in-Keeps :
      ⦃node : NodeIdentity T⦄ ⦃f : Float64⦄ (state : RunState) (pending : List T) (now seed : ℕ)
      → AllPending Q pending
      → Kept Q r (tick_in state (some pending) now seed)
  tick_in-Keeps uninitialized pending now seed q = fail-Keeps halted
  tick_in-Keeps finished pending now seed q = fail-Keeps halted
  tick_in-Keeps paused pending now seed q = fail-Keeps halted
  tick_in-Keeps waiting_for_members pending now seed q = start_warmup_epoch-Keeps pending now q
  tick_in-Keeps warmup pending now seed q = tick_warmup-Keeps now seed
  tick_in-Keeps round_train pending now seed q = tick_round_train-Keeps now
  tick_in-Keeps round_witness pending now seed q = tick_round_witness-Keeps now seed
  tick_in-Keeps cooldown pending now seed q = tick_cooldown-Keeps now

  pub tick-Keeps :
      ⦃node : NodeIdentity T⦄ ⦃f : Float64⦄ (pending : List T) (now seed : ℕ)
      → AllPending Q pending
      → Kept Q r (tick (some pending) now seed)
  unfolding tick
  tick-Keeps pending now seed q = record {
    keeps = λ c h. (tick_in-Keeps c.run_state pending now seed q).keeps c h;
  }
