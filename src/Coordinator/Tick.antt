-- ===== src/Coordinator/Tick.antt =====
-- `tick` and its helpers for each run state, of shared/coordinator/src/coordinator.rs.
pub mod Laws
pub mod Pauses
pub mod RoundEnds
pub mod Cooldowns
pub mod Epochs
pub mod Edges
pub mod Steps
use psyche.Base.{
  ℕ, zero, suc, ◌+◌, ◌-◌, ◌*◌, ◌/◌, ◌%◌, Bool, true, false, Option, none, some, List, [], ◌∷◌, ◌++◌,
  ◌&&◌, ◌||◌, not, ◌==◌, ltb, leb, if◌then◌else◌, length, get_elem?, set, take, map, Outcome, ok,
  pure, fail, unwrap, gets, modify, checked, fail_if, assert, when, ◌>>=◌, ◌>>◌, u8_mod, u16_mod,
  u32_mod, u64_mod,
}
use psyche.Coordinator.Model.{Model, llm, Checkpoint, ephemeral, hub, p2p}
use psyche.Coordinator.Types.{
  NodeIdentity, RunState, uninitialized, waiting_for_members, warmup, round_train, round_witness,
  cooldown, finished, paused, TickResult, ticked, epoch_end, CoordinatorError, halted, Client,
  Round, Coordinator, Coord, solana_max_num_clients, new_client, zero_epoch_state,
}
use psyche.Coordinator.Config.{Float64}
use psyche.Coordinator.Rounds.{current_round, current_round_unchecked, get_target_global_batch_size}
use psyche.Coordinator.Lifecycle.{
  change_state, check_timeout, check_epoch_timeout, last_step_set, start_cooldown, start_warmup,
  start_waiting_for_members, move_clients_to_exited, start_round_train, withdraw_all,
}
use psyche.Coordinator.Quorum.{witness_quorum}

-- Without a peer of the previous epoch the checkpoint comes from the hub.
unfoldable pub hub_checkpoint : Model → Model
hub_checkpoint (llm m) = elim m.checkpoint [
  | p2p repo ↦ llm (record m { checkpoint = hub repo })
  | _ ↦ llm m
]

-- After an epoch the checkpoint comes from the peers.
unfoldable pub p2p_checkpoint : Model → Model
p2p_checkpoint (llm m) = elim m.checkpoint [
  | hub repo ↦ llm (record m { checkpoint = p2p repo })
  | Checkpoint.dummy repo ↦ llm (record m { checkpoint = p2p repo })
  | _ ↦ llm m
]

module _ {T : Type 0} where
  -- `pending_clients_unordered.contains(id)`: the hash set decides by equality
  unfoldable pub contains : ⦃node : NodeIdentity T⦄ → List T → T → Bool
  contains [] id = false
  contains ⦃node⦄ (x ∷ xs) id = node.same x id || contains xs id

  unfoldable pub any_connected : ⦃node : NodeIdentity T⦄ → List (Client T) → List T → Bool
  any_connected [] pending = false
  any_connected (c ∷ cs) pending = contains pending c.id || any_connected cs pending

  -- The writes of `tick_waiting_for_members` once the members are there.
  unfoldable pub start_epoch : ⦃node : NodeIdentity T⦄ → List T → ℕ → Coordinator T → Coordinator T
  start_epoch pending unix_timestamp c = record c {
    model = if any_connected c.epoch_state.clients pending then c.model else hub_checkpoint c.model;
    epoch_state = record (zero_epoch_state {T = T}) {
      first_round = true;
      cold_start_epoch = c.epoch_state.cold_start_epoch;
      start_step = c.progress.step;
      start_timestamp = unix_timestamp;
      clients = map new_client (take solana_max_num_clients pending);
    };
  }

  unfoldable pub tick_waiting_for_members :
      ⦃node : NodeIdentity T⦄ → Option (List T) → ℕ → Coord T TickResult
  tick_waiting_for_members none unix_timestamp c = ok ticked c
  tick_waiting_for_members (some pending_clients) unix_timestamp c =
      if leb c.config.init_min_clients (length pending_clients % u16_mod)
      then (do
        ready ← check_timeout unix_timestamp c.config.waiting_for_members_extra_time
        when ready (do
          round ← current_round_unchecked
          move_clients_to_exited round.height
          modify (start_epoch pending_clients unix_timestamp)
          start_warmup unix_timestamp)
        pure ticked)
          c
      else ok ticked c

  -- The end of `tick_warmup`: without the minimum of clients the epoch ends.
  unfoldable pub check_min_clients : ℕ → Coord T TickResult
  check_min_clients unix_timestamp = do
    short ← gets λ c. ltb (length c.epoch_state.clients % u16_mod) c.config.min_clients
    if short
        then start_waiting_for_members unix_timestamp >> pure (epoch_end false)
        else pure ticked

  unfoldable pub tick_warmup : ⦃f : Float64⦄ → ℕ → ℕ → Coord T TickResult
  tick_warmup unix_timestamp random_seed = do
    warmup_time ← gets λ c. c.config.warmup_time
    timeout ← check_timeout unix_timestamp warmup_time
    if timeout then start_round_train unix_timestamp random_seed 0 else move_clients_to_exited 0
    check_min_clients unix_timestamp

  unfoldable pub tick_round_train : ℕ → Coord T TickResult
  tick_round_train unix_timestamp = do
    max_round_train_time ← gets λ c. c.config.max_round_train_time
    timeout ← check_timeout unix_timestamp max_round_train_time
    when timeout (change_state unix_timestamp round_witness)
    pure ticked

  -- `self.epoch_state.first_round = false.into()`
  abbrev clear_first_round : Coordinator T → Coordinator T
  clear_first_round c = record c { epoch_state = record c.epoch_state { first_round = false } }

  -- `self.progress.step += 1`
  unfoldable pub next_step : Coord T (Unit {0})
  next_step = do
    step ← gets λ c. c.progress.step
    next ← checked u32_mod (step + 1)
    modify λ c. record c { progress = record c.progress { step = next } }

  -- Once the epoch has lasted its time, its last step is set, once.
  unfoldable pub set_last_step : ℕ → Coord T (Unit {0})
  set_last_step unix_timestamp = do
    epoch_over ← check_epoch_timeout unix_timestamp
    already ← gets last_step_set
    when (epoch_over && not already) (do
      step ← gets λ c. c.progress.step
      last_step ← checked u32_mod (step + 2)
      when (leb 4 last_step)
          (modify λ c. record c { epoch_state = record c.epoch_state { last_step = last_step } }))

  abbrev reached_last_step : Coordinator T → Bool
  reached_last_step c = last_step_set c && c.progress.step == c.epoch_state.last_step

  -- `a || b || c || d`, whose second test is made only if the first fails
  unfoldable pub must_stop : ℕ → Coord T Bool
  must_stop num_witnesses c =
      if ltb (length c.epoch_state.clients) c.config.min_clients
      then ok true c
      else (do
        quorum ← witness_quorum num_witnesses
        pure (
            ltb num_witnesses quorum
            || leb c.config.total_steps c.progress.step
            || c.pending_pause))
          c

  -- The part of `tick_round_witness` that follows the check for witnesses.
  unfoldable pub end_round : ⦃f : Float64⦄ → ℕ → ℕ → ℕ → Coord T TickResult
  end_round unix_timestamp random_seed num_witnesses = do
    set_last_step unix_timestamp
    reached ← gets reached_last_step
    if reached then start_cooldown unix_timestamp >> pure ticked else (do
      stop ← must_stop num_witnesses
      if stop
          then start_cooldown unix_timestamp >> pure ticked
          else start_round_train unix_timestamp random_seed 0 >> pure ticked)

  unfoldable pub tick_round_witness : ⦃f : Float64⦄ → ℕ → ℕ → Coord T TickResult
  tick_round_witness unix_timestamp random_seed = do
    round_witness_time ← gets λ c. c.config.round_witness_time
    timeout ← check_timeout unix_timestamp round_witness_time
    if timeout
        then (do
          modify clear_first_round
          next_step
          round ← current_round_unchecked
          let num_witnesses = length round.witnesses % u16_mod
          move_clients_to_exited round.height
          if num_witnesses == 0
              then withdraw_all >> start_cooldown unix_timestamp >> pure ticked
              else end_round unix_timestamp random_seed num_witnesses)
        else pure ticked

  -- The writes of `tick_cooldown` to the progress.
  unfoldable pub end_epoch : ⦃f : Float64⦄ → Coord T (Unit {0})
  end_epoch = do
    round? ← gets current_round
    last_round_batch_size ← get_target_global_batch_size round?
    round ← current_round_unchecked
    index ← checked u64_mod (round.data_index + last_round_batch_size)
    epoch ← gets λ c. c.progress.epoch
    next ← checked u16_mod (epoch + 1)
    modify λ c. record c {
      progress = record c.progress { epoch_start_data_index = index; epoch = next };
    }

  abbrev set_cold_start_epoch : Bool → Coordinator T → Coordinator T
  set_cold_start_epoch b c = record c {
    epoch_state = record c.epoch_state { cold_start_epoch = b };
  }

  -- The end of `tick_cooldown`: the run pauses if that was asked for, or goes on.
  unfoldable pub settle : ℕ → Coord T (Unit {0})
  settle unix_timestamp c =
      if c.pending_pause
      then (do
        withdraw_all
        change_state unix_timestamp paused
        modify λ c. set_cold_start_epoch true (record c { pending_pause = false }))
          c
      else (do start_waiting_for_members unix_timestamp; modify (set_cold_start_epoch false)) c

  -- The part of `tick_cooldown` that follows its timeout.
  unfoldable pub finish_epoch : ⦃f : Float64⦄ → ℕ → Coord T TickResult
  finish_epoch unix_timestamp = do
    end_epoch
    round ← current_round_unchecked
    move_clients_to_exited round.height
    modify λ c. record c { model = p2p_checkpoint c.model }
    settle unix_timestamp
    pure (epoch_end true)

  unfoldable pub tick_cooldown : ⦃f : Float64⦄ → ℕ → Coord T TickResult
  tick_cooldown unix_timestamp = do
    cooldown_time ← gets λ c. c.config.cooldown_time
    timeout ← check_timeout unix_timestamp cooldown_time
    if timeout then finish_epoch unix_timestamp else pure ticked

  -- `tick`, by the run state
  abbrev pub tick_in :
      ⦃node : NodeIdentity T⦄ ⦃f : Float64⦄
      → RunState
      → Option (List T)
      → ℕ
      → ℕ
      → Coord T TickResult
  tick_in uninitialized new_clients unix_timestamp random_seed = fail halted
  tick_in finished new_clients unix_timestamp random_seed = fail halted
  tick_in paused new_clients unix_timestamp random_seed = fail halted
  tick_in waiting_for_members new_clients unix_timestamp random_seed =
      tick_waiting_for_members new_clients unix_timestamp
  tick_in warmup new_clients unix_timestamp random_seed = tick_warmup unix_timestamp random_seed
  tick_in round_train new_clients unix_timestamp random_seed = tick_round_train unix_timestamp
  tick_in round_witness new_clients unix_timestamp random_seed =
      tick_round_witness unix_timestamp random_seed
  tick_in cooldown new_clients unix_timestamp random_seed = tick_cooldown unix_timestamp

  unfoldable pub tick :
      ⦃node : NodeIdentity T⦄ ⦃f : Float64⦄ → Option (List T) → ℕ → ℕ → Coord T TickResult
  tick new_clients unix_timestamp random_seed c =
      tick_in c.run_state new_clients unix_timestamp random_seed c
