-- ===== src/Coordinator/Invariant.antt =====
-- What holds of a coordinator between two calls, and when its counters have room to grow.
use psyche.Base.{
  ℕ, ◌+◌, ◌*◌, ◌%◌, ◌≤◌, ◌<◌, ◌≡◌, some, length, get_elem?, u16_mod, u32_mod, u64_mod,
}
use psyche.Coordinator.Types.{Round, Coordinator, CoordinatorEpochState, num_stored_rounds}
use psyche.Coordinator.Config.{Float64}
use psyche.Coordinator.Rounds.{get_sequence_length}

-- A round whose successor's words do not overflow.
pub record RoundFits (seq_len : ℕ) (r : Round) : Type 0 where
  pub tokens : r.data_index * seq_len < u64_mod
  pub index : r.data_index + u16_mod < u64_mod
  pub height : r.height + 1 < u32_mod

module _ {T : Type 0} where
  -- The ring has four rounds, the head is one of them and follows the height of the current
  -- round; the clients of the epoch, those that left included, fit into either list.
  pub record EpochIsValid (e : CoordinatorEpochState T) : Type 0 where
    pub ring : length e.rounds ≡ num_stored_rounds
    pub head : e.rounds_head < num_stored_rounds
    pub in_step :
        (r : Round)
        → get_elem? e.rounds e.rounds_head ≡ some r
        → r.height % num_stored_rounds ≡ e.rounds_head
    pub room : length e.clients + length e.exited_clients ≤ 256

  abbrev pub IsValid : Coordinator T → Type 0
  IsValid c = EpochIsValid c.epoch_state

  -- The next call's additions and products stay within their machine words.
  pub record Fits (c : Coordinator T) : Type 0 where
    pub rounds :
        (r : Round)
        → get_elem? c.epoch_state.rounds c.epoch_state.rounds_head ≡ some r
        → RoundFits (get_sequence_length c) r
    pub step : c.progress.step + 3 < u32_mod
    pub epoch : c.progress.epoch + 1 < u16_mod
    pub batch_size : c.config.global_batch_size_end < u16_mod
    pub warmup : c.config.warmup_time + c.run_state_start_unix_timestamp < u64_mod
    pub cooldown : c.config.cooldown_time + c.run_state_start_unix_timestamp < u64_mod
    pub train : c.config.max_round_train_time + c.run_state_start_unix_timestamp < u64_mod
    pub witness : c.config.round_witness_time + c.run_state_start_unix_timestamp < u64_mod
    pub members :
        c.config.waiting_for_members_extra_time + c.run_state_start_unix_timestamp < u64_mod
    pub epoch_time : c.epoch_state.start_timestamp + c.config.epoch_time < u64_mod

-- `as u16` yields a `u16`.
pub record RoundsToU16 (f : Float64) : Type 0 where
  pub bounded : (x : ℕ) → f.round_u16 x < u16_mod
