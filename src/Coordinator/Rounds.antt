-- ===== src/Coordinator/Rounds.antt =====
-- The ring of stored rounds, the clients of a past round, and the batch sizes:
-- `current_round` to `get_global_batch_size_for_tokens` of shared/coordinator/src/coordinator.rs.
use psyche.Base.{
  ℕ, zero, suc, ◌+◌, ◌-◌, ◌*◌, Bool, true, false, Option, none, some, List, [], ◌∷◌, ◌&&◌, ◌==◌,
  ltb, leb, if◌then◌else◌, length, get_elem?, set, unwrap, gets, modify, checked, ◌>>=◌, u64_mod,
}
use mathlib.Core.List.{reverse}
use psyche.Coordinator.Model.{Model, llm}
use psyche.Coordinator.Types.{
  RunState, uninitialized, waiting_for_members, warmup, finished, paused, Client, Round,
  Coordinator, Coord, num_stored_rounds,
}
use psyche.Coordinator.Config.{Float64, get_batch_size}

abbrev pub is_active : RunState → Bool
is_active waiting_for_members = false
is_active warmup = false
is_active uninitialized = false
is_active finished = false
is_active paused = false
is_active _ = true

abbrev pub is_halted : RunState → Bool
is_halted uninitialized = true
is_halted finished = true
is_halted paused = true
is_halted _ = false

abbrev sequence_length : Model → ℕ
sequence_length (llm m) = m.max_seq_len

module _ {T : Type 0} where
  unfoldable pub current_round : Coordinator T → Option Round
  current_round c = get_elem? c.epoch_state.rounds c.epoch_state.rounds_head

  -- The read through `current_round_unchecked`.
  unfoldable pub current_round_unchecked : Coord T Round
  current_round_unchecked c = unwrap (current_round c) c

  -- A write through `current_round_mut_unchecked`.
  unfoldable pub update_current_round : (Round → Round) → Coord T (Unit {0})
  update_current_round f = do
    round ← gets current_round
    r ← unwrap round
    modify λ c. record c {
      epoch_state = record c.epoch_state {
        rounds = set c.epoch_state.rounds c.epoch_state.rounds_head (f r);
      };
    }

  unfoldable pub previous_round : Coordinator T → Option Round
  previous_round c = elim (current_round c) [
    | none ↦ none
    | some round ↦
        if c.epoch_state.rounds_head == 0 && round.height == 0
        then none
        else if c.epoch_state.rounds_head == 0
        then get_elem? c.epoch_state.rounds (num_stored_rounds - 1)
        else get_elem? c.epoch_state.rounds (c.epoch_state.rounds_head - 1)
  ]

  unfoldable pub previous_previous_round : Coordinator T → Option Round
  previous_previous_round c = elim (current_round c) [
    | none ↦ none
    | some round ↦
        if c.epoch_state.rounds_head == 0 && leb round.height 1
        then none
        else if c.epoch_state.rounds_head == 0
        then get_elem? c.epoch_state.rounds (num_stored_rounds - 2)
        else if c.epoch_state.rounds_head == 1
        then get_elem? c.epoch_state.rounds (num_stored_rounds - 1)
        else get_elem? c.epoch_state.rounds (c.epoch_state.rounds_head - 2)
  ]

  unfoldable pub active : Coordinator T → Bool
  active c = is_active c.run_state

  unfoldable pub halted : Coordinator T → Bool
  halted c = is_halted c.run_state

  unfoldable pub get_client_at_historical_index : Coordinator T → ℕ → ℕ → Option (Client T)
  get_client_at_historical_index c n prev_clients_len =
      if ltb n (length c.epoch_state.clients)
      then get_elem? c.epoch_state.clients n
      else if ltb n prev_clients_len
      then get_elem? (reverse c.epoch_state.exited_clients) (prev_clients_len - n - 1)
      else none

  -- The `filter_map` over `i .. i + n`.
  pub historical_clients_from : Coordinator T → ℕ → ℕ → ℕ → List (Client T)
  historical_clients_from c clients_len i zero = []
  historical_clients_from c clients_len i (suc n) =
      let rest = historical_clients_from c clients_len (i + 1) n in
      elim (get_client_at_historical_index c i clients_len) [
        | none ↦ rest
        | some client ↦ client ∷ rest
      ]

  unfoldable pub get_historical_clients : Coordinator T → ℕ → List (Client T)
  get_historical_clients c clients_len = historical_clients_from c clients_len 0 clients_len

  unfoldable pub get_sequence_length : Coordinator T → ℕ
  get_sequence_length c = sequence_length c.model

  -- The first data index of a round, or of the epoch where no round is given.
  abbrev start_index : Coordinator T → Option Round → ℕ
  start_index c none = c.progress.epoch_start_data_index
  start_index c (some r) = r.data_index

  unfoldable pub total_tokens_processed : Option Round → Coord T ℕ
  total_tokens_processed round c = checked u64_mod (start_index c round * get_sequence_length c) c

  unfoldable pub get_global_batch_size_for_tokens : ⦃f : Float64⦄ → ℕ → Coord T ℕ
  get_global_batch_size_for_tokens tokens_processed =
      gets λ c. get_batch_size c.config tokens_processed

  unfoldable pub get_target_global_batch_size : ⦃f : Float64⦄ → Option Round → Coord T ℕ
  get_target_global_batch_size round = do
    tokens_processed ← total_tokens_processed round
    get_global_batch_size_for_tokens tokens_processed
