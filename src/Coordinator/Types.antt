-- ===== src/Coordinator/Types.antt =====
-- The state of shared/coordinator/src/coordinator.rs and the proofs of committee_selection.rs.
-- A `FixedVec` is the list of its items, whose capacity each push checks (Core/FixedVec refines the
-- array to that list), and a `SmallBoolean` is a Boolean. A node identity is a parameter.
use psyche.Base.{ℕ, Bool, false, List, [], Method, replicate}
use psyche.Core.Bloom.{Bloom}
use psyche.Coordinator.Model.{Model}

-- `trait NodeIdentity`: what the coordinator uses of it, equality and the bytes of `as_ref`.
pub record NodeIdentity (T : Type 0) : Type 0 where
  pub same : T → T → Bool
  pub as_ref : T → List ℕ

abbrev pub solana_max_num_clients : ℕ
solana_max_num_clients = 256

abbrev pub solana_max_num_witnesses : ℕ
solana_max_num_witnesses = 32

abbrev pub num_stored_rounds : ℕ
num_stored_rounds = 4

pub data RunState : Type 0 where
  uninitialized waiting_for_members warmup round_train round_witness cooldown finished paused :
      RunState

pub RunState-discrete : Discrete RunState
RunState-discrete = hlevel

pub data ClientState : Type 0 where
  healthy dropped withdrawn ejected : ClientState

pub data CoordinatorError : Type 0 where
  no_active_round invalid_witness invalid_run_state duplicate_witness invalid_health_check halted
        witnesses_full cannot_resume invalid_withdraw invalid_committee_selection
        invalid_committee_proof :
      CoordinatorError

pub data TickResult : Type 0 where
  ticked : TickResult
  epoch_end : Bool → TickResult

pub data Committee : Type 0 where
  tie_breaker verifier trainer : Committee

pub record CommitteeProof : Type 0 where
  pub committee : Committee
  pub position : ℕ
  pub index : ℕ

pub record WitnessProof : Type 0 where
  pub position : ℕ
  pub index : ℕ
  pub witness : Bool

pub record Witness : Type 0 where
  pub proof : WitnessProof
  pub participant_bloom : Bloom
  pub broadcast_bloom : Bloom
  pub broadcast_merkle : List ℕ

pub record Client (T : Type 0) : Type 0 where
  pub id : T
  pub state : ClientState
  pub exited_height : ℕ

pub record Round : Type 0 where
  pub witnesses : List Witness
  pub data_index : ℕ
  pub random_seed : ℕ
  pub height : ℕ
  pub clients_len : ℕ
  pub tie_breaker_tasks : ℕ

pub record CoordinatorConfig : Type 0 where
  pub warmup_time : ℕ
  pub cooldown_time : ℕ
  pub max_round_train_time : ℕ
  pub round_witness_time : ℕ
  pub global_batch_size_warmup_tokens : ℕ
  pub epoch_time : ℕ
  pub total_steps : ℕ
  pub init_min_clients : ℕ
  pub min_clients : ℕ
  pub witness_nodes : ℕ
  pub global_batch_size_start : ℕ
  pub global_batch_size_end : ℕ
  pub verification_percent : ℕ
  pub waiting_for_members_extra_time : ℕ

pub record CoordinatorEpochState (T : Type 0) : Type 0 where
  pub rounds : List Round
  pub clients : List (Client T)
  pub exited_clients : List (Client T)
  pub rounds_head : ℕ
  pub start_step : ℕ
  pub last_step : ℕ
  pub start_timestamp : ℕ
  pub first_round : Bool
  pub cold_start_epoch : Bool

pub record CoordinatorProgress : Type 0 where
  pub epoch : ℕ
  pub step : ℕ
  pub epoch_start_data_index : ℕ

pub record Coordinator (T : Type 0) : Type 0 where
  pub run_id : List ℕ
  pub run_state : RunState
  pub model : Model
  pub config : CoordinatorConfig
  pub progress : CoordinatorProgress
  pub epoch_state : CoordinatorEpochState T
  pub run_state_start_unix_timestamp : ℕ
  pub pending_pause : Bool

-- A method of the coordinator.
abbrev pub Coord : Type 0 → Type 0 → Type 0
Coord T A = Method CoordinatorError (Coordinator T) A

-- `Client::new`
unfoldable pub new_client : {T : Type 0} → T → Client T
new_client id = record { id = id; state = healthy; exited_height = 0 }

-- `Round::zeroed()`, which is also its default
abbrev pub zero_round : Round
zero_round = record {
  witnesses = [];
  data_index = 0;
  random_seed = 0;
  height = 0;
  clients_len = 0;
  tie_breaker_tasks = 0;
}

-- `bytemuck::write_zeroes` on the epoch state
abbrev pub zero_epoch_state : {T : Type 0} → CoordinatorEpochState T
zero_epoch_state = record {
  rounds = replicate num_stored_rounds zero_round;
  clients = [];
  exited_clients = [];
  rounds_head = 0;
  start_step = 0;
  last_step = 0;
  start_timestamp = 0;
  first_round = false;
  cold_start_epoch = false;
}
