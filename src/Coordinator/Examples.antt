-- ===== src/Coordinator/Examples.antt =====
-- The hashes, floats, identities and coordinators that the examples use.
pub mod Batches
pub mod Messages
pub mod Rounds
use psyche.Base.{
  ℕ, zero, suc, ◌+◌, ◌-◌, ◌*◌, ◌/◌, ◌%◌, ◌<◌, Bool, true, false, Option, none, some, List, [], ◌∷◌,
  ◌==◌, leb, if◌then◌else◌, replicate, u16_mod, arith,
}
use native.Mathlib.Nat.{mod-lt}
use psyche.Core.Hashing.{Hashing}
use psyche.Core.Bloom.{Bloom}
use psyche.Coordinator.Model.{
  Model, llm, LlmArchitecture, Checkpoint, LlmTrainingDataType, LlmTrainingDataLocation,
  OptimizerDefinition,
}
use psyche.Coordinator.Types.{
  NodeIdentity, RunState, round_train, dropped, healthy, Witness, WitnessProof, Client, Round,
  Coordinator, CoordinatorConfig, CoordinatorEpochState, zero_round,
}
use psyche.Coordinator.Config.{Float64}
use psyche.Coordinator.Invariant.{RoundsToU16}

abbrev sum : List ℕ → ℕ
sum [] = 0
sum (x ∷ xs) = x + sum xs

abbrev weigh : List ℕ → ℕ
weigh [] = 1
weigh (x ∷ xs) = x + 2 * weigh xs

-- A digest of 32 equal bytes, and the position of a key as the sum of its bytes.
instance unfoldable pub toy_hashing : Hashing
toy_hashing = record {
  sha256 = λ bytes. replicate 32 (weigh bytes % 256);
  hash_at_index = λ key k. sum key + k;
}

instance unfoldable pub toy_identity : NodeIdentity ℕ
toy_identity = record { same = λ a b. a == b; as_ref = λ a. a ∷ [] }

-- Whole numbers in place of floats, rounded to 16 bits.
instance unfoldable pub toy_floats : Float64
toy_floats = record {
  of_int = λ n. n;
  add = λ a b. a + b;
  sub = λ a b. a - b;
  mul = λ a b. a * b;
  div = λ a b. if b == 0 then 0 else a / b;
  round_u16 = λ n. n % u16_mod;
}

pub toy_floats-RoundsToU16 : RoundsToU16 toy_floats
unfolding toy_floats
toy_floats-RoundsToU16 = record { bounded = λ n. mod-lt n (omega arith) }

abbrev pub two_keys : Bloom
two_keys = record { keys = 1 ∷ 2 ∷ []; bits = replicate 64 false }

abbrev pub full_bloom : Bloom
full_bloom = record { keys = 1 ∷ 2 ∷ []; bits = replicate 64 true }

abbrev pub witness_at : ℕ → ℕ → Witness
witness_at position index = record {
  proof = record { position = position; index = index; witness = true };
  participant_bloom = two_keys;
  broadcast_bloom = full_bloom;
  broadcast_merkle = [];
}

abbrev pub small_model : Model
small_model = llm (record {
  max_seq_len = 8;
  cold_start_warmup_steps = 0;
  architecture = LlmArchitecture.hf_llama;
  checkpoint = Checkpoint.ephemeral;
  data_type = LlmTrainingDataType.pretraining;
  data_location = LlmTrainingDataLocation.dummy;
  optimizer = OptimizerDefinition.dummy;
})

abbrev pub small_config : CoordinatorConfig
small_config = record {
  warmup_time = 30;
  cooldown_time = 30;
  max_round_train_time = 15;
  round_witness_time = 1;
  global_batch_size_warmup_tokens = 0;
  epoch_time = 60;
  total_steps = 100;
  init_min_clients = 2;
  min_clients = 2;
  witness_nodes = 2;
  global_batch_size_start = 8;
  global_batch_size_end = 8;
  verification_percent = 0;
  waiting_for_members_extra_time = 3;
}

abbrev pub first_round : Round
first_round = record zero_round { clients_len = 3; random_seed = 5 }

abbrev pub member : ℕ → Client ℕ
member id = record { id = id; state = healthy; exited_height = 0 }

abbrev pub lost : ℕ → Client ℕ
lost id = record { id = id; state = dropped; exited_height = 0 }

-- Three clients, with the current round at the given height in the slot `head`.
abbrev pub running : RunState → List Round → ℕ → Coordinator ℕ
running state rounds head = record {
  run_id = [];
  run_state = state;
  model = small_model;
  config = small_config;
  progress = record { epoch = 0; step = 1; epoch_start_data_index = 0 };
  epoch_state = record {
    rounds = rounds;
    clients = member 10 ∷ member 11 ∷ member 12 ∷ [];
    exited_clients = [];
    rounds_head = head;
    start_step = 1;
    last_step = 0;
    start_timestamp = 100;
    first_round = false;
    cold_start_epoch = false;
  };
  run_state_start_unix_timestamp = 100;
  pending_pause = false;
}

abbrev pub first_rounds : List Round
first_rounds = first_round ∷ zero_round ∷ zero_round ∷ zero_round ∷ []

abbrev pub training : Coordinator ℕ
training = running round_train first_rounds 0
