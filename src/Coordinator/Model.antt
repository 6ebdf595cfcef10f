-- ===== src/Coordinator/Model.antt =====
-- shared/coordinator/src/model.rs: what is trained, and `Model::check`.
-- A fixed string is the list of its bytes, and an `f32` its bit pattern. The learning-rate schedule
-- of an LLM, which the coordinator stores and never reads, is left out.
use psyche.Core.Strings.{is_empty}
use psyche.Base.{ℕ, Bool, true, false, Option, List, ◌||◌, not, ◌==◌, if◌then◌else◌}

pub data LlmArchitecture : Type 0 where
  hf_llama hf_deepseek hf_auto torchtitan : LlmArchitecture

pub data LlmTrainingDataType : Type 0 where
  pretraining finetuning : LlmTrainingDataType

pub data TokenSize : Type 0 where
  two_bytes four_bytes : TokenSize

pub data Shuffle : Type 0 where
  dont_shuffle : Shuffle
  seeded : List ℕ → Shuffle

pub data HttpTrainingDataLocation : Type 0 where
  single_url : List ℕ → HttpTrainingDataLocation
  -- url_template, start_index, n_left_pad_zeros, num_files
  numbered_files : List ℕ → ℕ → ℕ → ℕ → HttpTrainingDataLocation
  -- bucket_name, filter_directory
  gcp : List ℕ → List ℕ → HttpTrainingDataLocation

pub record HttpLlmTrainingDataLocation : Type 0 where
  pub location : HttpTrainingDataLocation
  pub token_size_in_bytes : TokenSize
  pub shuffle : Shuffle

pub data LlmTrainingDataLocation : Type 0 where
  dummy : LlmTrainingDataLocation
  server local weighted_http preprocessed : List ℕ → LlmTrainingDataLocation
  http : HttpLlmTrainingDataLocation → LlmTrainingDataLocation

pub record HubRepo : Type 0 where
  pub repo_id : List ℕ
  pub revision : Option (List ℕ)

pub data Checkpoint : Type 0 where
  ephemeral : Checkpoint
  dummy hub p2p : HubRepo → Checkpoint

-- shared/core/src/definitions.rs
pub data OptimizerDefinition : Type 0 where
  dummy : OptimizerDefinition
  -- betas, weight_decay, eps, clip_grad_norm
  adam_w : ℕ × ℕ → ℕ → ℕ → Option ℕ → OptimizerDefinition
  -- clip_grad_norm, weight_decay, compression_decay, compression_topk, compression_chunk,
  -- quantize_1bit
  distro : Option ℕ → Option ℕ → ℕ → ℕ → ℕ → Bool → OptimizerDefinition

pub record Llm : Type 0 where
  pub max_seq_len : ℕ
  pub cold_start_warmup_steps : ℕ
  pub architecture : LlmArchitecture
  pub checkpoint : Checkpoint
  pub data_type : LlmTrainingDataType
  pub data_location : LlmTrainingDataLocation
  pub optimizer : OptimizerDefinition

-- `enum Model`, whose only constructor holds an LLM
pub data Model : Type 0 where
  llm : Llm → Model

bad_http_location : HttpTrainingDataLocation → Bool
unfolding is_empty
bad_http_location (single_url url) = is_empty url
bad_http_location (numbered_files url_template start pad num_files) =
    is_empty url_template || num_files == 0
bad_http_location (gcp bucket_name dir) = is_empty bucket_name

bad_data_location : LlmTrainingDataLocation → Bool
unfolding is_empty bad_http_location
bad_data_location LlmTrainingDataLocation.dummy = false
bad_data_location (server url) = is_empty url
bad_data_location (local path) = false
bad_data_location (http h) = bad_http_location h.location
bad_data_location (weighted_http url) = is_empty url
bad_data_location (preprocessed url) = is_empty url

bad_checkpoint : Checkpoint → Bool
unfolding is_empty
bad_checkpoint (Checkpoint.dummy repo) = false
bad_checkpoint ephemeral = true
bad_checkpoint (hub repo) = is_empty repo.repo_id
bad_checkpoint (p2p repo) = is_empty repo.repo_id

good_optimizer : OptimizerDefinition → Bool
good_optimizer OptimizerDefinition.dummy = false
good_optimizer (adam_w betas decay eps clip) = true
good_optimizer (distro clip decay comp topk chunk quantize) = true

-- `Model::check`
pub check : Model → Bool
unfolding bad_data_location bad_checkpoint good_optimizer
check (llm m) =
    if m.max_seq_len == 0
    then false
    else if bad_data_location m.data_location
    then false
    else if bad_checkpoint m.checkpoint
    then false
    else if not (good_optimizer m.optimizer)
    then false
    else true
