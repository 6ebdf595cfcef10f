-- ===== src/Solana/Program.antt =====
-- The instructions of the on-chain coordinator: lib.rs and logic/ of
-- architectures/decentralized/solana-coordinator/programs/solana-coordinator/src.
pub mod Effects
pub mod Access
pub mod Owners
use psyche.Base.{
  ℕ, ◌+◌, Bool, true, false, Option, none, some, List, [], ◌∷◌, not, ◌==◌, ltb, if◌then◌else◌,
  length, Outcome, ok, err, panic, Method, pure, fail, panics, ok_or, gets, modify, fail_if,
  checked, ◌>>=◌, ◌>>◌, u64_mod, take, unwrap,
}
use psyche.Base.Keys.{find_key, put_key, drop_key}
use psyche.Core.Hashing.{Hashing}
use psyche.Core.Strings.{FixedString, from_str_truncated, try_from}
use psyche.Coordinator.Config.{Float64}
use psyche.Coordinator.Model.{Model, HubRepo}
use psyche.Coordinator.Types.{
  CoordinatorConfig, CoordinatorProgress, Committee, CommitteeProof, Witness,
}
use psyche.Coordinator.Rounds.{halted}
use psyche.Solana.Authorizer.{is_valid_for}
use psyche.Solana.Chain.{
  CoordinatorAccount, version_now, RawAccount, blank, live, CoordinatorInstance, Platform, Chain,
  ChainError, program, constraint_violated, account_missing, account_in_use,
  account_discriminator_already_set, Handler, load_instance, load_account, load_linked, store,
  bytes_from_string, with_nonce, by_owner, by_anyone,
}
use psyche.Solana.ClientsState.{ClientId}
use psyche.Solana.Instance.{
  ProgramError, CoordinatorInstanceState, Instance, Clock, RunMetadata, signer_mismatch,
  close_coordinator_not_halted, run_id_invalid_length, coordinator_account_incorrect_size,
  update_config_not_halted,
}
use psyche.Solana.Methods.{
  tick, witness, warmup_witness, health_check, checkpoint, set_future_epoch_rates, set_paused,
  update, join_run,
}
use psyche.Solana.Treasurer.{solana_run_id_max_len}

pub data Instruction : Type 0 where
  init_coordinator : ℕ → ℕ → List ℕ → List ℕ → Instruction
  free_coordinator : Instruction
  update_run :
      Option RunMetadata
      → Option CoordinatorConfig
      → Option Model
      → Option CoordinatorProgress
      → Instruction
  update_client_version : List ℕ → Instruction
  future_epoch_rates : Option ℕ → Option ℕ → Instruction
  join : ℕ → ClientId → Instruction
  pause_run : Bool → Instruction
  tick_run : Instruction
  send_witness : Witness → Instruction
  send_warmup_witness : Witness → Instruction
  send_health_check : ClientId → CommitteeProof → Instruction
  send_checkpoint : HubRepo → Instruction

-- An instruction with the key that signs it and the addresses of the instance and of the account.
pub record Transaction : Type 0 where
  pub signer : ℕ
  pub instance_key : ℕ
  pub account_key : ℕ
  pub clock : Clock
  pub instruction : Instruction

-- b"CoordinatorJoinRun"
abbrev pub join_run_authorization_scope : List ℕ
join_run_authorization_scope =
    67 ∷ 111 ∷ 111 ∷ 114 ∷ 100 ∷ 105 ∷ 110 ∷ 97 ∷ 116 ∷ 111 ∷ 114 ∷ 74 ∷ 111 ∷ 105 ∷ 110 ∷ 82 ∷ 117
    ∷ 110 ∷ []

abbrev pub client_version_len : ℕ
client_version_len = 96

abbrev pub first_state : Platform → List ℕ → List ℕ → CoordinatorInstanceState
first_state platform run_id client_version = record platform.zeroed {
  client_version = from_str_truncated client_version_len client_version;
  coordinator = record platform.zeroed.coordinator {
    run_id = from_str_truncated solana_run_id_max_len run_id;
  };
}

-- The account must hold zeros of the right number: `AccountDiscriminatorAlreadySet` is the answer
-- to one that is in use, which is of the right size.
unfoldable pub blank_account :
    ⦃platform : Platform⦄ → RawAccount → Method ChainError Chain (Unit {0})
blank_account ⦃platform⦄ (blank size) =
    fail_if (not (size == platform.space_with_discriminator))
      (program coordinator_account_incorrect_size)
blank_account (live a) = fail account_discriminator_already_set

unfoldable pub init_coordinator_processor :
    ⦃platform : Platform⦄ → ℕ → ℕ → ℕ → ℕ → List ℕ → List ℕ → Handler
init_coordinator_processor ⦃platform⦄ instance_key account_key main_authority join_authority run_id
      client_version =
    do
      fail_if (not (platform.find_coordinator_instance (bytes_from_string run_id) == instance_key))
          constraint_violated
      in_use ← gets λ c. elim (find_key instance_key c.instances) [ none ↦ false | some _ ↦ true ]
      fail_if in_use account_in_use
      raw? ← gets λ c. find_key account_key c.accounts
      raw ← ok_or raw? account_missing
      fail_if (ltb solana_run_id_max_len (length run_id)) (program run_id_invalid_length)
      blank_account raw
      modify λ c. record c {
        instances =
            put_key instance_key
              (record {
                bump = platform.instance_bump (bytes_from_string run_id);
                main_authority = main_authority;
                join_authority = join_authority;
                coordinator_account = account_key;
                run_id = run_id;
              })
              c.instances;
        accounts =
            put_key account_key
              (live (record {
                version = version_now;
                state = first_state platform run_id client_version;
                nonce = 0;
              }))
              c.accounts;
      }

-- Both accounts are closed when the processor returns. The version is not looked at.
unfoldable pub free_coordinator_processor : ⦃platform : Platform⦄ → ℕ → ℕ → ℕ → Handler
free_coordinator_processor signer instance_key account_key = do
  i ← load_instance instance_key
  fail_if (not (i.main_authority == signer)) constraint_violated
  fail_if (not (i.coordinator_account == account_key)) constraint_violated
  account ← load_account account_key
  fail_if (not (halted account.state.coordinator)) (program close_coordinator_not_halted)
  modify λ c. record c {
    instances = drop_key instance_key c.instances;
    accounts = drop_key account_key c.accounts;
  }

-- The nonce stays as it is here.
unfoldable pub update_client_version_handler : ℕ → List ℕ → CoordinatorAccount → Handler
update_client_version_handler key new_version account = do
  fail_if (not (halted account.state.coordinator)) (program update_config_not_halted)
  version ← unwrap (try_from client_version_len new_version)
  modify (store key (record account { state = record account.state { client_version = version } }))

unfoldable pub join_run_processor :
    ⦃platform : Platform⦄ ⦃hashing : Hashing⦄ ⦃f : Float64⦄
    → ℕ
    → ℕ
    → ℕ
    → Clock
    → ℕ
    → ClientId
    → Handler
join_run_processor signer instance_key account_key clock authorization client_id = do
  i ← load_instance instance_key
  authorization? ← gets λ c. find_key authorization c.authorizations
  a ← ok_or authorization? account_missing
  fail_if (not (is_valid_for a i.join_authority signer join_run_authorization_scope))
      constraint_violated
  account ← load_linked i account_key
  fail_if (not (client_id.signer == signer)) (program signer_mismatch)
  with_nonce account_key account (join_run clock client_id)

module _ ⦃platform : Platform⦄ ⦃hashing : Hashing⦄ ⦃f : Float64⦄ where
  unfoldable pub process : ℕ → ℕ → ℕ → Clock → Instruction → Handler
  process signer i k clock (init_coordinator main_authority join_authority run_id version) =
      init_coordinator_processor i k main_authority join_authority run_id version
  process signer i k clock free_coordinator = free_coordinator_processor signer i k
  process signer i k clock (update_run metadata config model progress) =
      by_owner signer i k λ account. with_nonce k account (update metadata config model progress)
  process signer i k clock (update_client_version version) =
      by_owner signer i k (update_client_version_handler k version)
  process signer i k clock (future_epoch_rates earning slashing) =
      by_owner signer i k λ account. with_nonce k account (set_future_epoch_rates earning slashing)
  process signer i k clock (join authorization client_id) =
      join_run_processor signer i k clock authorization client_id
  process signer i k clock (pause_run paused) =
      by_owner signer i k λ account. with_nonce k account (set_paused clock paused)
  process signer i k clock tick_run = by_anyone i k λ account. with_nonce k account (tick clock)
  process signer i k clock (send_witness w) =
      by_anyone i k λ account. with_nonce k account (witness clock signer w)
  process signer i k clock (send_warmup_witness w) =
      by_anyone i k λ account. with_nonce k account (warmup_witness clock signer w)
  process signer i k clock (send_health_check id proof) =
      by_anyone i k λ account. with_nonce k account (health_check clock signer ((id, proof) ∷ []))
  process signer i k clock (send_checkpoint repo) =
      by_anyone i k λ account. with_nonce k account (checkpoint clock signer repo)
