-- ===== src/Solana/Instance.antt =====
-- architectures/decentralized/solana-coordinator/programs/solana-coordinator/src/instance_state.rs:
-- the methods of `CoordinatorInstanceState`. The clock of the chain is an argument, its timestamp
-- already the `u64` that the methods cast it to.
use psyche.Base.{
  ℕ, ◌+◌, ◌/◌, Bool, false, Option, none, some, List, [], ◌∷◌, ◌&&◌, ◌==◌, ltb, if◌then◌else◌,
  length, get_elem?, take, Outcome, ok, err, panic, Method, unwrap, gets, modify, checked, ◌>>=◌,
  ◌>>◌, u64_mod,
}
use psyche.Core.Hashing.{Hashing, sha256v}
use psyche.Core.SwapOrNot.{to_le_bytes, from_le_bytes}
use psyche.Coordinator.Types
use psyche.Coordinator.Types.{
  Coordinator, Coord, CoordinatorError, TickResult, ticked, epoch_end, Witness,
}
use psyche.Coordinator.Lifecycle.{
  is_healthy, is_ejected, is_warmup_just_starting, is_training_just_starting,
}
use psyche.Solana.ClientsState.{
  ClientId, ClientId-NodeIdentity, Client, ClientsEpochRates, ClientsState,
}

-- The program's own errors, and those of the coordinator that it passes on.
pub data ProgramError : Type 0 where
  update_config_finished update_config_not_halted coordinator_account_incorrect_size
        client_id_mismatch clients_full config_sanity_check_failed model_sanity_check_failed
        progress_sanity_check_failed signer_not_a_client signer_mismatch
        close_coordinator_not_halted coordinator_error_invalid_checkpoint more_clients_than_batches
        run_id_invalid_length :
      ProgramError
  coordinator_error : CoordinatorError → ProgramError

pub record Clock : Type 0 where
  pub unix_timestamp : ℕ
  pub slot : ℕ

pub record RunMetadata : Type 0 where
  pub name : List ℕ
  pub description : List ℕ
  pub num_parameters : ℕ
  pub vocab_size : ℕ

pub record CoordinatorInstanceState : Type 0 where
  pub metadata : RunMetadata
  pub coordinator : Coordinator ClientId
  pub clients_state : ClientsState
  pub is_warmup_first_tick : Bool
  pub is_training_first_tick : Bool
  pub client_version : List ℕ

-- A method of the instance.
abbrev pub Instance : Type 0 → Type 0
Instance A = Method ProgramError CoordinatorInstanceState A

-- A call of a method of the coordinator, whose error becomes one of the program's.
unfoldable pub in_coordinator : {A : Type 0} → Coord ClientId A → Instance A
in_coordinator m s = elim (m s.coordinator) [
  | ok a c ↦ ok a (record s { coordinator = c })
  | err e c ↦ err (coordinator_error e) (record s { coordinator = c })
  | panic ↦ Outcome.panic
]

unfoldable pub get_random_seed : ⦃hashing : Hashing⦄ → Clock → ℕ
get_random_seed ⦃hashing⦄ clock =
    from_le_bytes
      (take 8 (sha256v (to_le_bytes 8 clock.unix_timestamp ∷ to_le_bytes 8 clock.slot ∷ [])))

-- The first half of the loop's body over the clients: the client and the next index into the
-- finished ones. `none` is an overflow.
unfoldable pub earn :
    List (Types.Client ClientId) → ClientsEpochRates → ℕ → Client → Option (Client × ℕ)
earn finished_clients rates index client = elim (get_elem? finished_clients index) [
  | none ↦ some (client, index)
  | some x ↦
      let earned = client.earned + rates.earning_rate_total_shared / length finished_clients in
      if client.id.signer == x.id.signer
      then if is_healthy x.state
        then if ltb earned u64_mod
          then some (record client { earned = earned }, index + 1)
          else none
        else some (client, index + 1)
      else some (client, index)
]

-- The second half, over the exited ones.
unfoldable pub slash :
    List (Types.Client ClientId) → ClientsEpochRates → ℕ → Client → Option (Client × ℕ)
slash exited_clients rates index client = elim (get_elem? exited_clients index) [
  | none ↦ some (client, index)
  | some x ↦
      let slashed = client.slashed + rates.slashing_rate_per_client in
      if client.id.signer == x.id.signer
      then if is_ejected x.state
        then if ltb slashed u64_mod
          then some (record client { slashed = slashed }, index + 1)
          else none
        else some (client, index + 1)
      else some (client, index)
]

-- The loop over the clients at the end of an epoch.
unfoldable pub reward :
    List (Types.Client ClientId)
    → List (Types.Client ClientId)
    → ClientsEpochRates
    → ℕ
    → ℕ
    → List Client
    → Option (List Client)
reward finished exited rates i j [] = some []
reward finished exited rates i j (client ∷ clients) = elim (earn finished rates i client) [
  | none ↦ none
  | some (client', i') ↦ elim (slash exited rates j client') [
    | none ↦ none
    | some (client'', j') ↦ elim (reward finished exited rates i' j' clients) [
      | none ↦ none
      | some rest ↦ some (client'' ∷ rest)
    ]
  ]
]

abbrev set_clients : List Client → CoordinatorInstanceState → CoordinatorInstanceState
set_clients clients s = record s { clients_state = record s.clients_state { clients = clients } }

-- `self.clients_state.next_active += 1`
unfoldable pub increment_next_active : Instance (Unit {0})
increment_next_active = do
  active ← gets λ s. s.clients_state.next_active
  next ← checked u64_mod (active + 1)
  modify λ s. record s { clients_state = record s.clients_state { next_active = next } }

abbrev save_rates : CoordinatorInstanceState → CoordinatorInstanceState
save_rates s = record s {
  clients_state = record s.clients_state {
    current_epoch_rates = s.clients_state.future_epoch_rates;
  };
  is_warmup_first_tick = false;
}

-- The `match` on the result of the coordinator's tick.
unfoldable pub after_tick : TickResult → Instance (Unit {0})
after_tick ticked s =
    if is_warmup_just_starting s.coordinator && s.is_warmup_first_tick
    then ok tt (save_rates s)
    else if is_training_just_starting s.coordinator && s.is_training_first_tick
    then (increment_next_active >> modify λ s. record s { is_training_first_tick = false }) s
    else ok tt s
after_tick (epoch_end success) s =
    (do
      clients ← unwrap (
          reward s.coordinator.epoch_state.clients s.coordinator.epoch_state.exited_clients
            s.clients_state.current_epoch_rates 0 0 s.clients_state.clients)
      modify (set_clients clients))
      s
