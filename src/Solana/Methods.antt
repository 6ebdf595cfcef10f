-- ===== src/Solana/Methods.antt =====
-- What the instructions do to the instance: `tick`, `set_paused`, `update`, `join_run` and the
-- messages of the clients, of instance_state.rs.
pub mod Members
pub mod Pauses
pub mod Rewards
use psyche.Base.{
  ℕ, ◌+◌, ◌%◌, Bool, true, false, Option, none, some, List, [], ◌∷◌, ◌++◌, ◌&&◌, ◌||◌, not, ◌==◌,
  ltb, if◌then◌else◌, length, Outcome, ok, err, Method, pure, fail, ok_or, gets, modify, fail_if,
  when, ◌>>=◌, ◌>>◌, u16_mod,
}
use psyche.Core.Hashing.{Hashing}
use psyche.Coordinator.Model
use psyche.Coordinator.Config
use psyche.Coordinator.Tick
use psyche.Coordinator.Messages
use psyche.Coordinator.Model.{Model, HubRepo}
use psyche.Coordinator.Types.{
  Coordinator, CoordinatorConfig, CoordinatorProgress, CommitteeProof, Witness, waiting_for_members,
  uninitialized, paused, finished,
}
use psyche.Coordinator.Types
use psyche.Coordinator.Config.{Float64, check_progress}
use psyche.Coordinator.Rounds.{halted}
use psyche.Coordinator.Lifecycle.{to_usize, pause, resume}
use psyche.Solana.ClientsState.{
  ClientId, ClientId-NodeIdentity, Client, get_active_clients_ids, find, find_signer, same_id,
  solana_max_num_pending_clients,
}
use psyche.Solana.Instance.{
  ProgramError, CoordinatorInstanceState, Instance, Clock, RunMetadata, in_coordinator,
  get_random_seed, increment_next_active, after_tick, model_sanity_check_failed,
  more_clients_than_batches, config_sanity_check_failed, signer_not_a_client,
  update_config_finished, update_config_not_halted, progress_sanity_check_failed, clients_full,
}

-- The first `match` of `tick`: who is pending, while the run waits for members.
unfoldable pub pending_clients : Instance (Option (List ClientId))
pending_clients s =
    if to_usize s.coordinator.run_state == to_usize waiting_for_members
    then ok (some (get_active_clients_ids s.clients_state))
        (record s { is_warmup_first_tick = true; is_training_first_tick = true })
    else ok none s

unfoldable pub tick : ⦃hashing : Hashing⦄ ⦃f : Float64⦄ → Clock → Instance (Unit {0})
tick clock = do
  active_clients_ids ← pending_clients
  result ←
      in_coordinator (Tick.tick active_clients_ids clock.unix_timestamp (get_random_seed clock))
  after_tick result

-- The only way out of `Uninitialized`: the run is paused at its first step.
abbrev pub leave_uninitialized : Coordinator ClientId → Coordinator ClientId
leave_uninitialized c =
    if to_usize c.run_state == to_usize uninitialized
    then record c { run_state = paused; progress = record c.progress { step = 1 } }
    else c

unfoldable pub unpause : ⦃hashing : Hashing⦄ ⦃f : Float64⦄ → Clock → Instance (Unit {0})
unpause clock = do
  fail_unless_config ← gets λ s. not (Config.check s.coordinator.config)
  fail_if fail_unless_config config_sanity_check_failed
  fail_unless_model ← gets λ s. not (Model.check s.coordinator.model)
  fail_if fail_unless_model model_sanity_check_failed
  modify λ s. record s { coordinator = leave_uninitialized s.coordinator }
  fail_unless_progress ← gets λ s. not (check_progress s.coordinator.progress)
  fail_if fail_unless_progress progress_sanity_check_failed
  in_coordinator (resume clock.unix_timestamp)
  increment_next_active
  tick clock

unfoldable pub set_paused : ⦃hashing : Hashing⦄ ⦃f : Float64⦄ → Clock → Bool → Instance (Unit {0})
set_paused clock true = in_coordinator (pause clock.unix_timestamp)
set_paused clock false = unpause clock

-- `find_signer` of the clients' state
unfoldable pub sender : ℕ → Instance ClientId
sender payer = do id? ← gets λ s. find_signer payer s.clients_state; ok_or id? signer_not_a_client

unfoldable pub witness :
    ⦃hashing : Hashing⦄ ⦃f : Float64⦄ → Clock → ℕ → Witness → Instance (Unit {0})
witness clock payer w = do
  id ← sender payer
  in_coordinator (Messages.witness id w clock.unix_timestamp)
  tick clock

unfoldable pub warmup_witness :
    ⦃hashing : Hashing⦄ ⦃f : Float64⦄ → Clock → ℕ → Witness → Instance (Unit {0})
warmup_witness clock payer w = do
  id ← sender payer
  in_coordinator (Messages.warmup_witness id w clock.unix_timestamp (get_random_seed clock))
  tick clock

unfoldable pub health_check :
    ⦃hashing : Hashing⦄ ⦃f : Float64⦄
    → Clock
    → ℕ
    → List (ClientId × CommitteeProof)
    → Instance (Unit {0})
health_check clock payer checks = do
  _ ← sender payer
  _ ← in_coordinator (Messages.health_check checks)
  tick clock

-- `position(|x| x.id == id)`, counted from `i`
unfoldable pub position_from : ℕ → ClientId → List (Types.Client ClientId) → Option ℕ
position_from i id [] = none
position_from i id (x ∷ xs) = if same_id x.id id then some i else position_from (i + 1) id xs

-- The run is ticked unless it is halted.
unfoldable pub tick_unless_halted : ⦃hashing : Hashing⦄ ⦃f : Float64⦄ → Clock → Instance (Unit {0})
tick_unless_halted clock = do
  is_halted ← gets λ s. halted s.coordinator
  when (not is_halted) (tick clock)

unfoldable pub checkpoint :
    ⦃hashing : Hashing⦄ ⦃f : Float64⦄ → Clock → ℕ → HubRepo → Instance (Unit {0})
checkpoint clock payer repo = do
  id ← sender payer
  index? ← gets λ s. position_from 0 id s.coordinator.epoch_state.clients
  index ← ok_or index? signer_not_a_client
  in_coordinator (Messages.checkpoint id index repo)
  tick_unless_halted clock

abbrev pub or_else : {A : Type 0} → Option A → A → A
or_else none b = b
or_else (some a) b = a

unfoldable pub set_future_epoch_rates : Option ℕ → Option ℕ → Instance (Unit {0})
set_future_epoch_rates earning slashing = modify λ s. record s {
  clients_state = record s.clients_state {
    future_epoch_rates = record {
      earning_rate_total_shared =
          or_else earning s.clients_state.future_epoch_rates.earning_rate_total_shared;
      slashing_rate_per_client =
          or_else slashing s.clients_state.future_epoch_rates.slashing_rate_per_client;
    };
  };
}

abbrev pub is_some : {A : Type 0} → Option A → Bool
is_some none = false
is_some (some a) = true

unfoldable pub update_config : Option CoordinatorConfig → Instance (Unit {0})
update_config none = pure tt
update_config (some config) = do
  fail_if (not (Config.check config)) config_sanity_check_failed
  modify λ s. record s { coordinator = record s.coordinator { config = config } }

unfoldable pub update_model : Option Model → Instance (Unit {0})
update_model none = pure tt
update_model (some model) = do
  fail_if (not (Model.check model)) model_sanity_check_failed
  modify λ s. record s { coordinator = record s.coordinator { model = model } }

-- A bad progress fails with the model's error, as in the source.
unfoldable pub update_progress : Option CoordinatorProgress → Instance (Unit {0})
update_progress none = pure tt
update_progress (some progress) = do
  fail_if (not (check_progress progress)) model_sanity_check_failed
  modify λ s. record s { coordinator = record s.coordinator { progress = progress } }

unfoldable pub update :
    Option RunMetadata
    → Option CoordinatorConfig
    → Option Model
    → Option CoordinatorProgress
    → Instance (Unit {0})
update metadata config model progress s =
    if to_usize s.coordinator.run_state == to_usize finished
    then err update_config_finished s
    else if not (halted s.coordinator) && (is_some config || is_some model || is_some progress)
    then err update_config_not_halted s
    else (do
      modify λ s. record s { metadata = or_else metadata s.metadata }
      update_config config
      update_model model
      update_progress progress)
        s

-- The search of `join_run` for a client with the same signer, which becomes active and takes the
-- new id; whether there was one. The comparison with the id that was there cannot fail, since it is
-- of the signers alone.
unfoldable pub rejoin : ClientId → ℕ → List Client → Bool × List Client
rejoin id active [] = (false, [])
rejoin id active (x ∷ xs) =
    let (found, rest) = rejoin id active xs in
    if x.id.signer == id.signer
    then (true, record x { id = id; active = active } ∷ xs)
    else (found, x ∷ rest)

abbrev pub newcomer : ClientId → ℕ → Client
newcomer id active = record { id = id; earned = 0; slashed = 0; active = active }

-- The part of `join_run` for a client that was not there.
unfoldable pub join_new : ClientId → Instance (Unit {0})
join_new id = do
  clients ← gets λ s. s.clients_state.clients
  full ← gets λ s. s.coordinator.config.global_batch_size_end == length clients % u16_mod
  fail_if full more_clients_than_batches
  fail_if (not (ltb (length clients) solana_max_num_pending_clients)) clients_full
  modify λ s. record s {
    clients_state = record s.clients_state {
      clients = clients ++ newcomer id s.clients_state.next_active ∷ [];
    };
  }

-- The part of `join_run` before its tick.
unfoldable pub join : ClientId → Instance (Unit {0})
join id s =
    let (existing, clients) = rejoin id s.clients_state.next_active s.clients_state.clients in
    if existing
    then ok tt (record s { clients_state = record s.clients_state { clients = clients } })
    else join_new id s

unfoldable pub join_run : ⦃hashing : Hashing⦄ ⦃f : Float64⦄ → Clock → ClientId → Instance (Unit {0})
join_run clock id = do join id; tick_unless_halted clock
