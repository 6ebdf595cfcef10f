-- ===== src/Solana/Examples.antt =====
-- Examples for the on-chain program.
pub mod Claims
pub mod Programs
use psyche.Base.{
  ℕ, ◌≡◌, ◌≢◌, ◌≤◌, ◌+◌, refl, true, false, Option, some, none, List, [], ◌∷◌, ok, arith,
}
use psyche.Coordinator.Types
use psyche.Coordinator.Types.{
  Coordinator, CoordinatorConfig, CoordinatorProgress, cooldown, paused, finished, healthy,
  withdrawn, zero_round,
}
use psyche.Coordinator.Model.{
  Model, LlmArchitecture, LlmTrainingDataType, LlmTrainingDataLocation, Checkpoint,
  OptimizerDefinition, llm, HubRepo,
}
use psyche.Coordinator.Config
use psyche.Coordinator.Model
use psyche.Coordinator.Config.{Float64, check_progress}
use psyche.Coordinator.Rounds.{halted}
use psyche.Coordinator.Examples.{toy_floats, toy_hashing, small_model, small_config, first_rounds}
use psyche.Solana.ClientsState.{ClientId, Client, ClientsEpochRates}
use psyche.Solana.Instance.{CoordinatorInstanceState, Clock, RunMetadata, reward}
use psyche.Solana.Methods.{tick, join, update, or_else, is_some}
use psyche.Solana.Methods.Rewards.{sum_earned, Grown, reward-Grown}
use psyche.Solana.Methods.Pauses.{earned_of, pause_forfeits_epoch}
use psyche.Solana.Methods.Members.{Distinct, Joined, join-Joined, update-ok}

abbrev key : ℕ → ClientId
key n = record { signer = n; p2p_identity = n }

abbrev pub joined : ℕ → ℕ → Client
joined n earned = record { id = key n; earned = earned; slashed = 0; active = 0 }

abbrev trained : ℕ → Types.Client ClientId
trained n = record { id = key n; state = healthy; exited_height = 0 }

abbrev pub rates : ClientsEpochRates
rates = record { earning_rate_total_shared = 10; slashing_rate_per_client = 1 }

abbrev pub three_members : List Client
three_members = joined 1 0 ∷ joined 2 7 ∷ joined 3 0 ∷ []

abbrev pub two_trained : List (Types.Client ClientId)
two_trained = trained 1 ∷ trained 3 ∷ []

pub three_members-reward :
    reward two_trained [] rates 0 0 three_members ≡ some (joined 1 5 ∷ joined 2 7 ∷ joined 3 5 ∷ [])
unfolding reward psyche.Solana.Instance.earn psyche.Solana.Instance.slash
three_members-reward = refl

reward-Grown_example :
    (sum_earned (joined 1 5 ∷ joined 2 7 ∷ joined 3 5 ∷ []) ≤ sum_earned three_members + 10)
    × Grown three_members (joined 1 5 ∷ joined 2 7 ∷ joined 3 5 ∷ [])
reward-Grown_example =
    reward-Grown two_trained [] rates three_members (joined 1 5 ∷ joined 2 7 ∷ joined 3 5 ∷ [])
      three_members-reward

-- The second epoch's cooldown, with a pause pending.
abbrev cooling : CoordinatorInstanceState
cooling = record {
  metadata = record { name = []; description = []; num_parameters = 0; vocab_size = 0 };
  coordinator = record {
    run_id = [];
    run_state = cooldown;
    model = small_model;
    config = small_config;
    progress = record { epoch = 1; step = 9; epoch_start_data_index = 0 };
    epoch_state = record {
      rounds = first_rounds;
      clients = two_trained;
      exited_clients = [];
      rounds_head = 0;
      start_step = 1;
      last_step = 9;
      start_timestamp = 100;
      first_round = false;
      cold_start_epoch = false;
    };
    run_state_start_unix_timestamp = 100;
    pending_pause = true;
  };
  clients_state = record {
    clients = three_members;
    next_active = 1;
    current_epoch_rates = rates;
    future_epoch_rates = rates;
  };
  is_warmup_first_tick = false;
  is_training_first_tick = false;
  client_version = [];
}

abbrev left : ℕ → Types.Client ClientId
left n = record { id = key n; state = withdrawn; exited_height = 0 }

abbrev pub cooled : CoordinatorInstanceState
cooled = record cooling {
  coordinator = record cooling.coordinator {
    run_state = paused;
    progress = record { epoch = 2; step = 9; epoch_start_data_index = 8 };
    epoch_state = record cooling.coordinator.epoch_state {
      clients = left 1 ∷ left 3 ∷ [];
      cold_start_epoch = true;
    };
    run_state_start_unix_timestamp = 140;
    pending_pause = false;
  };
}

abbrev pub clock : Clock
clock = record { unix_timestamp = 140; slot = 3 }

cooling-tick : tick clock cooling ≡ ok tt cooled
unfolding tick psyche.Solana.Methods.pending_clients psyche.Solana.Instance.in_coordinator
    psyche.Coordinator.Tick.tick psyche.Coordinator.Tick.tick_cooldown
    psyche.Coordinator.Lifecycle.check_timeout psyche.Coordinator.Tick.finish_epoch
    psyche.Coordinator.Tick.end_epoch psyche.Coordinator.Rounds.get_target_global_batch_size
    psyche.Coordinator.Rounds.total_tokens_processed psyche.Coordinator.Rounds.current_round
    psyche.Coordinator.Rounds.get_sequence_length
    psyche.Coordinator.Rounds.get_global_batch_size_for_tokens
    psyche.Coordinator.Rounds.current_round_unchecked Config.get_batch_size
    psyche.Coordinator.Lifecycle.move_clients_to_exited psyche.Coordinator.Lifecycle.retain_healthy
    psyche.Coordinator.Tick.settle psyche.Coordinator.Tick.p2p_checkpoint
    psyche.Coordinator.Lifecycle.withdraw_all psyche.Coordinator.Lifecycle.withdraw_from
    psyche.Coordinator.Lifecycle.withdraw psyche.Coordinator.Lifecycle.change_state
    psyche.Solana.Instance.after_tick reward psyche.Solana.Instance.earn
    psyche.Solana.Instance.slash toy_floats toy_hashing
cooling-tick = refl

pause_forfeits_epoch_example : earned_of cooled ≡ earned_of cooling
pause_forfeits_epoch_example = pause_forfeits_epoch clock cooling cooled cooling-tick refl refl

-- A fourth member, which joins while the run is paused.
abbrev fourth : CoordinatorInstanceState
fourth = record cooled {
  clients_state = record cooled.clients_state {
    clients =
        joined 1 0
        ∷ joined 2 7
        ∷ joined 3 0
        ∷ record { id = key 4; earned = 0; slashed = 0; active = 1 }
        ∷ [];
  };
}

fourth-joins : join (key 4) cooled ≡ ok tt fourth
unfolding join psyche.Solana.Methods.rejoin psyche.Solana.Methods.join_new
fourth-joins = refl

three_members-Distinct : Distinct three_members
three_members-Distinct = ground arith

join-Joined_example :
    Joined (key 4) 1 fourth.clients_state.clients
    × (fourth.coordinator ≡ cooled.coordinator)
    × (fourth.clients_state.next_active ≡ cooled.clients_state.next_active)
join-Joined_example = join-Joined (key 4) cooled fourth fourth-joins three_members-Distinct

abbrev longer : CoordinatorConfig
longer = record small_config { total_steps = 200 }

abbrev updated : CoordinatorInstanceState
updated = record cooled { coordinator = record cooled.coordinator { config = longer } }

updates : update none (some longer) none none cooled ≡ ok tt updated
unfolding update halted psyche.Solana.Methods.update_config Config.check
    psyche.Solana.Methods.update_model psyche.Solana.Methods.update_progress
updates = refl

update-ok_example :
    (paused ≢ finished)
    × (true ≡ true → halted cooled.coordinator ≡ true)
    × ((c : CoordinatorConfig)
        → ◌≡◌ {A = Option CoordinatorConfig} (some longer) (some c)
        → Config.check c ≡ true)
    × ((m : Model) → ◌≡◌ {A = Option Model} none (some m) → Model.check m ≡ true)
    × ((p : CoordinatorProgress)
        → ◌≡◌ {A = Option CoordinatorProgress} none (some p)
        → check_progress p ≡ true)
    × (updated.coordinator.config ≡ longer)
    × (updated.coordinator.model ≡ cooled.coordinator.model)
    × (updated.coordinator.progress ≡ cooled.coordinator.progress)
    × (updated.coordinator.run_state ≡ cooled.coordinator.run_state)
update-ok_example = update-ok none (some longer) none none cooled updated updates
