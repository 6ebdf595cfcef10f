-- ===== src/Coordinator/Lifecycle.antt =====
-- Changing the run state, starting a round, and clients that leave: the private helpers of `tick`,
-- `withdraw`, `withdraw_all`, `pause` and `resume` of shared/coordinator/src/coordinator.rs.
pub mod Ring
pub mod Leaving
use psyche.Base.{
  ℕ, zero, suc, ◌+◌, ◌*◌, ◌%◌, Bool, true, false, Option, none, some, List, [], ◌∷◌, ◌++◌, not,
  ◌==◌, ltb, leb, if◌then◌else◌, length, get_elem?, set, Outcome, ok, pure, unwrap, gets, modify,
  checked, ◌>>=◌, ◌>>◌, u32_mod, u64_mod, u16_mod, ◌&&◌,
}
use psyche.Coordinator.Types.{
  RunState, uninitialized, waiting_for_members, warmup, round_train, round_witness, cooldown,
  finished, paused, ClientState, healthy, dropped, withdrawn, ejected, halted as is_halted,
  cannot_resume, invalid_withdraw, Client, Coordinator, Coord, solana_max_num_clients,
  num_stored_rounds, Round,
}
use psyche.Coordinator.Config.{Float64}
use psyche.Coordinator.Rounds.{
  update_current_round, active, halted, get_sequence_length, get_global_batch_size_for_tokens,
}

-- `From<RunState> for usize`: the discriminant, by which derived equality compares.
abbrev pub to_usize : RunState → ℕ
to_usize uninitialized = 0
to_usize waiting_for_members = 1
to_usize warmup = 2
to_usize round_train = 3
to_usize round_witness = 4
to_usize cooldown = 5
to_usize finished = 6
to_usize paused = 7

-- `TryFrom<usize> for RunState`
unfoldable pub try_from_usize : ℕ → Option RunState
try_from_usize n =
    if n == 0
    then some uninitialized
    else if n == 1
    then some waiting_for_members
    else if n == 2
    then some warmup
    else if n == 3
    then some round_train
    else if n == 4
    then some round_witness
    else if n == 5
    then some cooldown
    else if n == 6
    then some finished
    else if n == 7
    then some paused
    else none

abbrev pub is_healthy : ClientState → Bool
is_healthy healthy = true
is_healthy dropped = false
is_healthy withdrawn = false
is_healthy ejected = false

abbrev pub is_ejected : ClientState → Bool
is_ejected ejected = true
is_ejected healthy = false
is_ejected dropped = false
is_ejected withdrawn = false

module _ {T : Type 0} where
  unfoldable pub is_warmup_just_starting : Coordinator T → Bool
  is_warmup_just_starting c = c.epoch_state.first_round && to_usize c.run_state == to_usize warmup

  unfoldable pub is_training_just_starting : Coordinator T → Bool
  is_training_just_starting c =
      c.epoch_state.first_round && to_usize c.run_state == to_usize round_train

  unfoldable pub change_state : ℕ → RunState → Coord T (Unit {0})
  change_state unix_timestamp new_state c =
      if to_usize c.run_state == to_usize new_state
      then Outcome.panic
      else ok tt
          (record c { run_state_start_unix_timestamp = unix_timestamp; run_state = new_state })

  unfoldable pub check_timeout : ℕ → ℕ → Coord T Bool
  check_timeout unix_timestamp duration c =
      if c.run_state_start_unix_timestamp == unix_timestamp
      then ok false c
      else (do
        limit ← checked u64_mod (duration + c.run_state_start_unix_timestamp)
        pure (leb limit unix_timestamp))
          c

  unfoldable pub check_epoch_timeout : ℕ → Coord T Bool
  check_epoch_timeout unix_timestamp c =
      if c.epoch_state.start_timestamp == unix_timestamp
      then ok false c
      else (do
        limit ← checked u64_mod (c.epoch_state.start_timestamp + c.config.epoch_time)
        pure (leb limit unix_timestamp))
          c

  -- `CoordinatorEpochState::last_step_set`
  unfoldable pub last_step_set : Coordinator T → Bool
  last_step_set c = not (c.epoch_state.last_step == 0)

  unfoldable pub start_cooldown : ℕ → Coord T (Unit {0})
  start_cooldown unix_timestamp = do
    update_current_round (λ r. record r { witnesses = [] })
    change_state unix_timestamp cooldown

  unfoldable pub start_warmup : ℕ → Coord T (Unit {0})
  start_warmup unix_timestamp = change_state unix_timestamp warmup

  unfoldable pub start_waiting_for_members : ℕ → Coord T (Unit {0})
  start_waiting_for_members unix_timestamp c =
      change_state unix_timestamp
        (if ltb c.progress.step c.config.total_steps then waiting_for_members else finished) c

  -- The loop of `move_clients_to_exited`: who stays, and the list of the exited. `none` is the
  -- `unwrap` of a push into a full list.
  unfoldable pub retain_healthy :
      ℕ → List (Client T) → List (Client T) → Option (List (Client T) × List (Client T))
  retain_healthy height [] exited = some ([], exited)
  retain_healthy height (x ∷ xs) exited = elim (is_healthy x.state) [
    | true ↦ elim (retain_healthy height xs exited) [
      | none ↦ none
      | some (ys, e) ↦ some (x ∷ ys, e)
    ]
    | false ↦ elim (ltb (length exited) solana_max_num_clients) [
      | true ↦ retain_healthy height xs (exited ++ record x { exited_height = height } ∷ [])
      | false ↦ none
    ]
  ]

  unfoldable pub move_clients_to_exited : ℕ → Coord T (Unit {0})
  move_clients_to_exited height c =
      elim (retain_healthy height c.epoch_state.clients c.epoch_state.exited_clients) [
        | none ↦ Outcome.panic
        | some (clients, exited) ↦ ok tt (record c {
          epoch_state = record c.epoch_state { clients = clients; exited_clients = exited };
        })
      ]

  -- What `start_round_train` computes first: the next head, height and data index.
  unfoldable pub next_round : ⦃f : Float64⦄ → Coord T (ℕ × ℕ × ℕ)
  next_round c =
      if c.epoch_state.first_round
      then ok (0, 0, c.progress.epoch_start_data_index) c
      else (do
        prev_round ← unwrap (get_elem? c.epoch_state.rounds c.epoch_state.rounds_head)
        prev_round_start_tokens ← checked u64_mod (prev_round.data_index * get_sequence_length c)
        prev_round_batch_size ← get_global_batch_size_for_tokens prev_round_start_tokens
        head ← checked u32_mod (c.epoch_state.rounds_head + 1)
        height ← checked u32_mod (prev_round.height + 1)
        data_index ← checked u64_mod (prev_round.data_index + prev_round_batch_size)
        pure (head % num_stored_rounds, height, data_index))
          c

  -- The round that `start_round_train` writes at the new head.
  abbrev pub entered : ℕ → ℕ → ℕ × ℕ × ℕ → Coordinator T → Round
  entered random_seed tie_breaker_tasks (head, height, data_index) c = record {
    witnesses = [];
    data_index = data_index;
    random_seed = random_seed;
    height = height;
    clients_len = length c.epoch_state.clients % u16_mod;
    tie_breaker_tasks = tie_breaker_tasks;
  }

  abbrev pub enter_round : ℕ → ℕ → ℕ × ℕ × ℕ → Coordinator T → Coordinator T
  enter_round random_seed tie_breaker_tasks (head, height, data_index) c = record c {
    epoch_state = record c.epoch_state {
      rounds =
          set c.epoch_state.rounds head
            (entered random_seed tie_breaker_tasks (head, height, data_index) c);
      rounds_head = head;
    };
  }

  unfoldable pub start_round_train : ⦃f : Float64⦄ → ℕ → ℕ → ℕ → Coord T (Unit {0})
  start_round_train unix_timestamp random_seed tie_breaker_tasks = do
    next ← next_round
    entry ← gets λ c. get_elem? c.epoch_state.rounds next.0
    _ ← unwrap entry
    modify (enter_round random_seed tie_breaker_tasks next)
    change_state unix_timestamp round_train

  -- A write to the state of the client at an index.
  abbrev pub set_client_state : ℕ → Client T → ClientState → Coordinator T → Coordinator T
  set_client_state index client state c = record c {
    epoch_state = record c.epoch_state {
      clients = set c.epoch_state.clients index (record client { state = state });
    };
  }

  unfoldable pub withdraw : ℕ → Coord T (Unit {0})
  withdraw index c = elim (get_elem? c.epoch_state.clients index) [
    | none ↦ Outcome.err invalid_withdraw c
    | some client ↦
        if is_healthy client.state
        then ok tt (set_client_state index client withdrawn c)
        else Outcome.err invalid_withdraw c
  ]

  -- The loop of `withdraw_all` over `i .. i + n`.
  unfoldable pub withdraw_from : ℕ → ℕ → Coord T (Unit {0})
  withdraw_from zero i = pure tt
  withdraw_from (suc n) i = withdraw i >> withdraw_from n (i + 1)

  unfoldable pub withdraw_all : Coord T (Unit {0})
  withdraw_all c = withdraw_from (length c.epoch_state.clients) 0 c

  abbrev set_cold_start_epoch : Bool → Coordinator T → Coordinator T
  set_cold_start_epoch b c = record c {
    epoch_state = record c.epoch_state { cold_start_epoch = b };
  }

  unfoldable pub pause : ℕ → Coord T (Unit {0})
  pause unix_timestamp c =
      if not (halted c)
      then if active c
        then ok tt (record c { pending_pause = true })
        else (do
          withdraw_all
          change_state unix_timestamp paused
          modify (set_cold_start_epoch true))
            c
      else Outcome.err is_halted c

  unfoldable pub resume : ℕ → Coord T (Unit {0})
  resume unix_timestamp c =
      if not (to_usize c.run_state == to_usize paused)
      then Outcome.err cannot_resume c
      else start_waiting_for_members unix_timestamp c
