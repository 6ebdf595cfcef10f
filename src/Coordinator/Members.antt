-- ===== src/Coordinator/Members.antt =====
-- Who is in an epoch: the operations of shared/coordinator/src/coordinator.rs bring in no client but
-- those that are pending when an epoch begins.
pub mod Ticks
pub mod Requests
pub mod Checks
use psyche.Base.{
  ℕ, zero, suc, ◌+◌, ◌≡◌, refl, Bool, true, false, Option, none, some, List, [], ◌∷◌, ◌++◌, map,
  take, set, get_elem?, length, not, ◌==◌, ltb, leb, if◌then◌else◌, Outcome, ok, err, panic, Method,
  pure, gets, modify, unwrap, when, ◌>>=◌, ◌>>◌, Bool-cases, inl, inr, Option-cases, u64_mod,
  checked, arith, u32_mod, ◌*◌, ◌%◌, bind,
}
use psyche.Base.Keeps.{
  Leaves, Keeps, gets-Keeps, pure-Keeps, ok_or-Keeps, unwrap-Keeps, if-Keeps, modify-Keeps,
  fail_if-Keeps, checked-Keeps, when-Keeps, bind-Keeps, seq-Keeps, keeping, bind-Leaves,
}
use psyche.Coordinator.Config.{Float64}
use psyche.Coordinator.Types.{
  NodeIdentity, RunState, uninitialized, waiting_for_members, warmup, round_train, round_witness,
  cooldown, finished, paused, ClientState, TickResult, ticked, Client, Round, Coordinator, Coord,
  solana_max_num_clients, new_client, num_stored_rounds,
}
use psyche.Coordinator.Rounds.{
  current_round_unchecked, update_current_round, get_global_batch_size_for_tokens,
  total_tokens_processed, get_target_global_batch_size, active, halted, current_round,
  get_sequence_length,
}
use psyche.Coordinator.Lifecycle.{
  change_state, check_timeout, check_epoch_timeout, start_cooldown, start_warmup,
  start_waiting_for_members, retain_healthy, move_clients_to_exited, next_round, enter_round,
  start_round_train, set_client_state, withdraw, withdraw_from, withdraw_all, pause, resume,
  is_healthy, to_usize,
}

-- The ids of the clients.
abbrev pub AllIds : {T : Type 0} → (T → Type 0) → List (Client T) → Type 0
AllIds Q [] = Unit
AllIds Q (x ∷ xs) = Q x.id × AllIds Q xs

-- The run is this one, and its clients are of this kind.
abbrev pub Members : {T : Type 0} → (T → Type 0) → List ℕ → Coordinator T → Type 0
Members Q r c = (c.run_id ≡ r) × AllIds Q c.epoch_state.clients

else-Leaves :
    {E S A : Type 0} (P : S → Type 0) (b : Bool) (x y : Outcome E S A)
    → b ≡ false
    → Leaves P y
    → Leaves P (if b then x else y)
else-Leaves P b x y e h = rw (e, Leaves) h

module _ {T : Type 0} (Q : T → Type 0) (r : List ℕ) where
  abbrev pub Kept : {A : Type 0} → Coord T A → Type 0
  Kept m = Keeps (Members Q r) m

  -- The rule of a sequence, where its first method depends on the state.
  pub then_Kept :
      {A B : Type 0} {m : Coord T A} {f : A → Coord T B}
      → Kept m
      → ((a : A) → Kept (f a))
      → (c : Coordinator T) → Members Q r c
      → Leaves (Members Q r) (bind (m c) f)
  then_Kept h k c p = (bind-Keeps h k).keeps c p

  -- The rule of a method that goes by a test of its state.
  pub if_Kept :
      {A : Type 0} {m n : Coord T A} (b : Bool)
      → Kept m
      → Kept n
      → (c : Coordinator T) → Members Q r c
      → Leaves (Members Q r) (if b then m c else n c)
  if_Kept true h k c p = h.keeps c p
  if_Kept false h k c p = k.keeps c p

  pub change_state-Keeps : (now : ℕ) (state : RunState) → Kept (change_state now state)
  unfolding change_state
  change_state-Keeps now state = record {
    keeps = λ c h. elim (Bool-cases (to_usize c.run_state == to_usize state)) [
      | inl same ↦ rw same tt
      | inr other ↦ rw other h
    ];
  }

  pub check_timeout-Keeps : (now duration : ℕ) → Kept (check_timeout now duration)
  unfolding check_timeout
  check_timeout-Keeps now duration = record {
    keeps = λ c h. elim (Bool-cases (c.run_state_start_unix_timestamp == now)) [
      | inl same ↦ rw same h
      | inr other ↦
          let rest : Kept (
              checked u64_mod (duration + c.run_state_start_unix_timestamp) >>= λ limit.
              pure (leb limit now)) =
            bind-Keeps (checked-Keeps _ _) (λ limit. pure-Keeps _) in
          rw other (rest.keeps c h)
    ];
  }

  pub check_epoch_timeout-Keeps : (now : ℕ) → Kept (check_epoch_timeout now)
  unfolding check_epoch_timeout
  check_epoch_timeout-Keeps now = record {
    keeps = λ c h. elim (Bool-cases (c.epoch_state.start_timestamp == now)) [
      | inl same ↦ rw same h
      | inr other ↦
          let rest : Kept (
              checked u64_mod (c.epoch_state.start_timestamp + c.config.epoch_time) >>= λ limit.
              pure (leb limit now)) =
            bind-Keeps (checked-Keeps _ _) (λ limit. pure-Keeps _) in
          rw other (rest.keeps c h)
    ];
  }

  pub start_waiting_for_members-Keeps : (now : ℕ) → Kept (start_waiting_for_members now)
  unfolding start_waiting_for_members
  start_waiting_for_members-Keeps now = record {
    keeps = λ c h. (change_state-Keeps now _).keeps c h;
  }

  pub update_current_round-Keeps : (f : Round → Round) → Kept (update_current_round f)
  unfolding update_current_round
  update_current_round-Keeps f = record {
    keeps = λ c h. elim (Option-cases (current_round c)) [
      | inl missing ↦ rw missing tt
      | inr (x, there) ↦ rw there h
    ];
  }

  pub start_cooldown-Keeps : (now : ℕ) → Kept (start_cooldown now)
  unfolding start_cooldown
  start_cooldown-Keeps now = seq-Keeps (update_current_round-Keeps _) (change_state-Keeps now _)

  pub current_round_unchecked-Keeps : Kept current_round_unchecked
  unfolding current_round_unchecked
  current_round_unchecked-Keeps = record {
    keeps = λ c h. (unwrap-Keeps (current_round c)).keeps c h;
  }

  pub retain_healthy-AllIds :
      (height : ℕ) (xs exited ys e : List (Client T))
      → retain_healthy height xs exited ≡ some (ys, e)
      → AllIds Q xs
      → AllIds Q ys
  unfolding retain_healthy
  retain_healthy-AllIds height [] exited ys e h q = ground arith
  retain_healthy-AllIds height (x ∷ xs) exited ys e h q = elim (Bool-cases (is_healthy x.state)) [
    | inr ill ↦ elim (Bool-cases (ltb (length exited) solana_max_num_clients)) [
      | inl room ↦
          retain_healthy-AllIds height xs (exited ++ record x { exited_height = height } ∷ []) ys e
            (ground arith) q.1
      | inr full ↦ absurd (ground arith)
    ]
    | inl well ↦ elim (Option-cases (retain_healthy height xs exited)) [
      | inl full ↦ absurd (ground arith)
      | inr ((zs, e'), there) ↦
          let is : ys ≡ x ∷ zs = ground arith in
          rw is (q.0, retain_healthy-AllIds height xs exited zs e' there q.1)
    ]
  ]

  pub move_clients_to_exited-Keeps : (height : ℕ) → Kept (move_clients_to_exited height)
  unfolding move_clients_to_exited
  move_clients_to_exited-Keeps height = record {
    keeps = λ c h.
        elim (Option-cases
          (retain_healthy height c.epoch_state.clients c.epoch_state.exited_clients)) [
            | inl full ↦ rw (full, Leaves) tt
            | inr ((ys, e), there) ↦
                rw (there, Leaves) (h.0, retain_healthy-AllIds height _ _ ys e there h.1)
          ];
  }

  pub batch_size-Keeps : ⦃f : Float64⦄ (tokens : ℕ) → Kept (get_global_batch_size_for_tokens tokens)
  unfolding get_global_batch_size_for_tokens
  batch_size-Keeps tokens = record { keeps = λ c h. h }

  -- The rest of `next_round` on a later round reads the coordinator and changes nothing.
  pub later_round-Keeps :
      ⦃f : Float64⦄ (o : Option Round) (d : Coordinator T) (seq_len : ℕ)
      → Kept {A = ℕ × ℕ × ℕ} (do
        prev_round ← unwrap o
        prev_round_start_tokens ← checked u64_mod (prev_round.data_index * seq_len)
        prev_round_batch_size ← get_global_batch_size_for_tokens prev_round_start_tokens
        head ← checked u32_mod (d.epoch_state.rounds_head + 1)
        height ← checked u32_mod (prev_round.height + 1)
        data_index ← checked u64_mod (prev_round.data_index + prev_round_batch_size)
        pure (head % num_stored_rounds, height, data_index))
  later_round-Keeps o d seq_len = bind-Keeps (unwrap-Keeps o) (λ x.
      bind-Keeps (checked-Keeps u64_mod (x.data_index * seq_len)) (λ tokens.
        bind-Keeps {m = get_global_batch_size_for_tokens tokens} (batch_size-Keeps tokens) (λ size.
          bind-Keeps (checked-Keeps u32_mod (d.epoch_state.rounds_head + 1)) (λ head.
            bind-Keeps (checked-Keeps u32_mod (x.height + 1)) (λ height.
              bind-Keeps (checked-Keeps u64_mod (x.data_index + size))
                (λ index. pure-Keeps (head % num_stored_rounds, height, index)))))))

  pub next_round-Keeps : ⦃f : Float64⦄ → Kept next_round
  unfolding next_round
  next_round-Keeps = record {
    keeps = λ c h. elim (Bool-cases c.epoch_state.first_round) [
      | inl first ↦ rw (first, Leaves) h
      | inr later ↦ else-Leaves (Members Q r) c.epoch_state.first_round _ _ later (
          (later_round-Keeps (get_elem? c.epoch_state.rounds c.epoch_state.rounds_head) c
              (get_sequence_length c)).keeps
            c h)
    ];
  }

  pub start_round_train-Keeps :
      ⦃f : Float64⦄ (now seed tasks : ℕ) → Kept (start_round_train now seed tasks)
  unfolding start_round_train
  start_round_train-Keeps now seed tasks = bind-Keeps {m = next_round} next_round-Keeps (λ next.
      record {
        keeps = λ c h. elim (Option-cases (get_elem? c.epoch_state.rounds next.0)) [
          | inl missing ↦ rw missing tt
          | inr (x, there) ↦
              rw there
                ((change_state-Keeps now round_train).keeps (enter_round seed tasks next c) h)
        ];
      })

  pub AllIds-set :
      (xs : List (Client T)) (i : ℕ) (x : Client T) (state : ClientState)
      → get_elem? xs i ≡ some x
      → AllIds Q xs
      → AllIds Q (set xs i (record x { state = state }))
  AllIds-set [] i x state h q = tt
  AllIds-set (y ∷ ys) zero x state h q = let is : y ≡ x = ground arith in (rw is at q.0, q.1)
  AllIds-set (y ∷ ys) (suc i) x state h q = (q.0, AllIds-set ys i x state h q.1)

  pub withdraw-Keeps : (index : ℕ) → Kept (withdraw index)
  unfolding withdraw
  withdraw-Keeps index = record {
    keeps = λ c h. elim (Option-cases (get_elem? c.epoch_state.clients index)) [
      | inl missing ↦ rw (missing, Leaves) h
      | inr (x, there) ↦ elim (Bool-cases (is_healthy x.state)) [
        | inl well ↦ rw (there, Leaves, well) (h.0, AllIds-set _ index x _ there h.1)
        | inr ill ↦ rw (there, Leaves, ill) h
      ]
    ];
  }

  pub withdraw_from-Keeps : (n i : ℕ) → Kept (withdraw_from n i)
  unfolding withdraw_from
  withdraw_from-Keeps zero i = pure-Keeps tt
  withdraw_from-Keeps (suc n) i = seq-Keeps (withdraw-Keeps i) (withdraw_from-Keeps n (i + 1))

  pub withdraw_all-Keeps : Kept withdraw_all
  unfolding withdraw_all
  withdraw_all-Keeps = record { keeps = λ c h. (withdraw_from-Keeps _ 0).keeps c h }
