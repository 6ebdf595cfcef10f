-- ===== src/Coordinator/Lifecycle/Ring.antt =====
-- The ring of stored rounds under `start_round_train` of shared/coordinator/src/coordinator.rs.
use psyche.Base.{
  ℕ, ◌+◌, ◌-◌, ◌*◌, ◌%◌, ◌<◌, ◌≡◌, ◌∙◌, ◌≢◌, true, false, none, some, get_elem?, ok, arith, inl,
  inr, Bool-cases, if◌then◌else◌, get_elem?-set_self, get_elem?-set_ne, get_elem?-in_range,
  length-set, u16_mod, Returns,
}
use psyche.Coordinator.Types.{round_train, Round, Coordinator, CoordinatorConfig, num_stored_rounds}
use psyche.Coordinator.Config.{Float64, get_batch_size}
use psyche.Coordinator.Rounds.{
  current_round, previous_round, previous_previous_round, get_sequence_length,
  get_global_batch_size_for_tokens,
}
use psyche.Coordinator.Invariant.{IsValid, RoundFits, RoundsToU16}
use psyche.Coordinator.Lifecycle.{change_state, next_round, entered, enter_round, start_round_train}

pub get_batch_size-lt :
    (f : Float64) (c : CoordinatorConfig) (tokens : ℕ)
    → RoundsToU16 f
    → c.global_batch_size_end < u16_mod
    → get_batch_size ⦃f = f⦄ c tokens < u16_mod
unfolding get_batch_size
get_batch_size-lt f c tokens w h =
    let progress = f.div (f.of_int tokens) (f.of_int c.global_batch_size_warmup_tokens) in
    let start = f.of_int c.global_batch_size_start in
    let end = f.of_int c.global_batch_size_end in
    ground (arith, w.bounded (f.add start (f.mul (f.sub end start) progress)))

module _ {T : Type 0} ⦃f : Float64⦄ where
  -- The head, height and data index of the round that follows round `r`.
  abbrev pub after : Coordinator T → Round → ℕ × ℕ × ℕ
  after c r = (
    (c.epoch_state.rounds_head + 1) % num_stored_rounds,
    r.height + 1,
    r.data_index + get_batch_size c.config (r.data_index * get_sequence_length c),
  )

  -- The state after `start_round_train` has entered the round `next`.
  abbrev pub trained : ℕ → ℕ → ℕ → ℕ × ℕ × ℕ → Coordinator T → Coordinator T
  trained now seed tasks next c = record (enter_round seed tasks next c) {
    run_state_start_unix_timestamp = now;
    run_state = round_train;
  }

  next_round-first :
      (c : Coordinator T)
      → c.epoch_state.first_round ≡ true
      → next_round c ≡ ok (0, 0, c.progress.epoch_start_data_index) c
  unfolding next_round
  next_round-first c e = ground arith

  next_round-later :
      (c : Coordinator T) (r : Round)
      → RoundsToU16 f
      → RoundFits (get_sequence_length c) r
      → c.config.global_batch_size_end < u16_mod
      → get_elem? c.epoch_state.rounds c.epoch_state.rounds_head ≡ some r
      → c.epoch_state.rounds_head < num_stored_rounds
      → c.epoch_state.first_round ≡ false
      → next_round c ≡ ok (after c r) c
  unfolding next_round get_global_batch_size_for_tokens
  next_round-later c r w fit small e head first =
      ground (arith, get_batch_size-lt f c.config (r.data_index * get_sequence_length c) w small)

  -- What a call of `start_round_train` enters: the first round of the epoch, or the successor of `r`.
  abbrev pub next_of : Coordinator T → Round → ℕ × ℕ × ℕ
  next_of c r =
      if c.epoch_state.first_round then (0, 0, c.progress.epoch_start_data_index) else after c r

  next_round-eq :
      (c : Coordinator T) (r : Round)
      → RoundsToU16 f
      → IsValid c
      → RoundFits (get_sequence_length c) r
      → c.config.global_batch_size_end < u16_mod
      → current_round c ≡ some r
      → next_round c ≡ ok (next_of c r) c
  unfolding current_round
  next_round-eq c r w valid fit small e = elim (Bool-cases c.epoch_state.first_round) [
    | inl first ↦ ground (arith, next_round-first c first)
    | inr later ↦ ground (arith, next_round-later c r w fit small e valid.head later)
  ]

  next_head-lt : (c : Coordinator T) (r : Round) → (next_of c r).0 < num_stored_rounds
  next_head-lt c r = ground arith

  -- From any state but `round_train` the call returns, in the next round's state.
  pub start_round_train_lem :
      (c : Coordinator T) (r : Round) (now seed tasks : ℕ)
      → RoundsToU16 f
      → IsValid c
      → RoundFits (get_sequence_length c) r
      → c.config.global_batch_size_end < u16_mod
      → current_round c ≡ some r
      → c.run_state ≢ round_train
      → start_round_train now seed tasks c ≡ ok tt (trained now seed tasks (next_of c r) c)
  unfolding start_round_train change_state
  start_round_train_lem c r now seed tasks w valid fit small e state =
      let (entry, found) =
        get_elem?-in_range c.epoch_state.rounds (next_of c r).0
          (omega (arith, valid.ring, next_head-lt c r)) in
      rw (next_round-eq c r w valid fit small e, found) (ground arith)

  pub trained-IsValid :
      (c : Coordinator T) (r : Round) (now seed tasks : ℕ)
      → IsValid c
      → current_round c ≡ some r
      → IsValid (trained now seed tasks (next_of c r) c)
  unfolding current_round
  trained-IsValid c r now seed tasks valid e = record {
    ring = length-set c.epoch_state.rounds (next_of c r).0 _ ∙ valid.ring;
    head = next_head-lt c r;
    in_step = λ s found. ground (
      arith,
      get_elem?-set_self c.epoch_state.rounds (next_of c r).0 (entered seed tasks (next_of c r) c),
      valid.in_step r e,
      next_head-lt c r,
    );
    room = valid.room;
  }

  -- The head's slot is written and the three others are kept.
  current_round-trained :
      (c : Coordinator T) (r : Round) (now seed tasks : ℕ)
      → IsValid c
      → current_round (trained now seed tasks (next_of c r) c)
        ≡ some (entered seed tasks (next_of c r) c)
  unfolding current_round
  current_round-trained c r now seed tasks valid =
      get_elem?-set_self c.epoch_state.rounds (next_of c r).0 (entered seed tasks (next_of c r) c)
        (omega (arith, valid.ring, next_head-lt c r))

  previous_round-trained :
      (c : Coordinator T) (r : Round) (now seed tasks : ℕ)
      → IsValid c
      → c.epoch_state.first_round ≡ false
      → current_round c ≡ some r
      → previous_round (trained now seed tasks (next_of c r) c) ≡ some r
  unfolding previous_round current_round
  previous_round-trained c r now seed tasks valid later e =
      let new = entered seed tasks (next_of c r) c in
      let rounds = c.epoch_state.rounds in
      ground (
        arith,
        current_round-trained c r now seed tasks valid,
        get_elem?-set_ne rounds (next_of c r).0 c.epoch_state.rounds_head new,
        valid.head,
      )

  previous_previous_round-trained :
      (c : Coordinator T) (r : Round) (now seed tasks : ℕ)
      → IsValid c
      → c.epoch_state.first_round ≡ false
      → current_round c ≡ some r
      → 0 < r.height
      → previous_previous_round (trained now seed tasks (next_of c r) c) ≡ previous_round c
  unfolding previous_round previous_previous_round current_round
  previous_previous_round-trained c r now seed tasks valid later e pos =
      let new = entered seed tasks (next_of c r) c in
      let rounds = c.epoch_state.rounds in
      ground (
        arith,
        current_round-trained c r now seed tasks valid,
        get_elem?-set_ne rounds (next_of c r).0 (c.epoch_state.rounds_head - 1) new,
        get_elem?-set_ne rounds (next_of c r).0 (num_stored_rounds - 1) new,
        valid.head,
        valid.in_step r e,
      )

  -- When a later round begins, from a valid state with room in its words, that is not training, the
  -- call returns a valid state whose current round is the new one and whose previous round is the
  -- old current one; if that was not the epoch's first round, the one before the previous is the old
  -- previous round.
  pub start_round_train_shifts :
      (c : Coordinator T) (r : Round) (now seed tasks : ℕ)
      → RoundsToU16 f
      → IsValid c
      → RoundFits (get_sequence_length c) r
      → c.config.global_batch_size_end < u16_mod
      → current_round c ≡ some r
      → c.run_state ≢ round_train
      → c.epoch_state.first_round ≡ false
      → Returns (start_round_train now seed tasks c) (λ _ d.
        IsValid d
        × (current_round d ≡ some (entered seed tasks (after c r) c))
        × (previous_round d ≡ some r)
        × (0 < r.height → previous_previous_round d ≡ previous_round c))
  start_round_train_shifts c r now seed tasks w valid fit small e state later =
      rw (start_round_train_lem c r now seed tasks w valid fit small e state) (
        trained-IsValid c r now seed tasks valid e,
        current_round-trained c r now seed tasks valid ∙ ground arith,
        previous_round-trained c r now seed tasks valid later e,
        previous_previous_round-trained c r now seed tasks valid later e,
      )

  -- When the second round of an epoch is entered from a valid state with room in its words, only
  -- one round lies behind, and yet the code yields a round before the previous one: whatever
  -- stands in the last slot of the ring, which this epoch has not entered.
  pub previous_previous_round_stale :
      (c : Coordinator T) (r s : Round) (now seed tasks : ℕ)
      → RoundsToU16 f
      → IsValid c
      → RoundFits (get_sequence_length c) r
      → c.config.global_batch_size_end < u16_mod
      → current_round c ≡ some r
      → c.run_state ≢ round_train
      → c.epoch_state.first_round ≡ false
      → r.height ≡ 0
      → get_elem? c.epoch_state.rounds (num_stored_rounds - 1) ≡ some s
      → (previous_round c ≡ none)
        × Returns (start_round_train now seed tasks c) (λ _ d. previous_previous_round d ≡ some s)
  unfolding previous_round previous_previous_round current_round
  previous_previous_round_stale c r s now seed tasks w valid fit small e state later zero_height
        last =
      let new = entered seed tasks (next_of c r) c in
      (
        ground (arith, valid.in_step r e),
        rw (start_round_train_lem c r now seed tasks w valid fit small e state) (
            ground (
              arith,
              current_round-trained c r now seed tasks valid,
              get_elem?-set_ne c.epoch_state.rounds (next_of c r).0 (num_stored_rounds - 1) new,
              valid.in_step r e,
              valid.head,
            )),
      )
