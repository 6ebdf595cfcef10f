-- ===== src/Coordinator/Examples/Rounds.antt =====
-- Examples for the rounds: ticks, the ring of rounds, and the clients that leave.
use psyche.Base.{
  ℕ, ◌≡◌, refl, false, some, none, [], ◌∷◌, get_elem?, ◌<◌, err, arith, Returns, ◌++◌,
}
use psyche.Coordinator.Types.{round_witness, Round, Coordinator, zero_round, invalid_withdraw}
use psyche.Coordinator.Rounds.{
  current_round, previous_round, previous_previous_round, get_sequence_length, halted,
}
use psyche.Coordinator.Invariant.{IsValid, Fits, RoundFits}
use psyche.Coordinator.Lifecycle.{withdraw_all, start_round_train, entered, is_healthy}
use psyche.Coordinator.Lifecycle.Leaving.{withdraw_all_stops, withdrawn_clients, with_clients}
use psyche.Coordinator.Lifecycle.Ring.{
  start_round_train_shifts, previous_previous_round_stale, after,
}
use psyche.Coordinator.Tick.{tick}
use psyche.Coordinator.Tick.Steps.{Steps}
use psyche.Coordinator.Tick.Laws.{tick-Steps}
use psyche.Coordinator.Examples.{
  toy_floats, toy_identity, toy_floats-RoundsToU16, training, running, first_rounds, first_round,
  member, lost,
}

first_round-eq : (r : Round) → get_elem? first_rounds 0 ≡ some r → r ≡ first_round
first_round-eq r e = ground arith

training-IsValid : IsValid training
training-IsValid = record {
  ring = refl;
  head = omega arith;
  in_step = λ r e. rw (first_round-eq r e) refl;
  room = omega arith;
}

first_round-RoundFits : RoundFits 8 first_round
first_round-RoundFits = record { tokens = omega arith; index = omega arith; height = omega arith }

training-Fits : Fits training
unfolding get_sequence_length
training-Fits = record {
  rounds = λ r e. rw (first_round-eq r e) first_round-RoundFits;
  step = omega arith;
  epoch = omega arith;
  batch_size = omega arith;
  warmup = omega arith;
  cooldown = omega arith;
  train = omega arith;
  witness = omega arith;
  members = omega arith;
  epoch_time = omega arith;
}

training-halted : halted training ≡ false
unfolding halted
training-halted = refl

tick-Steps_example : Returns (tick none 116 9 training) (λ r d. Steps training d)
tick-Steps_example =
    tick-Steps none training 116 9 toy_floats-RoundsToU16 training-IsValid training-Fits
      training-halted

abbrev witnessing : Coordinator ℕ
witnessing = running round_witness first_rounds 0

witnessing-IsValid : IsValid witnessing
witnessing-IsValid = training-IsValid

witnessing-fits : RoundFits (get_sequence_length witnessing) first_round
unfolding get_sequence_length
witnessing-fits = first_round-RoundFits

witnessing-current : current_round witnessing ≡ some first_round
unfolding current_round
witnessing-current = refl

start_round_train_shifts_example : Returns (start_round_train 117 9 0 witnessing) (λ _ d.
    IsValid d
    × (current_round d ≡ some (entered 9 0 (after witnessing first_round) witnessing))
    × (previous_round d ≡ some first_round)
    × (0 < 0 → previous_previous_round d ≡ previous_round witnessing))
start_round_train_shifts_example =
    start_round_train_shifts witnessing first_round 117 9 0 toy_floats-RoundsToU16
      witnessing-IsValid witnessing-fits (omega arith) witnessing-current (ground arith) refl

-- The last slot of the ring still holds a round of the epoch before.
abbrev old_round : Round
old_round = record zero_round { height = 7; data_index = 900 }

abbrev stale : Coordinator ℕ
stale = running round_witness (first_round ∷ zero_round ∷ zero_round ∷ old_round ∷ []) 0

stale-IsValid : IsValid stale
stale-IsValid = record {
  ring = refl;
  head = omega arith;
  in_step = λ r e. ground arith;
  room = omega arith;
}

stale-fits : RoundFits (get_sequence_length stale) first_round
unfolding get_sequence_length
stale-fits = first_round-RoundFits

stale-current : current_round stale ≡ some first_round
unfolding current_round
stale-current = refl

previous_previous_round_stale_example :
    (previous_round stale ≡ none)
    × Returns (start_round_train 117 9 0 stale) (λ _ d. previous_previous_round d ≡ some old_round)
previous_previous_round_stale_example =
    previous_previous_round_stale stale first_round old_round 117 9 0 toy_floats-RoundsToU16
      stale-IsValid stale-fits (omega arith) stale-current (ground arith) refl refl refl

-- Its second client was dropped.
abbrev thinned : Coordinator ℕ
thinned = with_clients (member 10 ∷ lost 11 ∷ member 12 ∷ []) training

lost-is_healthy : is_healthy (lost 11).state ≡ false
lost-is_healthy = refl

withdraw_all_stops_example :
    withdraw_all thinned
    ≡ err invalid_withdraw
        (with_clients (withdrawn_clients (member 10 ∷ []) ++ lost 11 ∷ member 12 ∷ []) thinned)
withdraw_all_stops_example =
    withdraw_all_stops thinned (member 10 ∷ []) (lost 11) (member 12 ∷ []) (refl, tt)
      lost-is_healthy refl
