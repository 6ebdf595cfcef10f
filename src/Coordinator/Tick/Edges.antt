-- ===== src/Coordinator/Tick/Edges.antt =====
-- The diagram of run states that shared/coordinator/src/coordinator.rs implements.
use psyche.Coordinator.Types.{
  RunState, waiting_for_members, warmup, round_train, round_witness, cooldown, finished, paused,
}

infix 40 ◌⟶◌
-- What one tick may do to the run state.
pub data ◌⟶◌ : RunState → RunState → Type 0 where
  stay : {s : RunState} → s ⟶ s
  members_ready : waiting_for_members ⟶ warmup
  first_round : warmup ⟶ round_train
  too_few : warmup ⟶ waiting_for_members
  too_few_at_end : warmup ⟶ finished
  collect_witnesses : round_train ⟶ round_witness
  another_round : round_witness ⟶ round_train
  wind_down : round_witness ⟶ cooldown
  next_epoch : cooldown ⟶ waiting_for_members
  complete : cooldown ⟶ finished
  pausing : cooldown ⟶ paused

pub ruleset edges = (
  stay, members_ready, first_round, too_few, too_few_at_end, collect_witnesses, another_round,
  wind_down, next_epoch, complete, pausing,
)
