-- ===== src/Coordinator/Tick/Laws.antt =====
-- `tick` of shared/coordinator/src/coordinator.rs as a whole.
use psyche.Base.{ℕ, ◌≡◌, refl, false, Option, List, Returns}
use psyche.Coordinator.Types.{
  NodeIdentity, RunState, uninitialized, waiting_for_members, warmup, round_train, round_witness,
  cooldown, finished, paused, Coordinator,
}
use psyche.Coordinator.Config.{Float64}
use psyche.Coordinator.Rounds.{halted, is_halted}
use psyche.Coordinator.Invariant.{IsValid, Fits, RoundsToU16}
use psyche.Coordinator.Tick.{tick, tick_in}
use psyche.Coordinator.Tick.Steps.{Steps, tick_round_train-Steps, tick_warmup-Steps}
use psyche.Coordinator.Tick.Epochs.{tick_waiting_for_members-Steps}
use psyche.Coordinator.Tick.Cooldowns.{tick_cooldown-Steps}
use psyche.Coordinator.Tick.RoundEnds.{tick_round_witness-Steps}

module _ {T : Type 0} ⦃node : NodeIdentity T⦄ ⦃f : Float64⦄ where
  tick_in-Steps :
      (state : RunState) (pending : Option (List T)) (c : Coordinator T) (now seed : ℕ)
      → c.run_state ≡ state
      → is_halted state ≡ false
      → RoundsToU16 f
      → IsValid c
      → Fits c
      → Returns (tick_in state pending now seed c) (λ r d. Steps c d)
  tick_in-Steps uninitialized pending c now seed e h w v fits = cc
  tick_in-Steps waiting_for_members pending c now seed e h w v fits =
      tick_waiting_for_members-Steps pending c now v fits e
  tick_in-Steps warmup pending c now seed e h w v fits = tick_warmup-Steps c now seed w v fits e
  tick_in-Steps round_train pending c now seed e h w v fits = tick_round_train-Steps c now v fits e
  tick_in-Steps round_witness pending c now seed e h w v fits =
      tick_round_witness-Steps c now seed w v fits e
  tick_in-Steps cooldown pending c now seed e h w v fits = tick_cooldown-Steps c now w v fits e
  tick_in-Steps finished pending c now seed e h w v fits = cc
  tick_in-Steps paused pending c now seed e h w v fits = cc

  -- When the float operations round to 16 bits, from every state that is valid, fits its words and
  -- is not halted, `tick` returns: no assertion, index, `unwrap` or overflow panics and no error is
  -- raised. The new state is valid, and its run state is the old one or an edge of the diagram away.
  pub tick-Steps :
      (pending : Option (List T)) (c : Coordinator T) (now seed : ℕ)
      → RoundsToU16 f
      → IsValid c
      → Fits c
      → halted c ≡ false
      → Returns (tick pending now seed c) (λ r d. Steps c d)
  unfolding tick halted
  tick-Steps pending c now seed w v fits h =
      tick_in-Steps c.run_state pending c now seed refl h w v fits
