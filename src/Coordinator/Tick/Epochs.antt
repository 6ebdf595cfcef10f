-- ===== src/Coordinator/Tick/Epochs.antt =====
-- What the helpers that begin and end an epoch or a round do: they return, keep the invariant, and
-- follow the diagram.
use psyche.Base.{
  ℕ, ◌%◌, ◌≡◌, refl, ◌∙◌, Bool, Option, none, some, List, length, arith, inl, inr, Bool-cases,
  u16_mod, leb, Returns, take, length-map, length-take,
}
use psyche.Coordinator.Types.{
  NodeIdentity, waiting_for_members, warmup, Coordinator, new_client, solana_max_num_clients,
}
use psyche.Coordinator.Rounds.{current_round_unchecked}
use psyche.Coordinator.Invariant.{IsValid, Fits}
use psyche.Coordinator.Lifecycle.{start_warmup}
use psyche.Coordinator.Lifecycle.Leaving.{moved, move_clients_to_exited_lem}
use psyche.Coordinator.Tick.{tick_waiting_for_members, start_epoch}
use psyche.Coordinator.Tick.Edges.{stay, members_ready}
use psyche.Coordinator.Tick.Steps.{
  Steps, timed_out, check_timeout_lem, change_state_lem, current_of,
}

module _ {T : Type 0} where
  -- An epoch begins with at most 256 clients and an empty ring.
  start_epoch-IsValid :
      ⦃node : NodeIdentity T⦄ (pending : List T) (now : ℕ) (c : Coordinator T)
      → IsValid (start_epoch pending now c)
  unfolding start_epoch
  start_epoch-IsValid pending now c = record {
    ring = refl;
    head = omega arith;
    in_step = λ r e. ground arith;
    room = omega (
      arith,
      length-map (take solana_max_num_clients pending) new_client,
      length-take solana_max_num_clients pending,
    );
  }

  run_state-start_epoch :
      ⦃node : NodeIdentity T⦄ (pending : List T) (now : ℕ) (c : Coordinator T)
      → (start_epoch pending now c).run_state ≡ c.run_state
  unfolding start_epoch
  run_state-start_epoch pending now c = refl

  -- Whether there are enough members to begin.
  abbrev enough_members : List T → Coordinator T → Bool
  enough_members pending c = leb c.config.init_min_clients (length pending % u16_mod)

  pub tick_waiting_for_members-Steps :
      ⦃node : NodeIdentity T⦄ (pending : Option (List T)) (c : Coordinator T) (now : ℕ)
      → IsValid c
      → Fits c
      → c.run_state ≡ waiting_for_members
      → Returns (tick_waiting_for_members pending now c) (λ r d. Steps c d)
  unfolding tick_waiting_for_members current_round_unchecked start_warmup
  tick_waiting_for_members-Steps none c now v fits e = record { valid = v; edge = stay }
  tick_waiting_for_members-Steps (some pending) c now v fits e =
      elim (Bool-cases (enough_members pending c)) [
        | inr few ↦ rw few (record { valid = v; edge = stay })
        | inl enough ↦ elim (Bool-cases (timed_out now c.config.waiting_for_members_extra_time c)) [
          | inr not_yet ↦
              rw
                (
                  enough,
                  check_timeout_lem now c.config.waiting_for_members_extra_time c fits.members,
                  not_yet,
                )
                (record { valid = v; edge = stay })
          | inl over ↦
              let (r, found) = current_of c v in
              let m = moved r.height c in
              let state : (start_epoch pending now m).run_state ≡ waiting_for_members =
                run_state-start_epoch pending now m ∙ e in
              rw
                (
                  enough,
                  check_timeout_lem now c.config.waiting_for_members_extra_time c fits.members,
                  over,
                  found,
                  move_clients_to_exited_lem r.height c v.room,
                  change_state_lem now warmup (start_epoch pending now m) (ground arith),
                )
                (record { valid = start_epoch-IsValid pending now m; edge = rw e members_ready })
        ]
      ]
