-- ===== src/Coordinator/Tick/Steps.antt =====
-- What the helper of each run state does: it returns, keeps the invariant, and follows the diagram.
use psyche.Base.{
  ℕ, ◌+◌, ◌%◌, ◌<◌, ◌≡◌, refl, sym, ◌≢◌, Bool, some, length, get_elem?, ok, arith, inl, inr, ◌⊎◌,
  Bool-cases, ltb, if◌then◌else◌, ◌==◌, u16_mod, u64_mod, leb, ◌&&◌, not, Returns, Returns-map,
  get_elem?-in_range, length-append,
}
use mathlib.Core.Path.{subst}
use psyche.Coordinator.Types.{
  RunState, waiting_for_members, warmup, round_train, round_witness, finished, Round, Coordinator,
}
use psyche.Coordinator.Config.{Float64}
use psyche.Coordinator.Rounds.{current_round, current_round_unchecked}
use psyche.Coordinator.Invariant.{EpochIsValid, IsValid, Fits, RoundsToU16}
use psyche.Coordinator.Lifecycle.{to_usize, change_state, check_timeout, start_waiting_for_members}
use psyche.Coordinator.Lifecycle.Leaving.{
  moved, move_clients_to_exited_lem, leaving_clients, length-healthy-leaving,
}
use psyche.Coordinator.Lifecycle.Ring.{trained, next_of, start_round_train_lem, trained-IsValid}
use psyche.Coordinator.Tick.{tick_round_train, tick_warmup, check_min_clients}
use psyche.Coordinator.Tick.Edges.{◌⟶◌, edges, stay, collect_witnesses}

module _ {T : Type 0} where
  -- What every tick from `c` guarantees of its result `d`.
  pub record Steps (c d : Coordinator T) : Type 0 where
    pub valid : IsValid d
    pub edge : c.run_state ⟶ d.run_state

  pub moved-IsValid : (h : ℕ) (c : Coordinator T) → IsValid c → IsValid (moved h c)
  moved-IsValid h c v = record {
    ring = v.ring;
    head = v.head;
    in_step = v.in_step;
    room = omega (
      arith,
      v.room,
      length-healthy-leaving h c.epoch_state.clients,
      length-append c.epoch_state.exited_clients (leaving_clients h c.epoch_state.clients),
    );
  }

  -- Whether the time of the run state is over.
  abbrev pub timed_out : ℕ → ℕ → Coordinator T → Bool
  timed_out now duration c =
      not (c.run_state_start_unix_timestamp == now)
      && leb (duration + c.run_state_start_unix_timestamp) now

  pub check_timeout_lem :
      (now duration : ℕ) (c : Coordinator T)
      → duration + c.run_state_start_unix_timestamp < u64_mod
      → check_timeout now duration c ≡ ok (timed_out now duration c) c
  unfolding check_timeout
  check_timeout_lem now duration c fits = ground arith

  abbrev pub in_state : ℕ → RunState → Coordinator T → Coordinator T
  in_state now state c = record c { run_state_start_unix_timestamp = now; run_state = state }

  pub change_state_lem :
      (now : ℕ) (state : RunState) (c : Coordinator T)
      → to_usize c.run_state ≢ to_usize state
      → change_state now state c ≡ ok tt (in_state now state c)
  unfolding change_state
  change_state_lem now state c h = ground arith

  pub tick_round_train-Steps :
      (c : Coordinator T) (now : ℕ)
      → IsValid c
      → Fits c
      → c.run_state ≡ round_train
      → Returns (tick_round_train now c) (λ r d. Steps c d)
  unfolding tick_round_train
  tick_round_train-Steps c now v fits e =
      elim (Bool-cases (timed_out now c.config.max_round_train_time c)) [
        | inl over ↦
            rw
              (
                check_timeout_lem now c.config.max_round_train_time c fits.train,
                over,
                change_state_lem now round_witness c (ground arith),
              )
              (record { valid = v; edge = rw e collect_witnesses })
        | inr not_yet ↦
            rw (check_timeout_lem now c.config.max_round_train_time c fits.train, not_yet)
              (record { valid = v; edge = stay })
      ]

  -- The state in which a run goes on after an epoch.
  abbrev pub resting : Coordinator T → RunState
  resting c = if ltb c.progress.step c.config.total_steps then waiting_for_members else finished

  pub start_waiting_for_members_lem :
      (now : ℕ) (c : Coordinator T)
      → c.run_state ≢ waiting_for_members
      → c.run_state ≢ finished
      → start_waiting_for_members now c ≡ ok tt (in_state now (resting c) c)
  unfolding start_waiting_for_members
  start_waiting_for_members_lem now c h k = change_state_lem now (resting c) c (ground arith)

  pub current_of : (c : Coordinator T) → IsValid c → (r : Round) × (current_round c ≡ some r)
  unfolding current_round
  current_of c v =
      get_elem?-in_range c.epoch_state.rounds c.epoch_state.rounds_head
        (omega (arith, v.ring, v.head))

  pub current_round_unchecked_lem :
      (c : Coordinator T) (r : Round)
      → get_elem? c.epoch_state.rounds c.epoch_state.rounds_head ≡ some r
      → current_round_unchecked c ≡ ok r c
  unfolding current_round_unchecked current_round
  current_round_unchecked_lem c r e = rw e

  -- Whether the epoch is left with too few clients.
  abbrev short_of_clients : Coordinator T → Bool
  short_of_clients c = ltb (length c.epoch_state.clients % u16_mod) c.config.min_clients

  -- After the warmup's move the run stays where it is, or rests.
  check_min_clients-Returns :
      (c : Coordinator T) (now : ℕ)
      → c.run_state ≢ waiting_for_members
      → c.run_state ≢ finished
      → Returns (check_min_clients now c) (λ r d.
        (d.epoch_state ≡ c.epoch_state)
        × ((d.run_state ≡ c.run_state)
            ⊎ (d.run_state ≡ waiting_for_members)
            ⊎ (d.run_state ≡ finished)))
  unfolding check_min_clients
  check_min_clients-Returns c now h k = elim (Bool-cases (short_of_clients c)) [
    | inl short ↦ rw (short, start_waiting_for_members_lem now c h k) (refl, ground arith)
    | inr enough ↦ rw enough (refl, inl refl)
  ]

  after_edge :
      (c m d : Coordinator T)
      → c.run_state ≡ warmup
      → (m.run_state ≡ warmup) ⊎ (m.run_state ≡ round_train)
      → (d.run_state ≡ m.run_state) ⊎ (d.run_state ≡ waiting_for_members) ⊎ (d.run_state ≡ finished)
      → c.run_state ⟶ d.run_state
  after_edge c m d e at state = grind (arith, edges)

  after_warmup :
      (c m : Coordinator T) (now : ℕ)
      → c.run_state ≡ warmup
      → IsValid m
      → (m.run_state ≡ warmup) ⊎ (m.run_state ≡ round_train)
      → Returns (check_min_clients now m) (λ r d. Steps c d)
  after_warmup c m now e v at =
      Returns-map (check_min_clients now m) _ (λ r d. Steps c d)
        (λ r d (same, state). record {
          valid = subst EpochIsValid (sym same) v;
          edge = after_edge c m d e at state;
        })
        (check_min_clients-Returns m now (ground arith) (ground arith))

  pub tick_warmup-Steps :
      ⦃f : Float64⦄ (c : Coordinator T) (now seed : ℕ)
      → RoundsToU16 f
      → IsValid c
      → Fits c
      → c.run_state ≡ warmup
      → Returns (tick_warmup now seed c) (λ r d. Steps c d)
  unfolding tick_warmup
  tick_warmup-Steps c now seed w v fits e =
      let (r, found) = current_of c v in
      elim (Bool-cases (timed_out now c.config.warmup_time c)) [
        | inl over ↦
            rw
              (
                check_timeout_lem now c.config.warmup_time c fits.warmup,
                over,
                start_round_train_lem c r now seed 0 w v
                    (fits.rounds r (unfold current_round in found)) fits.batch_size found
                    (ground arith),
              )
              (after_warmup c (trained now seed 0 (next_of c r) c) now e
                (trained-IsValid c r now seed 0 v found) (inr refl))
        | inr not_yet ↦
            rw
              (
                check_timeout_lem now c.config.warmup_time c fits.warmup,
                not_yet,
                move_clients_to_exited_lem 0 c v.room,
              )
              (after_warmup c (moved 0 c) now e (moved-IsValid 0 c v) (inl e))
      ]
