-- ===== src/Solana/Methods/Pauses.antt =====
-- An epoch that ends in a pause pays nobody: `tick` of instance_state.rs.
use psyche.Base.{
  ℕ, ◌≡◌, refl, ◌∙◌, ap, sym, inl, inr, true, Option, none, List, [], ◌∷◌, ok, map, arith,
  bind-eq-ok, Outcome-cases, Option-cases,
}
use psyche.Core.Hashing.{Hashing}
use psyche.Coordinator.Types
use psyche.Coordinator.Types.{
  Coord, cooldown, paused, withdrawn, TickResult, ticked, epoch_end, Coordinator,
}
use psyche.Coordinator.Config.{Float64}
use psyche.Coordinator.Lifecycle.Leaving.{withdrawn_clients}
use psyche.Coordinator.Tick.{tick_cooldown}
use psyche.Coordinator.Tick.Pauses.{tick_cooldown-pauses}
use psyche.Coordinator.Tick
use psyche.Solana.ClientsState.{ClientId, ClientId-NodeIdentity, Client}
use psyche.Solana.Instance.{
  CoordinatorInstanceState, Clock, in_coordinator, get_random_seed, after_tick, reward,
  increment_next_active,
}
use psyche.Solana.Methods.{tick, pending_clients}
use psyche.Solana.Methods.Rewards.{NoneHealthy, reward-NoneHealthy}

abbrev pub earned_of : CoordinatorInstanceState → List ℕ
earned_of s = map Client.earned s.clients_state.clients

withdrawn-NoneHealthy : (xs : List (Types.Client ClientId)) → NoneHealthy (withdrawn_clients xs)
withdrawn-NoneHealthy [] = tt
withdrawn-NoneHealthy (x ∷ xs) = (refl, withdrawn-NoneHealthy xs)

-- Nobody is waited for during a cooldown.
pending_clients-cooldown :
    (s : CoordinatorInstanceState)
    → s.coordinator.run_state ≡ cooldown
    → pending_clients s ≡ ok none s
unfolding pending_clients
pending_clients-cooldown s e = ground arith

after_tick-NoneHealthy :
    (s t : CoordinatorInstanceState)
    → NoneHealthy s.coordinator.epoch_state.clients
    → after_tick (epoch_end true) s ≡ ok tt t
    → earned_of t ≡ earned_of s
unfolding after_tick
after_tick-NoneHealthy s t n h =
    let finished = s.coordinator.epoch_state.clients in
    let exited = s.coordinator.epoch_state.exited_clients in
    let rates = s.clients_state.current_epoch_rates in
    elim (Option-cases (reward finished exited rates 0 0 s.clients_state.clients)) [
      | inl e ↦ ground arith
      | inr (ys, e) ↦
          let same = reward-NoneHealthy finished exited rates 0 0 s.clients_state.clients ys n e in
          let paid : t.clients_state.clients ≡ ys = ground arith in
          ap (map Client.earned) paid ∙ same
    ]

after_tick-ticked :
    (s t : CoordinatorInstanceState) → after_tick ticked s ≡ ok tt t → earned_of t ≡ earned_of s
unfolding after_tick increment_next_active
after_tick-ticked s t h =
    let kept : t.clients_state.clients ≡ s.clients_state.clients = ground arith in
    ap (map Client.earned) kept

pub in_coordinator-ok :
    {A : Type 0} (m : Coord ClientId A) (s t : CoordinatorInstanceState) (a : A)
    → in_coordinator m s ≡ ok a t
    → (d : Coordinator ClientId) × (m s.coordinator ≡ ok a d) × (t ≡ record s { coordinator = d })
unfolding in_coordinator
in_coordinator-ok m s t a h = elim (Outcome-cases (m s.coordinator)) [
  | inl (b, d, e) ↦ (d, ground arith, ground arith)
  | inr (inl (x, d, e)) ↦ ground arith
  | inr (inr e) ↦ ground arith
]

module _ ⦃hashing : Hashing⦄ ⦃f : Float64⦄ where
  coordinator_tick-cooldown :
      (pending : Option (List ClientId)) (now seed : ℕ) (c : Coordinator ClientId)
      → c.run_state ≡ cooldown
      → Tick.tick pending now seed c ≡ tick_cooldown now c
  unfolding Tick.tick
  coordinator_tick-cooldown pending now seed c e = rw e refl

  tick-cooldown :
      (clock : Clock) (s t : CoordinatorInstanceState)
      → tick clock s ≡ ok tt t
      → s.coordinator.run_state ≡ cooldown
      → (r : TickResult) × (d : Coordinator ClientId) × (tick_cooldown clock.unix_timestamp
            s.coordinator
          ≡ ok r d)
        × (after_tick r (record s { coordinator = d }) ≡ ok tt t)
  unfolding tick
  tick-cooldown clock s t h e =
      let (pending, m, none_pending, h1) = bind-eq-ok (pending_clients s) _ h in
      let (r, n, stepped, h2) =
        bind-eq-ok
          (in_coordinator (Tick.tick pending clock.unix_timestamp (get_random_seed clock)) m) _
          h1 in
      let (d, called, after) =
        in_coordinator-ok (Tick.tick pending clock.unix_timestamp (get_random_seed clock)) m n r
          stepped in
      let same : m ≡ s = ground (arith, pending_clients-cooldown s e) in
      let running : m.coordinator.run_state ≡ cooldown =
        ap (λ z. z.coordinator.run_state) same ∙ e in
      (
        r,
        d,
        ap (λ z. tick_cooldown clock.unix_timestamp z.coordinator) (sym same)
            ∙ sym (
                coordinator_tick-cooldown pending clock.unix_timestamp (get_random_seed clock)
                  m.coordinator running)
            ∙ called,
        ap (λ z. after_tick r (record z { coordinator = d })) (sym same)
            ∙ ap (after_tick r) (sym after)
            ∙ h2,
      )

  -- When a tick during the cooldown succeeds while a pause is pending, nobody earns anything: an
  -- epoch that was trained to its end pays no client if the run is to pause after it.
  pub pause_forfeits_epoch :
      (clock : Clock) (s t : CoordinatorInstanceState)
      → tick clock s ≡ ok tt t
      → s.coordinator.run_state ≡ cooldown
      → s.coordinator.pending_pause ≡ true
      → earned_of t ≡ earned_of s
  pause_forfeits_epoch clock s t h e pending =
      let (r, d, ended, after) = tick-cooldown clock s t h e in
      elim (tick_cooldown-pauses clock.unix_timestamp s.coordinator d r ended pending) [
        | inl (nothing, same) ↦
            after_tick-ticked (record s { coordinator = d }) t (rw nothing at after)
        | inr (over, state, (left, clients)) ↦
            after_tick-NoneHealthy (record s { coordinator = d }) t
              (rw clients (withdrawn-NoneHealthy left)) (rw over at after)
      ]
