-- ===== src/Coordinator/Tick/Pauses.antt =====
-- An epoch that ends while a pause is pending: `tick_cooldown` of coordinator.rs.
use psyche.Base.{
  ℕ, ◌≡◌, ◌∙◌, ap, ◌⊎◌, inl, inr, Bool, true, List, ok, arith, bind-eq-ok, Outcome-cases,
  Bool-cases, pure,
}
use psyche.Coordinator.Types.{
  CoordinatorError, paused, TickResult, ticked, epoch_end, Client, Coordinator, Round,
}
use psyche.Coordinator.Config.{Float64}
use psyche.Coordinator.Rounds.{
  current_round_unchecked, get_target_global_batch_size, total_tokens_processed,
  get_global_batch_size_for_tokens,
}
use psyche.Coordinator.Lifecycle.{check_timeout, move_clients_to_exited, change_state, withdraw_all}
use psyche.Coordinator.Lifecycle.Leaving.{withdrawn_clients, withdraw_all-ok}
use psyche.Coordinator.Tick.{tick_cooldown, finish_epoch, settle, end_epoch, p2p_checkpoint}

module _ {T : Type 0} ⦃f : Float64⦄ where
  -- What a step that succeeds leaves of the wish to pause.
  end_epoch-keeps :
      (c d : Coordinator T) → end_epoch c ≡ ok tt d → d.pending_pause ≡ c.pending_pause
  unfolding end_epoch get_target_global_batch_size total_tokens_processed
      get_global_batch_size_for_tokens current_round_unchecked
  end_epoch-keeps c d h = ground arith

  move-keeps :
      (height : ℕ) (c d : Coordinator T)
      → move_clients_to_exited height c ≡ ok tt d
      → d.pending_pause ≡ c.pending_pause
  unfolding move_clients_to_exited
  move-keeps height c d h = ground arith

  settle-pauses :
      (now : ℕ) (c d : Coordinator T)
      → settle now c ≡ ok tt d
      → c.pending_pause ≡ true
      → (d.run_state ≡ paused) × (d.epoch_state.clients ≡ withdrawn_clients c.epoch_state.clients)
  unfolding settle change_state
  settle-pauses now c d h pending = elim (Outcome-cases (withdraw_all c)) [
    | inl (u, m, e) ↦ ground (arith, withdraw_all-ok c m)
    | inr (inl (x, m, e)) ↦ ground arith
    | inr (inr e) ↦ ground arith
  ]

  round-keeps : (c d : Coordinator T) {r : Round} → current_round_unchecked c ≡ ok r d → d ≡ c
  unfolding current_round_unchecked
  round-keeps c d h = ground arith

  the_end :
      (r : TickResult) (d c : Coordinator T)
      → pure {E = CoordinatorError} (epoch_end true) c ≡ ok r d
      → (r ≡ epoch_end true) × (d ≡ c)
  the_end r d c h = ground arith

  finish_epoch-pauses :
      (now : ℕ) (c d : Coordinator T) (r : TickResult)
      → finish_epoch now c ≡ ok r d
      → c.pending_pause ≡ true
      → (r ≡ epoch_end true)
        × (d.run_state ≡ paused)
        × ((left : List (Client T)) × (d.epoch_state.clients ≡ withdrawn_clients left))
  unfolding finish_epoch
  finish_epoch-pauses now c d r h pending =
      let (_, c1, ended, h1) = bind-eq-ok (end_epoch c) _ h in
      let (round, c2, read, h2) = bind-eq-ok (current_round_unchecked c1) _ h1 in
      let (_, c3, moved, h3) = bind-eq-ok (move_clients_to_exited round.height c2) _ h2 in
      let c4 = record c3 { model = p2p_checkpoint c3.model } in
      let (_, c5, settled, h4) = bind-eq-ok (settle now c4) _ h3 in
      let still : c4.pending_pause ≡ true =
        move-keeps round.height c2 c3 moved
        ∙ ap Coordinator.pending_pause (round-keeps c1 c2 read)
        ∙ end_epoch-keeps c c1 ended
        ∙ pending in
      let (state, clients) = settle-pauses now c4 c5 settled still in
      let (result, last) = the_end r d c5 h4 in
      (
        result,
        ap Coordinator.run_state last ∙ state,
        (c4.epoch_state.clients, ap (λ x. x.epoch_state.clients) last ∙ clients),
      )

  timeout-keeps :
      (now duration : ℕ) (c d : Coordinator T) (b : Bool)
      → check_timeout now duration c ≡ ok b d
      → d ≡ c
  unfolding check_timeout
  timeout-keeps now duration c d b h = ground arith

  pub tick_cooldown-pauses :
      (now : ℕ) (c d : Coordinator T) (r : TickResult)
      → tick_cooldown now c ≡ ok r d
      → c.pending_pause ≡ true
      → ((r ≡ ticked) × (d ≡ c))
        ⊎ ((r ≡ epoch_end true)
            × (d.run_state ≡ paused)
            × ((left : List (Client T)) × (d.epoch_state.clients ≡ withdrawn_clients left)))
  unfolding tick_cooldown
  tick_cooldown-pauses now c d r h pending =
      let (over, c1, timed, rest) = bind-eq-ok (check_timeout now c.config.cooldown_time c) _ h in
      let same = timeout-keeps now c.config.cooldown_time c c1 over timed in
      elim (Bool-cases over) [
        | inl fired ↦ inr (finish_epoch-pauses now c1 d r (ground arith) (rw same pending))
        | inr not_yet ↦ inl (ground arith)
      ]
