-- ===== src/Server/Restores.antt =====
-- What the operations of shared/coordinator/src/coordinator.rs that the centralized server calls
-- without a reset leave of the warmup time.
use psyche.Coordinator.Rounds.{active, halted, is_active}
use psyche.Base.{
  ltb, ℕ, zero, suc, ◌+◌, ◌≡◌, refl, true, false, inl, inr, Bool-cases, Option-cases, ◌==◌, ◌>>◌,
  modify, get_elem?, arith,
}
use psyche.Base.Keeps.{Leaves, Keeps, pure-Keeps, seq-Keeps, modify-Keeps}
use psyche.Coordinator.Types.{finished, Coordinator, waiting_for_members, paused, RunState}
use psyche.Coordinator.Lifecycle.{
  withdraw, withdraw_all, withdraw_from, change_state, pause, resume, start_waiting_for_members,
  to_usize, is_healthy,
}

-- An active coordinator has this warmup time.
abbrev pub Restored : {T : Type 0} → ℕ → Coordinator T → Type 0
Restored w c = active c ≡ true → c.config.warmup_time ≡ w

module _ {T : Type 0} (w : ℕ) where
  change_state-Restored :
      (now : ℕ) (state : RunState)
      → is_active state ≡ false
      → Keeps (Restored {T = T} w) (change_state now state)
  unfolding change_state active
  change_state-Restored now state off = record {
    keeps = λ c h. elim (Bool-cases (to_usize c.run_state == to_usize state)) [
      | inl same ↦ rw same tt
      | inr other ↦ rw other (λ on. absurd (ground (arith, on, off)))
    ];
  }

  pub withdraw-Restored : (index : ℕ) → Keeps (Restored {T = T} w) (withdraw index)
  unfolding withdraw active
  withdraw-Restored index = record {
    keeps = λ c h. elim (Option-cases (get_elem? c.epoch_state.clients index)) [
      | inl missing ↦ rw (missing, Leaves) h
      | inr (x, there) ↦ elim (Bool-cases (is_healthy x.state)) [
        | inl well ↦ rw (there, Leaves, well) h
        | inr ill ↦ rw (there, Leaves, ill) h
      ]
    ];
  }

  withdraw_from-Restored : (n i : ℕ) → Keeps (Restored {T = T} w) (withdraw_from n i)
  unfolding withdraw_from
  withdraw_from-Restored zero i = pure-Keeps tt
  withdraw_from-Restored (suc n) i =
      seq-Keeps (withdraw-Restored i) (withdraw_from-Restored n (i + 1))

  withdraw_all-Restored : Keeps (Restored {T = T} w) withdraw_all
  unfolding withdraw_all
  withdraw_all-Restored = record { keeps = λ c h. (withdraw_from-Restored _ 0).keeps c h }

  leave-Restored :
      (now : ℕ)
      → Keeps {A = Unit {0}} (Restored {T = T} w) (do
        withdraw_all
        change_state now paused
        modify λ c. record c { epoch_state = record c.epoch_state { cold_start_epoch = true } })
  unfolding active
  leave-Restored now =
      seq-Keeps withdraw_all-Restored
        (seq-Keeps (change_state-Restored now paused refl) (modify-Keeps (λ d k. k)))

  pub pause-Restored : (now : ℕ) → Keeps (Restored {T = T} w) (pause now)
  unfolding pause active
  pause-Restored now = record {
    keeps = λ c h. elim (Bool-cases (halted c)) [
      | inl stopped ↦ rw (stopped, Leaves) h
      | inr going ↦ elim (Bool-cases (active c)) [
        | inl on ↦ rw (going, on) (λ _. h on)
        | inr off ↦ rw (going, off) ((leave-Restored now).keeps c h)
      ]
    ];
  }

  start_waiting-Restored : (now : ℕ) → Keeps (Restored {T = T} w) (start_waiting_for_members now)
  unfolding start_waiting_for_members
  start_waiting-Restored now = record {
    keeps = λ c h. elim (Bool-cases (ltb c.progress.step c.config.total_steps)) [
      | inl more ↦ rw more ((change_state-Restored now waiting_for_members refl).keeps c h)
      | inr none_left ↦ rw none_left ((change_state-Restored now finished refl).keeps c h)
    ];
  }

  pub resume-Restored : (now : ℕ) → Keeps (Restored {T = T} w) (resume now)
  unfolding resume
  resume-Restored now = record {
    keeps = λ c h. elim (Bool-cases (to_usize c.run_state == to_usize paused)) [
      | inl still ↦ rw still ((start_waiting-Restored now).keeps c h)
      | inr going ↦ rw (going, Leaves) h
    ];
  }
