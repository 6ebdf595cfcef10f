-- ===== src/Server/Warmups.antt =====
-- The warmup time that only the first warmup of a run has: `original_warmup_time` of `App`,
-- architectures/centralized/server/src/app.rs.
use psyche.Coordinator.Rounds.{active, is_active}
use psyche.Base.{
  bind, Outcome, err, panic, ℕ, ◌≡◌, refl, Bool, true, false, Option, none, some, List, [], ◌∷◌, ok,
  inl, inr, Bool-cases, ◌>>◌, not,
}
use psyche.Base.Keeps.{
  gets-Keeps, Leaves, Keeps, pure-Keeps, bind-Keeps, seq-Keeps, when-Keeps, modify-Keeps, if-Keeps,
  checked_sub-Keeps,
}
use psyche.Base.Keys.{same_bytes}
use psyche.Core.Strings.{to_string}
use psyche.Coordinator.Messages.{checkpoint, health_check}
use psyche.Coordinator.Tick.{tick}
use psyche.Coordinator.Model.{HubRepo}
use psyche.Core.Hashing.{Hashing}
use psyche.Coordinator.Config.{Float64}
use psyche.Coordinator.Types.{TickResult, ticked, epoch_end, NodeIdentity, Coord, paused}
use psyche.Server.Restores.{Restored, withdraw-Restored, pause-Restored, resume-Restored}
use psyche.Server.Attempts.{attempt-Keeps, aside-Keeps}
use psyche.Server.{
  message, disconnected, tick_interval, pause_notified, join_message, witness_message,
  health_check_message, checkpoint_message, App, Serving, Occurrence, Event, attempt,
  post_state_change, toggle_pause, withdraw_at, save_state, same_run_state, checkpoint_at,
  on_client_message, on_join, on_disconnect, on_message, on_tick, run, position,
  kick_unhealthy_clients, ClientToServerMessage, poll_next, handle, remove, on_opportunistic,
  kick_unhealthy, arranged,
}

module _ {T : Type 0} (w : ℕ) where
  -- The app has this original warmup time, and its coordinator is restored to it.
  abbrev pub Settled : App T → Type 0
  Settled app = (app.original_warmup_time ≡ w) × Restored w app.coordinator

  -- The app has this original warmup time.
  abbrev pub Original : App T → Type 0
  Original app = app.original_warmup_time ≡ w

  attempt-Settled : {A : Type 0} {m : Coord T A} → Keeps (Restored w) m → Keeps Settled (attempt m)
  attempt-Settled = attempt-Keeps (λ app q. q.1) (λ app c q k. (q.0, k))

  attempt-Original : {A : Type 0} (m : Coord T A) → Keeps Original (attempt m)
  attempt-Original = aside-Keeps (λ app c q. q)

  -- The reset at the end of a handler settles the app.
  post_state_change-Settled :
      (broadcast : Bool) (app : App T)
      → Original app
      → Leaves Settled (post_state_change broadcast app)
  unfolding post_state_change active
  post_state_change-Settled broadcast app q =
      elim (Bool-cases (is_active app.coordinator.run_state)) [
        | inl on ↦ elim (Bool-cases broadcast) [
          | inl sent ↦ rw (on, sent) (q, λ _. q)
          | inr quiet ↦ rw (on, quiet) (q, λ _. q)
        ]
        | inr off ↦ elim (Bool-cases broadcast) [
          | inl sent ↦ rw (off, sent) (q, λ on. absurd (cc))
          | inr quiet ↦ rw (off, quiet) (q, λ on. absurd (cc))
        ]
      ]

  withdraw_at-Settled : (index : Option ℕ) → Keeps Settled (withdraw_at index)
  withdraw_at-Settled none = pure-Keeps tt
  withdraw_at-Settled (some index) =
      bind-Keeps (attempt-Settled (withdraw-Restored w index)) (λ _. pure-Keeps tt)

  save_state-Original : (x : T) (result : Option TickResult) → Keeps Original (save_state x result)
  unfolding save_state
  save_state-Original x none = pure-Keeps tt
  save_state-Original x (some ticked) = pure-Keeps tt
  save_state-Original x (some (epoch_end false)) = pure-Keeps tt
  save_state-Original x (some (epoch_end true)) = record {
    keeps = λ app q.
        (when-Keeps app.save_state_dir (
            bind-Keeps (checked_sub-Keeps app.coordinator.progress.step 1)
              (λ before. modify-Keeps (λ a k. k)))).keeps
          app q;
  }

  toggle_pause-Settled : (now : ℕ) → Keeps Settled (toggle_pause now)
  unfolding toggle_pause
  toggle_pause-Settled now = record {
    keeps = λ app q.
        (bind-Keeps
            (attempt-Settled (
              if-Keeps (same_run_state app.coordinator.run_state paused) (resume-Restored w now)
                (pause-Restored w now)))
            (λ _. pure-Keeps tt)).keeps
          app q;
  }

  -- The rule of a sequence whose second part makes the property.
  bind-Leaves-then :
      {A B : Type 0} (o : Outcome ⊥ (App T) A) (g : A → Serving T B)
      → Leaves Original o
      → ((a : A) (app : App T) → Original app → Leaves Settled (g a app))
      → Leaves Settled (bind o g)
  bind-Leaves-then (ok a app) g q h = h a app q
  bind-Leaves-then (err e app) g q h = elim e [ ]
  bind-Leaves-then panic g q h = tt

  -- A handler that ends with the reset settles the app.
  then-Settled :
      {A : Type 0} (o : Outcome ⊥ (App T) A) (f : A → Bool)
      → Leaves Original o
      → Leaves Settled (bind o (λ a. post_state_change (f a)))
  then-Settled (ok a app) f q = post_state_change-Settled (f a) app q
  then-Settled (err e app) f q = elim e [ ]
  then-Settled panic f q = tt

  module _ ⦃node : NodeIdentity T⦄ where
    on_disconnect-Settled : (from : T) → Keeps Settled (on_disconnect from)
    unfolding on_disconnect
    on_disconnect-Settled from = record {
      keeps = λ app q.
          (when-Keeps app.withdraw_on_disconnect
              (withdraw_at-Settled (position from app.coordinator.epoch_state.clients))).keeps
            (record app { pending_clients = remove from app.pending_clients }) q;
    }

    on_join-Original : (from : T) (run_id : List ℕ) → Keeps Original (on_join from run_id)
    unfolding on_join
    on_join-Original from run_id = record {
      keeps = λ app q. elim (Bool-cases (same_bytes (to_string app.coordinator.run_id) run_id)) [
        | inl same ↦ rw (same, Leaves) q
        | inr other ↦ rw (other, Leaves) q
      ];
    }

    checkpoint_at-Original :
        (from : T) (repo : HubRepo) (index : Option ℕ)
        → Keeps Original (checkpoint_at from repo index)
    checkpoint_at-Original from repo none = pure-Keeps tt
    checkpoint_at-Original from repo (some index) =
        bind-Keeps (attempt-Original (checkpoint from index repo)) (λ _. pure-Keeps tt)

    on_tick-Settled :
        ⦃f : Float64⦄ (x : T) (order : List ℕ) (now random : ℕ) (app : App T)
        → Original app
        → Leaves Settled (on_tick x order now random app)
    unfolding on_tick kick_unhealthy_clients
    on_tick-Settled x order now random app q =
        let kicked : App T = record app {
          pending_clients =
              kick_unhealthy app.coordinator.epoch_state.exited_clients app.pending_clients;
        } in
        bind-Leaves-then
          (attempt (tick (some (arranged order kicked.pending_clients)) now random) kicked)
          (λ result. save_state x result >> post_state_change true)
          ((attempt-Original (tick (some (arranged order kicked.pending_clients)) now random)).keeps
            kicked q)
          (λ result a k.
            then-Settled (save_state x result a) (λ _. true)
              ((save_state-Original x result).keeps a k))

    module _ ⦃hashing : Hashing⦄ ⦃f : Float64⦄ where
      on_message-Original :
          (from : T) (m : ClientToServerMessage T) (now random : ℕ)
          → Keeps Original (on_message from m now random)
      unfolding on_message
      on_message-Original from (join_message run_id) now random =
          seq-Keeps (on_join-Original from run_id) (pure-Keeps false)
      on_message-Original from (witness_message o) now random = record {
        keeps = λ app q.
            (bind-Keeps (attempt-Original (on_opportunistic from o now random)) (λ _.
                gets-Keeps (λ a.
                  not (same_run_state a.coordinator.run_state app.coordinator.run_state)))).keeps
              app q;
      }
      on_message-Original from (health_check_message checks) now random =
          bind-Keeps (attempt-Original (health_check checks)) (λ dropped. pure-Keeps _)
      on_message-Original from (checkpoint_message repo) now random = record {
        keeps = λ app q.
            (seq-Keeps
                (checkpoint_at-Original from repo
                  (position from app.coordinator.epoch_state.clients))
                (pure-Keeps true)).keeps
              app q;
      }

      handle-Settled :
          (x : T) (e : Event T) (now random : ℕ) → Keeps Settled (handle x e now random)
      unfolding on_client_message
      handle-Settled x (message from m) now random = record {
        keeps = λ app q.
            then-Settled (on_message from m now random app) (λ b. b)
              ((on_message-Original from m now random).keeps app q.0);
      }
      handle-Settled x (disconnected from) now random = on_disconnect-Settled from
      handle-Settled x (tick_interval order) now random = record {
        keeps = λ app q. on_tick-Settled x order now random app q.0;
      }
      handle-Settled x pause_notified now random = toggle_pause-Settled now

      run-Settled : (x : T) (os : List (Occurrence T)) → Keeps Settled (run x os)
      unfolding run poll_next
      run-Settled x [] = pure-Keeps tt
      run-Settled x (o ∷ os) =
          seq-Keeps (handle-Settled x o.event o.unix_timestamp o.random) (run-Settled x os)

module _ {T : Type 0} ⦃node : NodeIdentity T⦄ ⦃hashing : Hashing⦄ ⦃f : Float64⦄ where
  -- A server that starts with a coordinator that is not active, whatever warmup time was set for
  -- its first warmup, and handles any sequence of events without panicking, has the original warmup
  -- time in the coordinator's configuration whenever it is left with an active coordinator.
  pub run-Restored :
      (default_id : T) (os : List (Occurrence T)) (app after : App T)
      → active app.coordinator ≡ false
      → run default_id os app ≡ ok tt after
      → active after.coordinator ≡ true
      → after.coordinator.config.warmup_time ≡ app.original_warmup_time
  run-Restored default_id os app after off h =
      let ends : Settled app.original_warmup_time after =
        rw (h, Leaves) at
          ((run-Settled app.original_warmup_time default_id os).keeps app
            (refl, λ on. absurd (cc))) in
      ends.1
