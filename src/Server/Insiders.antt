-- ===== src/Server/Insiders.antt =====
-- What each operation of the centralized server keeps of those it knows, `App` of
-- architectures/centralized/server/src/app.rs.
use psyche.Coordinator.Rounds.{active}
use psyche.Base.{
  ℕ, zero, suc, ◌≡◌, Bool, true, false, Option, none, some, List, [], ◌∷◌, ◌++◌, get_elem?,
  if◌then◌else◌, inl, inr, Bool-cases, Option-cases, arith, ap, not,
}
use psyche.Base.Keeps.{
  Keeps, pure-Keeps, gets-Keeps, when-Keeps, modify-Keeps, bind-Keeps, seq-Keeps, checked_sub-Keeps,
  if-Keeps,
}
use psyche.Base.Keys.{same_bytes}
use psyche.Core.Strings.{to_string}
use psyche.Core.Hashing.{Hashing}
use psyche.Coordinator.Config.{Float64}
use psyche.Coordinator.Types.{TickResult, ticked, epoch_end, paused, NodeIdentity, Client, Coord}
use psyche.Coordinator.Members.{Members, Kept, withdraw-Keeps}
use psyche.Coordinator.Members.Ticks.{AllPending, tick-Keeps}
use psyche.Coordinator.Members.Checks.{health_check-Keeps}
use psyche.Coordinator.Members.Requests.{
  pause-Keeps, resume-Keeps, checkpoint-Keeps, warmup_witness-Keeps, witness-Keeps,
}
use psyche.Server.Attempts.{attempt-Keeps}
use psyche.Server.{
  witness_step, warmup_step, message, disconnected, tick_interval, pause_notified, join_message,
  witness_message, health_check_message, checkpoint_message, App, Occurrence, Event,
  on_client_message, on_message, withdraw_at, on_join, arranged, post_state_change, attempt,
  kick_unhealthy_clients, toggle_pause, insert, on_tick, remove, OpportunisticData, run,
  kick_unhealthy, on_disconnect, save_state, ClientToServerMessage, poll_next, checkpoint_at,
  is_pending, handle, on_opportunistic, same_run_state, position,
}
use psyche.Coordinator.Model.{HubRepo}
use psyche.Coordinator.Lifecycle.{is_healthy}

-- Whom a join lets in: the senders of a join with this run id.
abbrev pub joins : {T : Type 0} → List ℕ → Event T → List T
joins r (message from (join_message run_id)) = if same_bytes r run_id then from ∷ [] else []
joins r _ = []

abbrev pub joined : {T : Type 0} → List ℕ → List (Occurrence T) → List T
joined r [] = []
joined r (o ∷ os) = joins r o.event ++ joined r os

module _ {T : Type 0} where
  AllPending-get_elem? :
      (Q : T → Type 0) (xs : List T) (i : ℕ) (x : T)
      → get_elem? xs i ≡ some x
      → AllPending Q xs
      → Q x
  AllPending-get_elem? Q [] i x h q = absurd (ground arith)
  AllPending-get_elem? Q (y ∷ ys) zero x h q = let is : y ≡ x = ground arith in rw is at q.0
  AllPending-get_elem? Q (y ∷ ys) (suc i) x h q = AllPending-get_elem? Q ys i x h q.1

  arranged-AllPending :
      (Q : T → Type 0) (order : List ℕ) (xs : List T)
      → AllPending Q xs
      → AllPending Q (arranged order xs)
  unfolding arranged
  arranged-AllPending Q [] xs q = tt
  arranged-AllPending Q (i ∷ is) xs q = elim (Option-cases (get_elem? xs i)) [
    | inl missing ↦ rw (missing, AllPending) (arranged-AllPending Q is xs q)
    | inr (x, there) ↦
        rw (there, AllPending)
          (AllPending-get_elem? Q xs i x there q, arranged-AllPending Q is xs q)
  ]

  module _ ⦃node : NodeIdentity T⦄ where
    remove-AllPending :
        (Q : T → Type 0) (x : T) (xs : List T) → AllPending Q xs → AllPending Q (remove x xs)
    remove-AllPending Q x [] q = tt
    remove-AllPending Q x (y ∷ ys) q = elim (Bool-cases (node.same y x)) [
      | inl same ↦ rw same (remove-AllPending Q x ys q.1)
      | inr other ↦ rw other (q.0, remove-AllPending Q x ys q.1)
    ]

    insert-AllPending :
        (Q : T → Type 0) (x : T) (xs : List T) → Q x → AllPending Q xs → AllPending Q (insert x xs)
    insert-AllPending Q x xs h q = elim (Bool-cases (is_pending x xs)) [
      | inl there ↦ rw there q
      | inr new ↦ rw new (h, q)
    ]

    kick_unhealthy-AllPending :
        (Q : T → Type 0) (xs : List (Client T)) (pending : List T)
        → AllPending Q pending
        → AllPending Q (kick_unhealthy xs pending)
    unfolding kick_unhealthy
    kick_unhealthy-AllPending Q [] pending q = q
    kick_unhealthy-AllPending Q (x ∷ xs) pending q = elim (Bool-cases (is_healthy x.state)) [
      | inl well ↦ rw well (kick_unhealthy-AllPending Q xs pending q)
      | inr ill ↦ rw ill (kick_unhealthy-AllPending Q xs _ (remove-AllPending Q x.id pending q))
    ]

module _ {T : Type 0} (Q : T → Type 0) (r : List ℕ) where
  -- All that the app knows are of this kind.
  abbrev pub Insiders : App T → Type 0
  Insiders app = Members Q r app.coordinator × AllPending Q app.pending_clients

  attempt-Insiders : {A : Type 0} {m : Coord T A} → Kept Q r m → Keeps Insiders (attempt m)
  attempt-Insiders = attempt-Keeps (λ app q. q.0) (λ app c q k. (k, q.1))

  post_state_change-Keeps : (broadcast : Bool) → Keeps Insiders (post_state_change broadcast)
  unfolding post_state_change
  post_state_change-Keeps broadcast = record {
    keeps = λ app q. elim (Bool-cases (active app.coordinator)) [
      | inl on ↦ elim (Bool-cases broadcast) [
        | inl sent ↦ rw (on, sent) q
        | inr quiet ↦ rw (on, quiet) q
      ]
      | inr off ↦ elim (Bool-cases broadcast) [
        | inl sent ↦ rw (off, sent) q
        | inr quiet ↦ rw (off, quiet) q
      ]
    ];
  }

  withdraw_at-Keeps : (index : Option ℕ) → Keeps Insiders (withdraw_at index)
  withdraw_at-Keeps none = pure-Keeps tt
  withdraw_at-Keeps (some index) =
      bind-Keeps (attempt-Insiders (withdraw-Keeps Q r index)) (λ _. pure-Keeps tt)

  save_state-Keeps : (x : T) (result : Option TickResult) → Keeps Insiders (save_state x result)
  unfolding save_state
  save_state-Keeps x none = pure-Keeps tt
  save_state-Keeps x (some ticked) = pure-Keeps tt
  save_state-Keeps x (some (epoch_end false)) = pure-Keeps tt
  save_state-Keeps x (some (epoch_end true)) = record {
    keeps = λ app q.
        (when-Keeps app.save_state_dir (
            bind-Keeps (checked_sub-Keeps app.coordinator.progress.step 1)
              (λ before. modify-Keeps (λ a k. k)))).keeps
          app q;
  }

  toggle_pause-Keeps : (now : ℕ) → Keeps Insiders (toggle_pause now)
  unfolding toggle_pause
  toggle_pause-Keeps now = record {
    keeps = λ app q.
        (bind-Keeps
            (attempt-Insiders (
              if-Keeps (same_run_state app.coordinator.run_state paused) (resume-Keeps Q r now)
                (pause-Keeps Q r now)))
            (λ _. pure-Keeps tt)).keeps
          app q;
  }

  module _ ⦃node : NodeIdentity T⦄ where
    on_disconnect-Keeps : (from : T) → Keeps Insiders (on_disconnect from)
    unfolding on_disconnect
    on_disconnect-Keeps from = record {
      keeps = λ app q.
          (when-Keeps app.withdraw_on_disconnect
              (withdraw_at-Keeps (position from app.coordinator.epoch_state.clients))).keeps
            (record app { pending_clients = remove from app.pending_clients })
            (q.0, remove-AllPending Q from app.pending_clients q.1);
    }

    on_join-Keeps :
        (from : T) (run_id : List ℕ)
        → AllPending Q (joins (to_string r) (message from (join_message run_id)))
        → Keeps Insiders (on_join from run_id)
    unfolding on_join
    on_join-Keeps from run_id h = record {
      keeps = λ app q.
          rw (ap to_string q.0.0) (elim (Bool-cases (same_bytes (to_string r) run_id)) [
            | inl same ↦
                let new : AllPending Q (from ∷ []) = rw same at h in
                rw same (q.0, insert-AllPending Q from app.pending_clients new.0 q.1)
            | inr other ↦ rw other q
          ]);
    }

    checkpoint_at-Keeps :
        (from : T) (repo : HubRepo) (index : Option ℕ)
        → Keeps Insiders (checkpoint_at from repo index)
    checkpoint_at-Keeps from repo none = pure-Keeps tt
    checkpoint_at-Keeps from repo (some index) =
        bind-Keeps (attempt-Insiders (checkpoint-Keeps Q r from index repo)) (λ _. pure-Keeps tt)

    kick_unhealthy_clients-Keeps : Keeps Insiders kick_unhealthy_clients
    unfolding kick_unhealthy_clients
    kick_unhealthy_clients-Keeps = record {
      keeps = λ app q. (q.0, kick_unhealthy-AllPending Q _ _ q.1);
    }

    on_tick-Keeps :
        ⦃f : Float64⦄ (x : T) (order : List ℕ) (now random : ℕ)
        → Keeps Insiders (on_tick x order now random)
    unfolding on_tick
    on_tick-Keeps x order now random = seq-Keeps kick_unhealthy_clients-Keeps (record {
      keeps = λ app q.
          (bind-Keeps
              (attempt-Insiders (
                tick-Keeps Q r (arranged order app.pending_clients) now random
                  (arranged-AllPending Q order app.pending_clients q.1)))
              (λ result.
                seq-Keeps (save_state-Keeps x result) (post_state_change-Keeps true))).keeps
            app q;
    })

    module _ ⦃hashing : Hashing⦄ ⦃f : Float64⦄ where
      on_opportunistic-Keeps :
          (from : T) (o : OpportunisticData) (now random : ℕ)
          → Kept Q r (on_opportunistic from o now random)
      on_opportunistic-Keeps from (witness_step w) now random = witness-Keeps Q r from w now
      on_opportunistic-Keeps from (warmup_step w) now random =
          warmup_witness-Keeps Q r from w now random

      on_message-Keeps :
          (from : T) (m : ClientToServerMessage T) (now random : ℕ)
          → AllPending Q (joins (to_string r) (message from m))
          → Keeps Insiders (on_message from m now random)
      unfolding on_message
      on_message-Keeps from (join_message run_id) now random h =
          seq-Keeps (on_join-Keeps from run_id h) (pure-Keeps false)
      on_message-Keeps from (witness_message o) now random h = record {
        keeps = λ app q.
            (bind-Keeps (attempt-Insiders (on_opportunistic-Keeps from o now random)) (λ _.
                gets-Keeps (λ a.
                  not (same_run_state a.coordinator.run_state app.coordinator.run_state)))).keeps
              app q;
      }
      on_message-Keeps from (health_check_message checks) now random h =
          bind-Keeps (attempt-Insiders (health_check-Keeps Q r checks)) (λ dropped. pure-Keeps _)
      on_message-Keeps from (checkpoint_message repo) now random h = record {
        keeps = λ app q.
            (seq-Keeps
                (checkpoint_at-Keeps from repo (position from app.coordinator.epoch_state.clients))
                (pure-Keeps true)).keeps
              app q;
      }

      handle-Keeps :
          (x : T) (e : Event T) (now random : ℕ)
          → AllPending Q (joins (to_string r) e)
          → Keeps Insiders (handle x e now random)
      unfolding on_client_message
      handle-Keeps x (message from m) now random h =
          bind-Keeps (on_message-Keeps from m now random h) (λ b. post_state_change-Keeps b)
      handle-Keeps x (disconnected from) now random h = on_disconnect-Keeps from
      handle-Keeps x (tick_interval order) now random h = on_tick-Keeps x order now random
      handle-Keeps x pause_notified now random h = toggle_pause-Keeps now

      left-AllPending : (xs ys : List T) → AllPending Q (xs ++ ys) → AllPending Q xs
      left-AllPending [] ys q = tt
      left-AllPending (x ∷ xs) ys q = (q.0, left-AllPending xs ys q.1)

      right-AllPending : (xs ys : List T) → AllPending Q (xs ++ ys) → AllPending Q ys
      right-AllPending [] ys q = q
      right-AllPending (x ∷ xs) ys q = right-AllPending xs ys q.1

      pub run-Keeps :
          (x : T) (os : List (Occurrence T))
          → AllPending Q (joined (to_string r) os)
          → Keeps Insiders (run x os)
      unfolding run poll_next
      run-Keeps x [] h = pure-Keeps tt
      run-Keeps x (o ∷ os) h =
          seq-Keeps
            (handle-Keeps x o.event o.unix_timestamp o.random
              (left-AllPending (joins (to_string r) o.event) _ h))
            (run-Keeps x os (right-AllPending (joins (to_string r) o.event) _ h))
