-- ===== src/Server.antt =====
-- The centralized server, architectures/centralized/server/src/app.rs: what `App` does to the
-- coordinator it owns. The messages are those of architectures/centralized/shared/src/protocol.rs.
pub mod Attempts
pub mod Insiders
pub mod History
pub mod Restores
pub mod Warmups
pub mod Broadcasts
pub mod Examples
use psyche.Base.{
  ℕ, zero, suc, ◌+◌, ◌-◌, Bool, true, false, Option, none, some, List, [], ◌∷◌, ◌++◌, map,
  get_elem?, if◌then◌else◌, ok, err, panic, Method, pure, gets, modify, when, ◌>>=◌, ◌>>◌, ◌||◌,
  checked_sub, ltb, not, ◌==◌,
}
use psyche.Core.Strings.{FixedString, to_string}
use psyche.Coordinator.Config.{Float64}
use psyche.Coordinator.Model.{HubRepo}
use psyche.Coordinator.Types.{
  NodeIdentity, RunState, waiting_for_members, paused, TickResult, ticked, epoch_end,
  CoordinatorError, CommitteeProof, Witness, Client, Coordinator, Coord, new_client,
}
use psyche.Core.Hashing.{Hashing}
use psyche.Coordinator.Lifecycle.{resume, is_healthy, withdraw, to_usize, pause}
use psyche.Base.Keys.{same_bytes}
use psyche.Coordinator.Rounds.{active}
use psyche.Coordinator.Messages.{witness, warmup_witness, health_check, checkpoint}
use psyche.Coordinator.Tick.{tick}
use mathlib.Core.Option

-- `pending_clients` is a hash set: a list with each client once. `broadcasts` are the states sent to
-- all clients, `data_server` those sent to the training data server if the app hosts one, and
-- `saved` the files written into `save_state_dir`, each a step and a state.
pub record App (T : Type 0) : Type 0 where
  pub coordinator : Coordinator T
  pub pending_clients : List T
  pub original_warmup_time : ℕ
  pub withdraw_on_disconnect : Bool
  pub save_state_dir : Bool
  pub saved : List (ℕ × Coordinator T)
  pub broadcasts : List (Coordinator T)
  pub data_server : Option (List (Coordinator T))

-- No handler fails: they log the coordinator's errors.
abbrev pub Serving : Type 0 → Type 0 → Type 0
Serving T A = Method ⊥ (App T) A

-- The metadata of a witness is not looked at.
pub data OpportunisticData : Type 0 where
  witness_step : Witness → OpportunisticData
  warmup_step : Witness → OpportunisticData

pub data ClientToServerMessage (T : Type 0) : Type 0 where
  join_message : List ℕ → ClientToServerMessage T
  witness_message : OpportunisticData → ClientToServerMessage T
  health_check_message : List (T × CommitteeProof) → ClientToServerMessage T
  checkpoint_message : HubRepo → ClientToServerMessage T

-- What `poll_next` waits for. A tick has the places of the pending clients in the order in which the
-- hash set lists them.
pub data Event (T : Type 0) : Type 0 where
  message : T → ClientToServerMessage T → Event T
  disconnected : T → Event T
  tick_interval : List ℕ → Event T
  pause_notified : Event T

-- An event, with the timestamp and the random number that are drawn when it is handled.
pub record Occurrence (T : Type 0) : Type 0 where
  pub event : Event T
  pub unix_timestamp : ℕ
  pub random : ℕ

-- Two run states compared by `==`.
abbrev pub same_run_state : RunState → RunState → Bool
same_run_state a b = to_usize a == to_usize b

-- Whether a health check dropped any client.
abbrev pub any_dropped : Option ℕ → Bool
any_dropped none = false
any_dropped (some dropped) = ltb 0 dropped

module _ {T : Type 0} where
  abbrev pub with_coordinator : Coordinator T → App T → App T
  with_coordinator c app = record app { coordinator = c }

  -- A call of the coordinator whose error is only logged.
  unfoldable pub attempt : {A : Type 0} → Coord T A → Serving T (Option A)
  attempt m app = elim (m app.coordinator) [
    | ok a c ↦ ok (some a) (with_coordinator c app)
    | err e c ↦ ok none (with_coordinator c app)
    | panic ↦ panic
  ]

  -- `HashSet::remove`
  abbrev pub remove : ⦃node : NodeIdentity T⦄ → T → List T → List T
  remove x [] = []
  remove ⦃node⦄ x (y ∷ ys) = if node.same y x then remove x ys else y ∷ remove x ys

  abbrev pub is_pending : ⦃node : NodeIdentity T⦄ → T → List T → Bool
  is_pending x [] = false
  is_pending ⦃node⦄ x (y ∷ ys) = node.same y x || is_pending x ys

  -- `HashSet::insert`
  abbrev pub insert : ⦃node : NodeIdentity T⦄ → T → List T → List T
  insert x xs = if is_pending x xs then xs else x ∷ xs

  -- `.iter().position(|x| x.id == from)`
  abbrev pub position : ⦃node : NodeIdentity T⦄ → T → List (Client T) → Option ℕ
  position from [] = none
  position ⦃node⦄ from (x ∷ xs) =
      if node.same x.id from then some 0 else Option.map suc (position from xs)

  -- The elements of a set in the order of these places.
  unfoldable pub arranged : List ℕ → List T → List T
  arranged [] xs = []
  arranged (i ∷ is) xs = elim (get_elem? xs i) [
    | none ↦ arranged is xs
    | some x ↦ x ∷ arranged is xs
  ]

  unfoldable pub post_state_change : Bool → Serving T (Unit {0})
  post_state_change broadcast app =
      let reset : App T =
        if active app.coordinator
        then with_coordinator
            (record app.coordinator {
              config = record app.coordinator.config { warmup_time = app.original_warmup_time };
            })
            app
        else app in
      ok tt (
        if broadcast
        then record reset {
          broadcasts = reset.broadcasts ++ reset.coordinator ∷ [];
          data_server = Option.map (λ sent. sent ++ reset.coordinator ∷ []) reset.data_server;
        }
        else reset)

  -- `withdraw` of the client at this position, its error only logged
  abbrev pub withdraw_at : Option ℕ → Serving T (Unit {0})
  withdraw_at none = pure tt
  withdraw_at (some index) = attempt (withdraw index) >>= λ _. pure tt

  unfoldable pub on_disconnect : ⦃node : NodeIdentity T⦄ → T → Serving T (Unit {0})
  on_disconnect from = do
    modify λ app. record app { pending_clients = remove from app.pending_clients }
    withdraws ← gets λ app. app.withdraw_on_disconnect
    index ← gets λ app. position from app.coordinator.epoch_state.clients
    when withdraws (withdraw_at index)

  -- The arm of `Join`: whether its run id is the coordinator's.
  unfoldable pub on_join : ⦃node : NodeIdentity T⦄ → T → List ℕ → Serving T (Unit {0})
  on_join from run_id app =
      if same_bytes (to_string app.coordinator.run_id) run_id
      then ok tt (record app { pending_clients = insert from app.pending_clients })
      else ok tt app

  abbrev pub on_opportunistic :
      ⦃node : NodeIdentity T⦄ ⦃hashing : Hashing⦄ ⦃f : Float64⦄
      → T
      → OpportunisticData
      → ℕ
      → ℕ
      → Coord T (Unit {0})
  on_opportunistic from (witness_step w) unix_timestamp random = witness from w unix_timestamp
  on_opportunistic from (warmup_step w) unix_timestamp random =
      warmup_witness from w unix_timestamp random

  -- `checkpoint` of the client at this position, its error only logged
  abbrev pub checkpoint_at : ⦃node : NodeIdentity T⦄ → T → HubRepo → Option ℕ → Serving T (Unit {0})
  checkpoint_at from repo none = pure tt
  checkpoint_at from repo (some index) = attempt (checkpoint from index repo) >>= λ _. pure tt

  -- The `match` of `on_client_message`: whether the state is to be broadcast.
  unfoldable pub on_message :
      ⦃node : NodeIdentity T⦄ ⦃hashing : Hashing⦄ ⦃f : Float64⦄
      → T
      → ClientToServerMessage T
      → ℕ
      → ℕ
      → Serving T Bool
  on_message from (join_message run_id) unix_timestamp random = on_join from run_id >> pure false
  on_message from (witness_message opportunistic) unix_timestamp random = do
    before ← gets λ app. app.coordinator.run_state
    result ← attempt (on_opportunistic from opportunistic unix_timestamp random)
    gets λ app. not (same_run_state app.coordinator.run_state before)
  on_message from (health_check_message checks) unix_timestamp random =
      attempt (health_check checks) >>= λ dropped. pure (any_dropped dropped)
  on_message from (checkpoint_message repo) unix_timestamp random = do
    index ← gets λ app. position from app.coordinator.epoch_state.clients
    checkpoint_at from repo index
    pure true

  unfoldable pub on_client_message :
      ⦃node : NodeIdentity T⦄ ⦃hashing : Hashing⦄ ⦃f : Float64⦄
      → T
      → ClientToServerMessage T
      → ℕ
      → ℕ
      → Serving T (Unit {0})
  on_client_message from m unix_timestamp random =
      on_message from m unix_timestamp random >>= post_state_change

  -- The clients of the last epoch that left unhealthy are no longer pending.
  unfoldable pub kick_unhealthy : ⦃node : NodeIdentity T⦄ → List (Client T) → List T → List T
  kick_unhealthy [] pending = pending
  kick_unhealthy (x ∷ xs) pending =
      kick_unhealthy xs (if is_healthy x.state then pending else remove x.id pending)

  unfoldable pub kick_unhealthy_clients : ⦃node : NodeIdentity T⦄ → Serving T (Unit {0})
  kick_unhealthy_clients app = ok tt (record app {
    pending_clients = kick_unhealthy app.coordinator.epoch_state.exited_clients app.pending_clients;
  })

  -- `Client::default()` in each place that is in use; `default_id` is `ClientId::default()`.
  unfoldable pub reset_ephemeral : T → Coordinator T → Coordinator T
  reset_ephemeral default_id c = record c {
    run_state = waiting_for_members;
    epoch_state = record c.epoch_state {
      clients = map (λ _. new_client default_id) c.epoch_state.clients;
      exited_clients = map (λ _. new_client default_id) c.epoch_state.exited_clients;
    };
  }

  -- The end of an epoch that was not abandoned: the state is written to a file whose name has the
  -- step before, which panics at step 0.
  unfoldable pub save_state : T → Option TickResult → Serving T (Unit {0})
  save_state default_id none = pure tt
  save_state default_id (some ticked) = pure tt
  save_state default_id (some (epoch_end false)) = pure tt
  save_state default_id (some (epoch_end true)) = do
    saves ← gets λ app. app.save_state_dir
    step ← gets λ app. app.coordinator.progress.step
    when saves (do
      before ← checked_sub step 1
      modify λ app. record app {
        saved = app.saved ++ (before, reset_ephemeral default_id app.coordinator) ∷ [];
      })

  unfoldable pub on_tick :
      ⦃node : NodeIdentity T⦄ ⦃f : Float64⦄ → T → List ℕ → ℕ → ℕ → Serving T (Unit {0})
  on_tick default_id order unix_timestamp random = do
    kick_unhealthy_clients
    pending ← gets λ app. arranged order app.pending_clients
    result ← attempt (tick (some pending) unix_timestamp random)
    save_state default_id result
    post_state_change true

  -- `App::pause`
  unfoldable pub toggle_pause : ℕ → Serving T (Unit {0})
  toggle_pause unix_timestamp = do
    state ← gets λ app. app.coordinator.run_state
    result ←
        attempt
          (if same_run_state state paused then resume unix_timestamp else pause unix_timestamp)
    pure tt

  -- One round of the loop of `run`, on the arm that `select!` takes.
  abbrev pub handle :
      ⦃node : NodeIdentity T⦄ ⦃hashing : Hashing⦄ ⦃f : Float64⦄
      → T
      → Event T
      → ℕ
      → ℕ
      → Serving T (Unit {0})
  handle default_id (message from m) unix_timestamp random =
      on_client_message from m unix_timestamp random
  handle default_id (disconnected from) unix_timestamp random = on_disconnect from
  handle default_id (tick_interval order) unix_timestamp random =
      on_tick default_id order unix_timestamp random
  handle default_id pause_notified unix_timestamp random = toggle_pause unix_timestamp

  unfoldable pub poll_next :
      ⦃node : NodeIdentity T⦄ ⦃hashing : Hashing⦄ ⦃f : Float64⦄
      → T
      → Occurrence T
      → Serving T (Unit {0})
  poll_next default_id o = handle default_id o.event o.unix_timestamp o.random

  -- The loop of `run`, up to a cancel.
  unfoldable pub run :
      ⦃node : NodeIdentity T⦄ ⦃hashing : Hashing⦄ ⦃f : Float64⦄
      → T
      → List (Occurrence T)
      → Serving T (Unit {0})
  run default_id [] = pure tt
  run default_id (o ∷ os) = poll_next default_id o >> run default_id os
