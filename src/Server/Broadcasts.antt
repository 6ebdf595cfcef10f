-- ===== src/Server/Broadcasts.antt =====
-- What the centralized server sends to its clients, and whom a tick throws out of the pending ones,
-- architectures/centralized/server/src/app.rs.
use psyche.Base.{
  arith, ℕ, ◌≡◌, refl, Bool, true, false, Option, none, some, List, [], ◌∷◌, ◌++◌, ok, not, ◌&&◌,
  ◌||◌, inl, inr, Bool-cases, bind-eq-ok, ◌↔◌,
}
use psyche.Base.Keeps.{
  Leaves, Keeps, pure-Keeps, bind-Keeps, modify-Keeps, when-Keeps, checked_sub-Keeps,
}
use mathlib.Core.Option
use psyche.Coordinator.Config.{Float64}
use psyche.Coordinator.Types.{
  NodeIdentity, Client, Coordinator, Coord, TickResult, ticked, epoch_end,
}
use psyche.Server.Attempts.{aside-Keeps}
use psyche.Server.{
  attempt, App, on_tick, is_healthy, post_state_change, is_pending, kick_unhealthy, save_state,
  remove, kick_unhealthy_clients, active, tick, arranged,
}
use psyche.Coordinator.Lifecycle.{is_healthy}

-- The identities are compared by equality.
abbrev pub SameIsEqual : {T : Type 0} → NodeIdentity T → Type 0
SameIsEqual {T} node = (x y : T) → (node.same x y ≡ true) ↔ (x ≡ y)

module _ {T : Type 0} where
  -- What was sent to the clients and to the data server so far.
  abbrev Sent : List (Coordinator T) → Option (List (Coordinator T)) → App T → Type 0
  Sent b d app = (app.broadcasts ≡ b) × (app.data_server ≡ d)

  -- One more state was sent to the clients and, if there is one, to the data server: the present one.
  abbrev pub Publishes : App T → App T → Type 0
  Publishes before after =
      (after.broadcasts ≡ before.broadcasts ++ after.coordinator ∷ [])
      × (after.data_server ≡ Option.map (λ sent. sent ++ after.coordinator ∷ []) before.data_server)

  save_state-Sent :
      (b : List (Coordinator T)) (d : Option (List (Coordinator T))) (x : T)
      (result : Option TickResult)
      → Keeps (Sent b d) (save_state x result)
  unfolding save_state
  save_state-Sent b d x none = pure-Keeps tt
  save_state-Sent b d x (some ticked) = pure-Keeps tt
  save_state-Sent b d x (some (epoch_end false)) = pure-Keeps tt
  save_state-Sent b d x (some (epoch_end true)) = record {
    keeps = λ app q.
        (when-Keeps app.save_state_dir (
            bind-Keeps (checked_sub-Keeps app.coordinator.progress.step 1)
              (λ before. modify-Keeps (λ a k. k)))).keeps
          app q;
  }

  publish_lem :
      (app before after : App T)
      → Sent before.broadcasts before.data_server app
      → post_state_change true app ≡ ok tt after
      → Publishes before after
  unfolding post_state_change
  publish_lem app before after q h = elim (Bool-cases (active app.coordinator)) [
    | inl on ↦ ground (arith, h, q, on)
    | inr off ↦ ground (arith, h, q, off)
  ]

  module _ ⦃node : NodeIdentity T⦄ where
    -- Every tick that does not panic sends the state it leaves to the clients and to the data
    -- server, once, whether the coordinator's tick did anything, failed, or ended an epoch.
    pub on_tick-Publishes :
        ⦃f : Float64⦄ (default_id : T) (order : List ℕ) (now random : ℕ) (app after : App T)
        → on_tick default_id order now random app ≡ ok tt after
        → Publishes app after
    unfolding on_tick kick_unhealthy_clients
    on_tick-Publishes default_id order now random app after h =
        let kicked : App T = record app {
          pending_clients =
              kick_unhealthy app.coordinator.epoch_state.exited_clients app.pending_clients;
        } in
        let ticking : Coord T TickResult =
          tick (some (arranged order kicked.pending_clients)) now random in
        let (result, a, is, rest) = bind-eq-ok (attempt ticking kicked) _ h in
        let (tt, b, saves, last) = bind-eq-ok (save_state default_id result a) _ rest in
        let first : Sent app.broadcasts app.data_server a =
          rw (is, Leaves) at
            ((aside-Keeps {R = Sent app.broadcasts app.data_server} (λ d c q. q) ticking).keeps
              kicked (refl, refl)) in
        let second : Sent app.broadcasts app.data_server b =
          rw (saves, Leaves) at
            ((save_state-Sent app.broadcasts app.data_server default_id result).keeps a first) in
        publish_lem b app after second last

    -- Whether this client left unhealthy.
    abbrev pub left_unhealthy : T → List (Client T) → Bool
    left_unhealthy y [] = false
    left_unhealthy y (x ∷ xs) =
        (not (is_healthy x.state) && node.same x.id y) || left_unhealthy y xs

    is_pending-remove :
        SameIsEqual node
        → (x y : T) (ys : List T)
        → is_pending y (remove x ys) ≡ (is_pending y ys && not (node.same x y))
    is_pending-remove eq x y [] = refl
    is_pending-remove eq x y (z ∷ zs) =
        let ih : is_pending y (remove x zs) ≡ (is_pending y zs && not (node.same x y)) =
          is_pending-remove eq x y zs in
        elim (Bool-cases (node.same z x)) [
          | inl same ↦ let is : z ≡ x = (eq z x).0 same in rw same (ground (arith, ih, is))
          | inr other ↦ elim (Bool-cases (node.same z y)) [
            | inl found ↦
                let is : z ≡ y = (eq z y).0 found in
                let apart : node.same x y ≡ false = elim (Bool-cases (node.same x y)) [
                  | inr f ↦ f
                  | inl t ↦
                      let y_is : x ≡ y = (eq x y).0 t in
                      let z_is : z ≡ x = cc in
                      let again : node.same z x ≡ true = (eq z x).1 z_is in absurd (cc)
                ] in
                rw (other, found) (ground (arith, apart))
            | inr lost ↦ rw (other, lost) (ground (arith, ih))
          ]
        ]

    -- After the kick a client is pending exactly if it was before and none of the exited clients
    -- that are not healthy has its id, given that ids are compared by equality.
    pub is_pending-kick_unhealthy :
        SameIsEqual node
        → (y : T) (xs : List (Client T)) (pending : List T)
        → is_pending y (kick_unhealthy xs pending)
          ≡ (is_pending y pending && not (left_unhealthy y xs))
    unfolding kick_unhealthy
    is_pending-kick_unhealthy eq y [] pending = ground arith
    is_pending-kick_unhealthy eq y (x ∷ xs) pending = elim (Bool-cases (is_healthy x.state)) [
      | inl well ↦ rw well (is_pending-kick_unhealthy eq y xs pending)
      | inr ill ↦ rw ill (
          ground (
            arith,
            is_pending-kick_unhealthy eq y xs (remove x.id pending),
            is_pending-remove eq x.id y pending,
          ))
    ]
