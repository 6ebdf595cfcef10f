-- ===== src/Server/History.antt =====
-- Who the centralized server lets in: the history of the members of `App`,
-- architectures/centralized/server/src/app.rs.
use psyche.Base.{ℕ, zero, suc, ◌≡◌, refl, some, List, [], ◌∷◌, ◌++◌, map, get_elem?, ok, arith}
use psyche.Base.Keeps.{Leaves}
use psyche.Core.Strings.{to_string}
use psyche.Core.Hashing.{Hashing}
use psyche.Coordinator.Config.{Float64}
use psyche.Coordinator.Types.{NodeIdentity, Client}
use psyche.Coordinator.Members.{AllIds}
use psyche.Coordinator.Members.Ticks.{AllPending}
use psyche.Server.Insiders.{joined, Insiders, run-Keeps}
use psyche.Server.{App, Occurrence, run}

-- The ids that the server knows of.
abbrev pub known : {T : Type 0} → App T → List T
known app = map (λ x. x.id) app.coordinator.epoch_state.clients ++ app.pending_clients

-- `x` stands somewhere in the list.
abbrev pub Among : {T : Type 0} → List T → T → Type 0
Among xs x = (i : ℕ) × (get_elem? xs i ≡ some x)

module _ {T : Type 0} where
  Among-left : (xs ys : List T) (x : T) → Among xs x → Among (xs ++ ys) x
  Among-left [] ys x (i, h) = absurd (ground arith)
  Among-left (z ∷ xs) ys x (zero, h) = (zero, h)
  Among-left (z ∷ xs) ys x (suc i, h) =
      let k : Among (xs ++ ys) x = Among-left xs ys x (i, h) in (suc k.0, k.1)

  Among-right : (xs ys : List T) (x : T) → Among ys x → Among (xs ++ ys) x
  Among-right [] ys x h = h
  Among-right (z ∷ xs) ys x h = let k : Among (xs ++ ys) x = Among-right xs ys x h in (suc k.0, k.1)

  AllPending-Among : (Q : T → Type 0) (xs : List T) → ((x : T) → Among xs x → Q x) → AllPending Q xs
  AllPending-Among Q [] h = tt
  AllPending-Among Q (x ∷ xs) h =
      (h x (zero, refl), AllPending-Among Q xs (λ y (i, k). h y (suc i, k)))

  AllIds-Among :
      (Q : T → Type 0) (xs : List (Client T))
      → ((x : T) → Among (map (λ x. x.id) xs) x → Q x)
      → AllIds Q xs
  AllIds-Among Q [] h = tt
  AllIds-Among Q (x ∷ xs) h = (h x.id (zero, refl), AllIds-Among Q xs (λ y (i, k). h y (suc i, k)))

  AllIds-get_elem? :
      (Q : T → Type 0) (xs : List (Client T)) (i : ℕ) (x : Client T)
      → get_elem? xs i ≡ some x
      → AllIds Q xs
      → Q x.id
  AllIds-get_elem? Q [] i x h q = absurd (ground arith)
  AllIds-get_elem? Q (y ∷ ys) zero x h q = let is : y ≡ x = ground arith in rw is at q.0
  AllIds-get_elem? Q (y ∷ ys) (suc i) x h q = AllIds-get_elem? Q ys i x h q.1

module _ {T : Type 0} ⦃node : NodeIdentity T⦄ ⦃hashing : Hashing⦄ ⦃f : Float64⦄ where
  -- After the server has handled any sequence of events without panicking, each client of the
  -- coordinator was a client or pending when the sequence began, or the sequence has a join from it
  -- with the coordinator's run id.
  pub run-Among :
      (default_id : T) (os : List (Occurrence T)) (app after : App T)
      → run default_id os app ≡ ok tt after
      → (i : ℕ) (x : Client T) → get_elem? after.coordinator.epoch_state.clients i ≡ some x
      → Among (known app ++ joined (to_string app.coordinator.run_id) os) x.id
  run-Among default_id os app after h i x there =
      let r : List ℕ = app.coordinator.run_id in
      let all : List T = known app ++ joined (to_string r) os in
      let Q : T → Type 0 = Among all in
      let ids : List T = map (λ y. y.id) app.coordinator.epoch_state.clients in
      let news : AllPending Q (joined (to_string r) os) =
        AllPending-Among Q _ (λ y k. Among-right (known app) _ y k) in
      let begins : Insiders Q r app = (
        (refl, AllIds-Among Q _ (λ y k. Among-left (known app) _ y (Among-left ids _ y k))),
        AllPending-Among Q _ (λ y k. Among-left (known app) _ y (Among-right ids _ y k)),
      ) in
      let ends : Insiders Q r after =
        rw (h, Leaves) at ((run-Keeps Q r default_id os news).keeps app begins) in
      AllIds-get_elem? Q after.coordinator.epoch_state.clients i x there ends.0.1
