-- ===== src/Coordinator/Lifecycle/Leaving.antt =====
-- Clients that leave: what `move_clients_to_exited`, `withdraw` and `withdraw_all` of
-- shared/coordinator/src/coordinator.rs do to the two lists of clients.
use psyche.Base.{
  ◌⊎◌, inl, inr, Bool-cases, ℕ, zero, suc, ◌+◌, ◌≤◌, ◌<◌, ◌≡◌, refl, ap, false, some, List, [], ◌∷◌,
  ◌++◌, length, ok, err, arith, if◌then◌else◌, length-append, get_elem?-middle, set-middle,
}
use mathlib.Core.List.{append_assoc, append-nil}
use psyche.Coordinator.Types.{healthy, withdrawn, Client, Coordinator, invalid_withdraw}
use psyche.Coordinator.Lifecycle.{
  is_healthy, retain_healthy, move_clients_to_exited, withdraw, withdraw_from, withdraw_all,
}

module _ {T : Type 0} where
  -- The clients that stay.
  abbrev pub healthy_clients : List (Client T) → List (Client T)
  healthy_clients [] = []
  healthy_clients (x ∷ xs) =
      if is_healthy x.state then x ∷ healthy_clients xs else healthy_clients xs

  -- The clients that go, stamped with the height at which they went.
  abbrev pub leaving_clients : ℕ → List (Client T) → List (Client T)
  leaving_clients height [] = []
  leaving_clients height (x ∷ xs) =
      if is_healthy x.state
      then leaving_clients height xs
      else record x { exited_height = height } ∷ leaving_clients height xs

  abbrev pub AllHealthy : List (Client T) → Type 0
  AllHealthy [] = Unit
  AllHealthy (x ∷ xs) = (x.state ≡ healthy) × AllHealthy xs

  pub healthy_clients-AllHealthy : (xs : List (Client T)) → AllHealthy (healthy_clients xs)
  healthy_clients-AllHealthy [] = tt
  healthy_clients-AllHealthy (x ∷ xs) = ground (arith, healthy_clients-AllHealthy xs)

  pub length-healthy-leaving :
      (h : ℕ) (xs : List (Client T))
      → length (healthy_clients xs) + length (leaving_clients h xs) ≡ length xs
  length-healthy-leaving h [] = omega arith
  length-healthy-leaving h (x ∷ xs) = ground (arith, length-healthy-leaving h xs)

  pub retain_healthy-eq :
      (h : ℕ) (xs exited : List (Client T))
      → length xs + length exited ≤ 256
      → retain_healthy h xs exited ≡ some (healthy_clients xs, exited ++ leaving_clients h xs)
  unfolding retain_healthy
  retain_healthy-eq h [] exited room = rw append-nil
  retain_healthy-eq h (x ∷ xs) exited room =
      let moved = record x { exited_height = h } in
      ground (
        arith,
        retain_healthy-eq h xs exited,
        retain_healthy-eq h xs (exited ++ moved ∷ []),
        length-append exited (moved ∷ []),
        append_assoc exited (moved ∷ []) (leaving_clients h xs),
      )

  -- The state after `move_clients_to_exited`.
  abbrev pub moved : ℕ → Coordinator T → Coordinator T
  moved height c = record c {
    epoch_state = record c.epoch_state {
      clients = healthy_clients c.epoch_state.clients;
      exited_clients = c.epoch_state.exited_clients ++ leaving_clients height c.epoch_state.clients;
    };
  }

  -- With at most 256 clients in the two lists together, every client that is not healthy moves to
  -- the end of the exited list, in order and with the height; the healthy ones stay, in order, and
  -- nothing else changes. The push into the exited list never fails.
  pub move_clients_to_exited_lem :
      (height : ℕ) (c : Coordinator T)
      → length c.epoch_state.clients + length c.epoch_state.exited_clients ≤ 256
      → move_clients_to_exited height c ≡ ok tt (moved height c)
  unfolding move_clients_to_exited
  move_clients_to_exited_lem height c room = rw (
    retain_healthy-eq height c.epoch_state.clients c.epoch_state.exited_clients room,
    move_clients_to_exited,
  )

  abbrev pub withdrawn_clients : List (Client T) → List (Client T)
  withdrawn_clients [] = []
  withdrawn_clients (x ∷ xs) = record x { state = withdrawn } ∷ withdrawn_clients xs

  pub length-withdrawn : (xs : List (Client T)) → length (withdrawn_clients xs) ≡ length xs
  length-withdrawn [] = refl
  length-withdrawn (x ∷ xs) = ap suc (length-withdrawn xs)

  abbrev pub with_clients : List (Client T) → Coordinator T → Coordinator T
  with_clients cs c = record c { epoch_state = record c.epoch_state { clients = cs } }

  -- The writes of the loop, when the clients before `i` are done and those from `i` on are healthy.
  withdraw_from-eq :
      (c : Coordinator T) (done rest : List (Client T))
      → AllHealthy rest
      → c.epoch_state.clients ≡ done ++ rest
      → withdraw_from (length rest) (length done) c
        ≡ ok tt (with_clients (done ++ withdrawn_clients rest) c)
  unfolding withdraw_from withdraw
  withdraw_from-eq c done [] h e = ground (arith)
  withdraw_from-eq c done (x ∷ rest) h e =
      let x' = record x { state = withdrawn } in
      ground (
        arith,
        get_elem?-middle done rest x,
        set-middle done rest x x',
        length-append done (x' ∷ []),
        append_assoc done (x' ∷ []) rest,
        append_assoc done (x' ∷ []) (withdrawn_clients rest),
        withdraw_from-eq (with_clients (done ++ x' ∷ rest) c) (done ++ x' ∷ []) rest,
      )

  -- When every client is healthy, `withdraw_all` withdraws each of them and changes nothing else.
  pub withdraw_all_lem :
      (c : Coordinator T)
      → AllHealthy c.epoch_state.clients
      → withdraw_all c ≡ ok tt (with_clients (withdrawn_clients c.epoch_state.clients) c)
  unfolding withdraw_all
  withdraw_all_lem c h = withdraw_from-eq c [] c.epoch_state.clients h refl

  -- The loop stops at the first client that is not healthy.
  withdraw_from_stops :
      (n : ℕ) (c : Coordinator T) (done front : List (Client T)) (x : Client T)
      (back : List (Client T))
      → length front < n
      → AllHealthy front
      → is_healthy x.state ≡ false
      → c.epoch_state.clients ≡ done ++ (front ++ x ∷ back)
      → withdraw_from n (length done) c
        ≡ err invalid_withdraw (with_clients (done ++ (withdrawn_clients front ++ x ∷ back)) c)
  unfolding withdraw_from withdraw
  withdraw_from_stops zero c done front x back lt h u e = elim lt [ ]
  withdraw_from_stops (suc n) c done [] x back lt h u e =
      ground (arith, get_elem?-middle done back x)
  withdraw_from_stops (suc n) c done (y ∷ front) x back lt h u e =
      let y' = record y { state = withdrawn } in
      let rest = front ++ x ∷ back in
      ground (
        arith,
        get_elem?-middle done rest y,
        set-middle done rest y y',
        length-append done (y' ∷ []),
        append_assoc done (y' ∷ []) rest,
        append_assoc done (y' ∷ []) (withdrawn_clients front ++ x ∷ back),
        withdraw_from_stops n (with_clients (done ++ y' ∷ rest) c) (done ++ y' ∷ []) front x back,
      )

  -- When some client is not healthy, `withdraw_all` fails, and leaves the clients before the first
  -- such one withdrawn.
  pub withdraw_all_stops :
      (c : Coordinator T) (front : List (Client T)) (x : Client T) (back : List (Client T))
      → AllHealthy front
      → is_healthy x.state ≡ false
      → c.epoch_state.clients ≡ front ++ x ∷ back
      → withdraw_all c ≡ err invalid_withdraw (with_clients (withdrawn_clients front ++ x ∷ back) c)
  unfolding withdraw_all
  withdraw_all_stops c front x back h u e =
      withdraw_from_stops (length c.epoch_state.clients) c [] front x back
        (omega (arith, ap length e, length-append front (x ∷ back))) h u e

  -- Every client is healthy, or there is a first that is not.
  healthy_or_first :
      (xs : List (Client T))
      → AllHealthy xs
        ⊎ ((front : List (Client T)) × (x : Client T) × (back : List (Client T)) × AllHealthy front
            × (is_healthy x.state ≡ false)
            × (xs ≡ front ++ x ∷ back))
  healthy_or_first [] = inl tt
  healthy_or_first (x ∷ xs) = elim (Bool-cases (is_healthy x.state)) [
    | inr unhealthy ↦ inr ([], x, xs, tt, unhealthy, refl)
    | inl well ↦ elim (healthy_or_first xs) [
      | inl all ↦ inl (ground arith, all)
      | inr (front, y, back, h, u, e) ↦
          inr (x ∷ front, y, back, (ground arith, h), u, ap (λ l. x ∷ l) e)
    ]
  ]

  -- Where `withdraw_all` succeeds it has withdrawn every client.
  pub withdraw_all-ok :
      (c d : Coordinator T)
      → withdraw_all c ≡ ok tt d
      → d ≡ with_clients (withdrawn_clients c.epoch_state.clients) c
  withdraw_all-ok c d h = elim (healthy_or_first c.epoch_state.clients) [
    | inl all ↦ ground (arith, withdraw_all_lem c all)
    | inr (front, x, back, all, u, e) ↦ ground (arith, withdraw_all_stops c front x back all u e)
  ]
