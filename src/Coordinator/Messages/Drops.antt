-- ===== src/Coordinator/Messages/Drops.antt =====
-- The clients that `health_check` of shared/coordinator/src/coordinator.rs drops.
use psyche.Base.{
  ◌==◌, ◌&&◌, ◌||◌, ◌<◌, ap, sym, refl, ℕ, zero, suc, ◌+◌, ◌≡◌, ◌∙◌, inl, inr, Bool, true, false,
  some, List, [], ◌∷◌, if◌then◌else◌, get_elem?, set, ok, arith, Bool-cases, Option-cases,
}
use psyche.Coordinator.Types.{dropped, CommitteeProof, Client, Coordinator}
use psyche.Coordinator.Lifecycle.{is_healthy, set_client_state}
use psyche.Coordinator.Messages.{drop_all}

module _ {T : Type 0} where
  -- How many clients are healthy.
  abbrev pub count_healthy : List (Client T) → ℕ
  count_healthy [] = 0
  count_healthy (x ∷ xs) = if is_healthy x.state then suc (count_healthy xs) else count_healthy xs

  -- The identities, in order.
  abbrev pub ids : List (Client T) → List T
  ids [] = []
  ids (x ∷ xs) = x.id ∷ ids xs

  count_healthy-set :
      (xs : List (Client T)) (i : ℕ) (x : Client T)
      → get_elem? xs i ≡ some x
      → is_healthy x.state ≡ true
      → (count_healthy (set xs i (record x { state = dropped })) + 1 ≡ count_healthy xs)
        × (ids (set xs i (record x { state = dropped })) ≡ ids xs)
  count_healthy-set [] i x e h = cc
  count_healthy-set (y ∷ ys) zero x e h = ground arith
  count_healthy-set (y ∷ ys) (suc i) x e h = ground (arith, count_healthy-set ys i x e h)

  -- Whether one of the checks is about the client at this index.
  abbrev pub is_reported : ℕ → List (T × CommitteeProof) → Bool
  is_reported i [] = false
  is_reported i ((id, proof) ∷ checks) = proof.index == i || is_reported i checks

  abbrev pub dropped_if : Bool → Client T → Client T
  dropped_if b x = if b && is_healthy x.state then record x { state = dropped } else x

  -- The clients from index `i` on, the healthy ones that are reported marked as dropped.
  abbrev pub marked : List (T × CommitteeProof) → ℕ → List (Client T) → List (Client T)
  marked checks i [] = []
  marked checks i (x ∷ xs) = dropped_if (is_reported i checks) x ∷ marked checks (i + 1) xs

  abbrev pub with_clients : List (Client T) → Coordinator T → Coordinator T
  with_clients xs c = record c { epoch_state = record c.epoch_state { clients = xs } }

  marked-none : (i : ℕ) (xs : List (Client T)) → marked [] i xs ≡ xs
  marked-none i [] = refl
  marked-none i (x ∷ xs) = ap (λ ys. x ∷ ys) (marked-none (i + 1) xs)

  -- A check of a client in front of these.
  marked-before :
      (id : T) (proof : CommitteeProof) (checks : List (T × CommitteeProof)) (i : ℕ)
      (xs : List (Client T))
      → proof.index < i
      → marked ((id, proof) ∷ checks) i xs ≡ marked checks i xs
  marked-before id proof checks i [] h = refl
  marked-before id proof checks i (x ∷ xs) h =
      let no : (proof.index == i) ≡ false = ground (arith, h) in
      let rest = marked-before id proof checks (i + 1) xs (omega (arith, h)) in rw (no, rest) refl

  -- A check of a healthy client is the mark on it.
  marked-healthy :
      (id : T) (proof : CommitteeProof) (checks : List (T × CommitteeProof)) (i k : ℕ)
      (xs : List (Client T)) (x : Client T)
      → proof.index ≡ i + k
      → get_elem? xs k ≡ some x
      → is_healthy x.state ≡ true
      → marked ((id, proof) ∷ checks) i xs
        ≡ marked checks i (set xs k (record x { state = dropped }))
  marked-healthy id proof checks i k [] x e h well = cc
  marked-healthy id proof checks i zero (y ∷ ys) x e h well =
      let yes : (proof.index == i) ≡ true = ground (arith, e) in
      let is : y ≡ x = ground arith in
      let rest = marked-before id proof checks (i + 1) ys (omega (arith, e)) in
      elim (Bool-cases (is_reported i checks)) [
        | inl too ↦ ground (arith, yes, is, rest, well, too)
        | inr alone ↦ ground (arith, yes, is, rest, well, alone)
      ]
  marked-healthy id proof checks i (suc k) (y ∷ ys) x e h well =
      let no : (proof.index == i) ≡ false = ground (arith, e) in
      let rest = marked-healthy id proof checks (i + 1) k ys x (omega (arith, e)) h well in
      rw (no, rest) refl

  -- A check of a client that is not healthy does nothing.
  marked-ill :
      (id : T) (proof : CommitteeProof) (checks : List (T × CommitteeProof)) (i k : ℕ)
      (xs : List (Client T)) (x : Client T)
      → proof.index ≡ i + k
      → get_elem? xs k ≡ some x
      → is_healthy x.state ≡ false
      → marked ((id, proof) ∷ checks) i xs ≡ marked checks i xs
  marked-ill id proof checks i k [] x e h ill = cc
  marked-ill id proof checks i zero (y ∷ ys) x e h ill =
      let yes : (proof.index == i) ≡ true = ground (arith, e) in
      let is : y ≡ x = ground arith in
      let rest = marked-before id proof checks (i + 1) ys (omega (arith, e)) in
      elim (Bool-cases (is_reported i checks)) [
        | inl too ↦ ground (arith, yes, is, rest, ill, too)
        | inr alone ↦ ground (arith, yes, is, rest, ill, alone)
      ]
  marked-ill id proof checks i (suc k) (y ∷ ys) x e h ill =
      let no : (proof.index == i) ≡ false = ground (arith, e) in
      let rest = marked-ill id proof checks (i + 1) k ys x (omega (arith, e)) h ill in
      rw (no, rest) refl

  pub drop_all-ok :
      (checks : List (T × CommitteeProof)) (k n : ℕ) (c d : Coordinator T)
      → drop_all checks k c ≡ ok n d
      → (d ≡ with_clients (marked checks 0 c.epoch_state.clients) c)
        × (count_healthy d.epoch_state.clients + n ≡ count_healthy c.epoch_state.clients + k)
        × (ids d.epoch_state.clients ≡ ids c.epoch_state.clients)
        × (d.run_state ≡ c.run_state)
  unfolding drop_all
  drop_all-ok [] k n c d h =
      let is : d ≡ c = ground arith in
      (
        is ∙ ap (λ xs. with_clients xs c) (sym (marked-none 0 c.epoch_state.clients)),
        ground arith,
        ground arith,
        ground arith,
      )
  drop_all-ok ((id, proof) ∷ checks) k n c d h =
      elim (Option-cases (get_elem? c.epoch_state.clients proof.index)) [
        | inl nobody ↦ ground arith
        | inr (x, e) ↦ elim (Bool-cases (is_healthy x.state)) [
          | inl fit ↦
              let next : drop_all checks (k + 1) (set_client_state proof.index x dropped c)
                  ≡ ok n d =
                ground arith in
              let (marks, count, same, state) =
                drop_all-ok checks (k + 1) n (set_client_state proof.index x dropped c) d next in
              let (fewer, kept) = count_healthy-set c.epoch_state.clients proof.index x e fit in
              let first =
                marked-healthy id proof checks 0 proof.index c.epoch_state.clients x (omega arith) e
                  fit in
              (marks ∙ ap (λ xs. with_clients xs c) (sym first), omega arith, same ∙ kept, state)
          | inr unfit ↦
              let next : drop_all checks k c ≡ ok n d = ground arith in
              let (marks, count, same, state) = drop_all-ok checks k n c d next in
              let first =
                marked-ill id proof checks 0 proof.index c.epoch_state.clients x (omega arith) e
                  unfit in
              (marks ∙ ap (λ xs. with_clients xs c) (sym first), count, same, state)
        ]
      ]
