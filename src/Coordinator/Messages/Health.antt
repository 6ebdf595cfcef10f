-- ===== src/Coordinator/Messages/Health.antt =====
-- Health checks: `health_check` of shared/coordinator/src/coordinator.rs.
use psyche.Base.{
  ap, ℕ, ◌+◌, ◌≤◌, ◌≡◌, ◌∙◌, inl, inr, Bool, false, some, List, [], ◌∷◌, ltb, ok, bind, bind-eq-ok,
  arith, Bool-cases, Option-cases,
}
use psyche.Core.Hashing.{Hashing}
use psyche.Coordinator.Types.{
  NodeIdentity, CommitteeProof, Client, Round, Coordinator, Committee, tie_breaker, verifier,
  trainer,
}
use psyche.Coordinator.Rounds.{
  current_round, halted, previous_round, get_client_at_historical_index,
}
use psyche.Coordinator.Messages.{
  healthy, check_all, drop_all, health_check, trainer_healthy, previous_round, witness_quorum,
  Committee, get_client_at_historical_index, healthy_in, healthy_client, from_coordinator,
}
use psyche.Coordinator.Quorum.{witness_quorum}
use psyche.Coordinator.Committees.{from_coordinator, previous}
use psyche.Coordinator.Messages.Witnesses.{from_coordinator_keeps}
use psyche.Coordinator.Messages.Drops.{count_healthy, ids, marked, with_clients, drop_all-ok}

module _ {T : Type 0} ⦃node : NodeIdentity T⦄ ⦃hashing : Hashing⦄ where
  trainer_healthy-keeps :
      (id : T) (c d : Coordinator T) (b : Bool) → trainer_healthy id c ≡ ok b d → d ≡ c
  unfolding trainer_healthy witness_quorum
  trainer_healthy-keeps id c d b h = elim (Option-cases (previous_round c)) [
    | inl no_round ↦ ground arith
    | inr (r, e) ↦ ground arith
  ]

  healthy_in-keeps :
      (role : Committee) (id : T) (c d : Coordinator T) (b : Bool)
      → healthy_in role id c ≡ ok b d
      → d ≡ c
  healthy_in-keeps tie_breaker id c d b h = cc
  healthy_in-keeps verifier id c d b h = cc
  healthy_in-keeps trainer id c d b h = trainer_healthy-keeps id c d b h

  healthy_client-keeps :
      (id : T) (proof : CommitteeProof) (client : Client T) (c d : Coordinator T) (b : Bool)
      → healthy_client id proof client c ≡ ok b d
      → d ≡ c
  unfolding healthy_client
  healthy_client-keeps id proof client c d b h =
      let (s, m, selected, h1) = bind-eq-ok (from_coordinator previous c) _ h in
      let same = from_coordinator_keeps previous c m s selected in
      let judged : healthy_in proof.committee client.id c ≡ ok b d = ground arith in
      healthy_in-keeps proof.committee client.id c d b judged

  -- Looking at a client's health changes nothing.
  healthy-keeps :
      (id : T) (proof : CommitteeProof) (c d : Coordinator T) (b : Bool)
      → healthy id proof c ≡ ok b d
      → d ≡ c
  unfolding healthy
  healthy-keeps id proof c d b h = elim (Option-cases (previous_round c)) [
    | inl no_round ↦ ground arith
    | inr (r, e) ↦ elim (Bool-cases (ltb proof.index r.clients_len)) [
      | inr out ↦ ground arith
      | inl within ↦
          elim (Option-cases (get_client_at_historical_index c proof.index r.clients_len)) [
            | inl nobody ↦ ground arith
            | inr (client, found) ↦
                let rest : healthy_client id proof client c ≡ ok b d = ground arith in
                healthy_client-keeps id proof client c d b rest
          ]
    ]
  ]

  -- Each of the reported clients was found unhealthy.
  abbrev pub AllUnhealthy : List (T × CommitteeProof) → Coordinator T → Type 0
  AllUnhealthy [] c = Unit
  AllUnhealthy ((id, proof) ∷ checks) c = (healthy id proof c ≡ ok false c) × AllUnhealthy checks c

  check_all-ok :
      (checks : List (T × CommitteeProof)) (c d : Coordinator T)
      → check_all checks c ≡ ok tt d
      → (d ≡ c) × AllUnhealthy checks c
  unfolding check_all
  check_all-ok [] c d h = ground arith
  check_all-ok ((id, proof) ∷ checks) c d h =
      let (b, m, looked, h1) = bind-eq-ok (healthy id proof c) _ h in
      let same = healthy-keeps id proof c m b looked in
      let unwell : b ≡ false = ground arith in
      let rest : check_all checks c ≡ ok tt d = ground arith in
      let (unchanged, others) = check_all-ok checks c d rest in (unchanged, (ground arith, others))

  -- If `health_check` returns a number, the current round has a height of 2 or more, each of the
  -- reported clients was found unhealthy, and all that has changed is that the healthy clients at the
  -- reported indices are marked as dropped. So many of them there were; the identities of the
  -- clients, their order and the run state are as before.
  pub health_check_drops :
      (checks : List (T × CommitteeProof)) (n : ℕ) (c d : Coordinator T)
      → health_check checks c ≡ ok n d
      → (halted c ≡ false)
        × ((r : Round) × (current_round c ≡ some r) × (2 ≤ r.height))
        × AllUnhealthy checks c
        × (d ≡ with_clients (marked checks 0 c.epoch_state.clients) c)
        × (count_healthy d.epoch_state.clients + n ≡ count_healthy c.epoch_state.clients)
        × (ids d.epoch_state.clients ≡ ids c.epoch_state.clients)
        × (d.run_state ≡ c.run_state)
  unfolding health_check
  health_check_drops checks n c d h = elim (Option-cases (current_round c)) [
    | inl no_round ↦ ground arith
    | inr (r, e) ↦
        let awake : halted c ≡ false = ground arith in
        let rest : bind (check_all checks c) (λ _. drop_all checks 0) ≡ ok n d = ground arith in
        let (_, m, checked, after) =
          bind-eq-ok (check_all checks c) (λ _. drop_all checks 0) rest in
        let (same, unhealthy) = check_all-ok checks c m checked in
        let (marks, count, kept, state) = drop_all-ok checks 0 n m d after in
        (
          awake,
          (r, e, ground arith),
          unhealthy,
          marks ∙ ap (λ s. with_clients (marked checks 0 s.epoch_state.clients) s) same,
          ground arith,
          ground arith,
          ground arith,
        )
  ]
