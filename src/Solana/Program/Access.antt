-- ===== src/Solana/Program/Access.antt =====
-- The instructions of the on-chain coordinator keep to what they may do: lib.rs and logic/ of
-- solana-coordinator.
use psyche.Base.{
  ℕ, ◌≡◌, refl, some, List, not, ◌==◌, inl, inr, arith, ok_or-eq-ok, ok, bind-eq-ok, Option-cases,
  ==_iff, ◌∙◌, fail_if-eq-ok, ap,
}
use psyche.Base.Keys.{find_key, put_key, drop_key}
use psyche.Core.Hashing.{Hashing}
use psyche.Coordinator.Config.{Float64}
use psyche.Coordinator.Rounds.{halted}
use psyche.Solana.Authorizer.{is_valid_for}
use psyche.Solana.Chain.{
  CoordinatorAccount, version_now, live, CoordinatorInstance, Platform, Chain, load_instance,
  load_account, load_linked, store, with_nonce, by_owner, by_anyone, constraint_violated,
  account_missing, program, bytes_from_string,
}
use psyche.Solana.ClientsState.{ClientId}
use psyche.Solana.Instance.{
  CoordinatorInstanceState, Instance, Clock, signer_mismatch, close_coordinator_not_halted,
}
use psyche.Solana.Methods.{witness, warmup_witness, health_check, checkpoint}
use psyche.Solana.Program.{
  Instruction, init_coordinator, free_coordinator, update_run, update_client_version,
  future_epoch_rates, join, pause_run, tick_run, send_witness, send_warmup_witness,
  send_health_check, send_checkpoint, join_run_authorization_scope, blank_account,
  init_coordinator_processor, free_coordinator_processor, update_client_version_handler,
  join_run_processor, process, HubRepo, Witness, CommitteeProof, try_from, client_version_len,
  first_state,
}
use psyche.Coordinator.Types.{CommitteeProof, Witness}
use psyche.Coordinator.Model.{HubRepo}
use psyche.Core.Strings.{try_from}
use psyche.Solana.Program.Effects.{
  IsMember, Entitled, nonce_step, Effect, inits, frees, acts, raw-cases, load_account-ok,
  load_linked-ok, load_instance-ok, with_nonce-ok, by_owner-ok, by_anyone-ok, sender-IsMember,
}

module _ ⦃platform : Platform⦄ ⦃hashing : Hashing⦄ ⦃f : Float64⦄ (signer ik k : ℕ)
    (c c' : Chain) where
  witness-IsMember :
      (clock : Clock) (w : Witness) (a : CoordinatorAccount) {t : CoordinatorInstanceState}
      → witness clock signer w a.state ≡ ok tt t
      → IsMember signer a
  unfolding witness
  witness-IsMember clock w a h = sender-IsMember signer a _ h

  warmup-IsMember :
      (clock : Clock) (w : Witness) (a : CoordinatorAccount) {t : CoordinatorInstanceState}
      → warmup_witness clock signer w a.state ≡ ok tt t
      → IsMember signer a
  unfolding warmup_witness
  warmup-IsMember clock w a h = sender-IsMember signer a _ h

  health-IsMember :
      (clock : Clock) (checks : List (ClientId × CommitteeProof)) (a : CoordinatorAccount)
      {t : CoordinatorInstanceState}
      → health_check clock signer checks a.state ≡ ok tt t
      → IsMember signer a
  unfolding health_check
  health-IsMember clock checks a h = sender-IsMember signer a _ h

  checkpoint-IsMember :
      (clock : Clock) (repo : HubRepo) (a : CoordinatorAccount) {t : CoordinatorInstanceState}
      → checkpoint clock signer repo a.state ≡ ok tt t
      → IsMember signer a
  unfolding checkpoint
  checkpoint-IsMember clock repo a h = sender-IsMember signer a _ h

  -- The method runs on the linked account and the nonce counts it.
  owner-Effect :
      (instr : Instruction) (m : Instance (Unit {0}))
      → ((i : CoordinatorInstance) (a : CoordinatorAccount)
          → i.main_authority ≡ signer
          → Entitled c i a signer instr)
      → nonce_step instr ≡ 1
      → by_owner signer ik k (λ a. with_nonce k a m) c ≡ ok tt c'
      → Effect signer ik k instr c c'
  owner-Effect instr m entitled one h =
      let (i, a, linked, owner, version, done) = by_owner-ok signer ik k _ c c' h in
      let (s, _, e) = with_nonce-ok k a m c c' done in
      rw e (acts i a _ linked (entitled i a owner) (version, version) (omega arith))

  anyone-Effect :
      (instr : Instruction) (m : Instance (Unit {0}))
      → ((i : CoordinatorInstance) (a : CoordinatorAccount) (s : CoordinatorInstanceState)
          → m a.state ≡ ok tt s
          → Entitled c i a signer instr)
      → nonce_step instr ≡ 1
      → by_anyone ik k (λ a. with_nonce k a m) c ≡ ok tt c'
      → Effect signer ik k instr c c'
  anyone-Effect instr m entitled one h =
      let (i, a, linked, version, done) = by_anyone-ok ik k _ c c' h in
      let (s, ran, e) = with_nonce-ok k a m c c' done in
      rw e (acts i a _ linked (entitled i a s ran) (version, version) (omega arith))

  -- What a transaction that succeeds does, by its instruction.
  init-Effect :
      (main_authority join_authority : ℕ) (run_id version : List ℕ)
      → init_coordinator_processor ik k main_authority join_authority run_id version c ≡ ok tt c'
      → Effect signer ik k (init_coordinator main_authority join_authority run_id version) c c'
  unfolding init_coordinator_processor blank_account
  init-Effect main_authority join_authority run_id version h =
      elim (Option-cases (find_key k c.accounts)) [
        | inl missing ↦ absurd (ground arith)
        | inr (raw, found) ↦ elim (raw-cases raw) [
          | inr (a, e) ↦ absurd (ground arith)
          | inl (size, e) ↦ elim (Option-cases (find_key ik c.instances)) [
            | inr (i, used) ↦ absurd (ground arith)
            | inl free ↦
                let i : CoordinatorInstance = record {
                  bump = platform.instance_bump (bytes_from_string run_id);
                  main_authority = main_authority;
                  join_authority = join_authority;
                  coordinator_account = k;
                  run_id = run_id;
                } in
                let a : CoordinatorAccount = record {
                  version = version_now;
                  state = first_state platform run_id version;
                  nonce = 0;
                } in
                let done : c' ≡ record c {
                  instances = put_key ik i c.instances;
                  accounts = put_key k (live a) c.accounts;
                } =
                  ground arith in
                rw done (inits i a size version refl free (found ∙ ap some e) refl (refl, refl))
          ]
        ]
      ]

  free-Effect :
      free_coordinator_processor signer ik k c ≡ ok tt c' → Effect signer ik k free_coordinator c c'
  unfolding free_coordinator_processor
  free-Effect h =
      let (i, c1, found, h1) = bind-eq-ok (load_instance ik c) _ h in
      let (owner, h2) =
        fail_if-eq-ok (not (i.main_authority == signer)) constraint_violated c1 _ h1 in
      let (named, h3) =
        fail_if-eq-ok (not (i.coordinator_account == k)) constraint_violated c1 _ h2 in
      let (a, c2, loaded, h4) = bind-eq-ok (load_account k c1) _ h3 in
      let (is_halted, h5) =
        fail_if-eq-ok (not (halted a.state.coordinator)) (program close_coordinator_not_halted) c2 _
          h4 in
      let one = load_instance-ok ik c c1 i found in
      let two = load_account-ok k c1 c2 a loaded in
      let e : c'
          ≡ record c { instances = drop_key ik c.instances; accounts = drop_key k c.accounts } =
        ground arith in
      rw e (
        frees i a refl
          (record {
            instance_found = one.0;
            account_found = rw one.1 at two.0;
            account_named = (==_iff _ _).0 (ground arith);
          })
          ((==_iff _ _).0 (ground arith)) (ground arith))

  join-Effect :
      (clock : Clock) (authorization : ℕ) (id : ClientId)
      → join_run_processor signer ik k clock authorization id c ≡ ok tt c'
      → Effect signer ik k (join authorization id) c c'
  unfolding join_run_processor
  join-Effect clock authorization id h =
      let (i, c1, found, h1) = bind-eq-ok (load_instance ik c) _ h in
      let (x, known, h2) =
        ok_or-eq-ok (find_key authorization c1.authorizations) account_missing c1 _ h1 in
      let (valid, h3) =
        fail_if-eq-ok (not (is_valid_for x i.join_authority signer join_run_authorization_scope))
          constraint_violated c1 _ h2 in
      let (a, c2, linked, h4) = bind-eq-ok (load_linked i k c1) _ h3 in
      let (same, h5) =
        fail_if-eq-ok (not (id.signer == signer)) (program signer_mismatch) c2 _ h4 in
      let one = load_instance-ok ik c c1 i found in
      let two = load_linked-ok i k c1 c2 a linked in
      let (t, ran, e) = with_nonce-ok k a _ c c' (rw (two.3 ∙ one.1) at h5) in
      rw e (
        acts i a _
          (record {
            instance_found = one.0;
            account_found = rw one.1 at two.1;
            account_named = two.0;
          })
          ((x, rw one.1 at known, ground arith), (==_iff _ _).0 (ground arith)) (two.2, two.2)
          (omega arith))

  version-Effect :
      (version : List ℕ)
      → by_owner signer ik k (update_client_version_handler k version) c ≡ ok tt c'
      → Effect signer ik k (update_client_version version) c c'
  unfolding update_client_version_handler
  version-Effect version h =
      let (i, a, linked, owner, same, done) = by_owner-ok signer ik k _ c c' h in
      elim (Option-cases (try_from client_version_len version)) [
        | inl long ↦ absurd (ground arith)
        | inr (v, e) ↦
            let b = record a { state = record a.state { client_version = v } } in
            let stored : c' ≡ store k b c = ground arith in
            rw stored (acts i a b linked owner (same, same) (omega arith))
      ]

  -- An instruction that succeeds does one of three things. A creation puts an instance at a free
  -- address and makes an account of zeros the account of that instance, with version and nonce set. A
  -- release, signed by the main authority of the instance, removes it and its account, which was
  -- halted. Anything else changes the one account that the instance names and nothing more: the
  -- version is right and stays, the nonce grows by one (by none for a new client version), and the
  -- signer is the main authority, or holds a valid authorization of the join authority and joins under
  -- its own key, or is a member of the run; only `tick` is open to all.
  pub process-Effect :
      (clock : Clock) (instr : Instruction)
      → process signer ik k clock instr c ≡ ok tt c'
      → Effect signer ik k instr c c'
  unfolding process
  process-Effect clock (init_coordinator main_authority join_authority run_id version) h =
      init-Effect main_authority join_authority run_id version h
  process-Effect clock free_coordinator h = free-Effect h
  process-Effect clock (update_run metadata config model progress) h =
      owner-Effect (update_run metadata config model progress) _ (λ i a e. e) refl h
  process-Effect clock (update_client_version version) h = version-Effect version h
  process-Effect clock (future_epoch_rates earning slashing) h =
      owner-Effect (future_epoch_rates earning slashing) _ (λ i a e. e) refl h
  process-Effect clock (join authorization id) h = join-Effect clock authorization id h
  process-Effect clock (pause_run paused) h = owner-Effect (pause_run paused) _ (λ i a e. e) refl h
  process-Effect clock tick_run h = anyone-Effect tick_run _ (λ i a s e. tt) refl h
  process-Effect clock (send_witness w) h =
      anyone-Effect (send_witness w) _ (λ i a s e. witness-IsMember clock w a e) refl h
  process-Effect clock (send_warmup_witness w) h =
      anyone-Effect (send_warmup_witness w) _ (λ i a s e. warmup-IsMember clock w a e) refl h
  process-Effect clock (send_health_check id proof) h =
      anyone-Effect (send_health_check id proof) _ (λ i a s e. health-IsMember clock _ a e) refl h
  process-Effect clock (send_checkpoint repo) h =
      anyone-Effect (send_checkpoint repo) _ (λ i a s e. checkpoint-IsMember clock repo a e) refl h
