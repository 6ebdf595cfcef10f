-- ===== src/Solana/Program/Effects.antt =====
-- What an instruction of the on-chain coordinator may do, as a relation on the chain, and what its
-- loads find: lib.rs and logic/ of solana-coordinator.
use psyche.Base.{
  ℕ, ◌+◌, ◌≡◌, refl, true, none, some, List, not, ◌==◌, ◌⊎◌, inl, inr, arith, ◌>>=◌, ok, bind-eq-ok,
  Option-cases, ==_iff, Outcome-cases, ◌∙◌, bind, fail_if-eq-ok,
}
use psyche.Base.Keys.{find_key, put_key, drop_key}
use psyche.Coordinator.Rounds.{halted}
use psyche.Solana.Authorizer.{Authorization, is_valid_for}
use psyche.Solana.Chain.{
  CoordinatorAccount, version_now, RawAccount, blank, live, CoordinatorInstance, Platform, Chain,
  Handler, load_instance, load_account, load_linked, store, with_nonce, run_method, by_owner,
  by_anyone, constraint_violated,
}
use psyche.Solana.ClientsState.{ClientId, find_signer}
use psyche.Solana.Instance.{CoordinatorInstanceState, Instance}
use psyche.Solana.Methods.{sender}
use psyche.Solana.Program.{
  Instruction, init_coordinator, free_coordinator, update_run, update_client_version,
  future_epoch_rates, join, pause_run, tick_run, send_witness, send_warmup_witness,
  send_health_check, send_checkpoint, join_run_authorization_scope,
}

-- The method sees a member of the run under the key.
abbrev pub IsMember : ℕ → CoordinatorAccount → Type 0
IsMember signer a = (id : ClientId) × (find_signer signer a.state.clients_state ≡ some id)

-- The authorizer has an account that lets the key join.
abbrev pub MayJoin : Chain → CoordinatorInstance → ℕ → ℕ → Type 0
MayJoin c i signer authorization =
    (x : Authorization) × (find_key authorization c.authorizations ≡ some x)
    × (is_valid_for x i.join_authority signer join_run_authorization_scope ≡ true)

-- What the key that signs must be, by the instruction, where that acts on an account.
abbrev pub Entitled : Chain → CoordinatorInstance → CoordinatorAccount → ℕ → Instruction → Type 0
Entitled c i a signer (init_coordinator main_authority join_authority run_id version) = ⊥
Entitled c i a signer free_coordinator = ⊥
Entitled c i a signer (update_run metadata config model progress) = i.main_authority ≡ signer
Entitled c i a signer (update_client_version version) = i.main_authority ≡ signer
Entitled c i a signer (future_epoch_rates earning slashing) = i.main_authority ≡ signer
Entitled c i a signer (join authorization id) =
    MayJoin c i signer authorization × (id.signer ≡ signer)
Entitled c i a signer (pause_run paused) = i.main_authority ≡ signer
Entitled c i a signer tick_run = Unit
Entitled c i a signer (send_witness w) = IsMember signer a
Entitled c i a signer (send_warmup_witness w) = IsMember signer a
Entitled c i a signer (send_health_check id proof) = IsMember signer a
Entitled c i a signer (send_checkpoint repo) = IsMember signer a

-- How many the nonce grows by.
abbrev pub nonce_step : Instruction → ℕ
nonce_step (update_client_version version) = 0
nonce_step _ = 1

-- The two accounts of an instruction, each naming the other.
pub record Linked (c : Chain) (ik k : ℕ) (i : CoordinatorInstance) (a : CoordinatorAccount)
    : Type 0 where
  pub instance_found : find_key ik c.instances ≡ some i
  pub account_found : find_key k c.accounts ≡ some (live a)
  pub account_named : i.coordinator_account ≡ k

-- What an instruction that succeeds does to the chain.
pub data Effect (signer ik k : ℕ) (instr : Instruction) (c : Chain) : Chain → Type 0 where
  inits :
      (i : CoordinatorInstance) (a : CoordinatorAccount) (size : ℕ) (version : List ℕ)
      → instr ≡ init_coordinator i.main_authority i.join_authority i.run_id version
      → find_key ik c.instances ≡ none
      → find_key k c.accounts ≡ some (blank size)
      → i.coordinator_account ≡ k
      → (a.version ≡ version_now) × (a.nonce ≡ 0)
      → Effect signer ik k instr c (record c {
        instances = put_key ik i c.instances;
        accounts = put_key k (live a) c.accounts;
      })
  frees :
      (i : CoordinatorInstance) (a : CoordinatorAccount)
      → instr ≡ free_coordinator
      → Linked c ik k i a
      → i.main_authority ≡ signer
      → halted a.state.coordinator ≡ true
      → Effect signer ik k instr c
          (record c { instances = drop_key ik c.instances; accounts = drop_key k c.accounts })
  acts :
      (i : CoordinatorInstance) (a b : CoordinatorAccount)
      → Linked c ik k i a
      → Entitled c i a signer instr
      → (a.version ≡ version_now) × (b.version ≡ version_now)
      → b.nonce ≡ a.nonce + nonce_step instr
      → Effect signer ik k instr c (store k b c)

pub raw-cases :
    (r : RawAccount) → ((n : ℕ) × (r ≡ blank n)) ⊎ ((a : CoordinatorAccount) × (r ≡ live a))
raw-cases (blank n) = inl (n, refl)
raw-cases (live a) = inr (a, refl)

-- What the loads find.
pub load_account-ok :
    (k : ℕ) (c c' : Chain) (a : CoordinatorAccount)
    → load_account k c ≡ ok a c'
    → (find_key k c.accounts ≡ some (live a)) × (c' ≡ c)
unfolding load_account
load_account-ok k c c' a h = ground arith

pub load_linked-ok :
    (i : CoordinatorInstance) (k : ℕ) (c c' : Chain) (a : CoordinatorAccount)
    → load_linked i k c ≡ ok a c'
    → (i.coordinator_account ≡ k)
      × (find_key k c.accounts ≡ some (live a))
      × (a.version ≡ version_now)
      × (c' ≡ c)
unfolding load_linked load_account
load_linked-ok i k c c' a h = ground arith

pub load_instance-ok :
    ⦃platform : Platform⦄ (ik : ℕ) (c c' : Chain) (i : CoordinatorInstance)
    → load_instance ik c ≡ ok i c'
    → (find_key ik c.instances ≡ some i) × (c' ≡ c)
unfolding load_instance
load_instance-ok ik c c' i h = ground arith

pub with_nonce-ok :
    (k : ℕ) (a : CoordinatorAccount) (m : Instance (Unit {0})) (c c' : Chain)
    → with_nonce k a m c ≡ ok tt c'
    → (s : CoordinatorInstanceState) × (m a.state ≡ ok tt s)
      × (c' ≡ store k (record { version = a.version; state = s; nonce = a.nonce + 1 }) c)
unfolding with_nonce run_method
with_nonce-ok k a m c c' h = elim (Outcome-cases (m a.state)) [
  | inl (u, s, e) ↦ (s, e, ground arith)
  | inr (inl (x, s, e)) ↦ absurd (ground arith)
  | inr (inr e) ↦ absurd (ground arith)
]

pub by_owner-ok :
    ⦃platform : Platform⦄ (signer ik k : ℕ) (body : CoordinatorAccount → Handler) (c c' : Chain)
    → by_owner signer ik k body c ≡ ok tt c'
    → (i : CoordinatorInstance) × (a : CoordinatorAccount) × Linked c ik k i a
      × (i.main_authority ≡ signer)
      × (a.version ≡ version_now)
      × (body a c ≡ ok tt c')
unfolding by_owner
by_owner-ok signer ik k body c c' h =
    let (i, c1, found, rest) = bind-eq-ok (load_instance ik c) _ h in
    let (owner, rest') =
      fail_if-eq-ok (not (i.main_authority == signer)) constraint_violated c1
        (λ _. load_linked i k >>= body) rest in
    let (a, c2, linked, done) = bind-eq-ok (load_linked i k c1) body rest' in
    let one = load_instance-ok ik c c1 i found in
    let two = load_linked-ok i k c1 c2 a linked in
    (
      i,
      a,
      record { instance_found = one.0; account_found = rw one.1 at two.1; account_named = two.0 },
      (==_iff _ _).0 (ground arith),
      two.2,
      rw (two.3 ∙ one.1) at done,
    )

pub by_anyone-ok :
    ⦃platform : Platform⦄ (ik k : ℕ) (body : CoordinatorAccount → Handler) (c c' : Chain)
    → by_anyone ik k body c ≡ ok tt c'
    → (i : CoordinatorInstance) × (a : CoordinatorAccount) × Linked c ik k i a
      × (a.version ≡ version_now)
      × (body a c ≡ ok tt c')
unfolding by_anyone
by_anyone-ok ik k body c c' h =
    let (i, c1, found, rest) = bind-eq-ok (load_instance ik c) _ h in
    let (a, c2, linked, done) = bind-eq-ok (load_linked i k c1) body rest in
    let one = load_instance-ok ik c c1 i found in
    let two = load_linked-ok i k c1 c2 a linked in
    (
      i,
      a,
      record { instance_found = one.0; account_found = rw one.1 at two.1; account_named = two.0 },
      two.2,
      rw (two.3 ∙ one.1) at done,
    )

-- Only a member gets past the look-up of the sender.
pub sender-IsMember :
    (signer : ℕ) (a : CoordinatorAccount) (rest : ClientId → Instance (Unit {0}))
    {t : CoordinatorInstanceState}
    → bind (sender signer a.state) rest ≡ ok tt t
    → IsMember signer a
unfolding sender
sender-IsMember signer a rest h = elim (Option-cases (find_signer signer a.state.clients_state)) [
  | inl missing ↦ absurd (ground arith)
  | inr found ↦ found
]
