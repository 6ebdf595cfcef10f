-- ===== src/Solana/Chain.antt =====
-- The accounts that the on-chain coordinator keeps, and how its instructions load them: lib.rs of
-- architectures/decentralized/solana-coordinator/programs/solana-coordinator/src. The chain is the
-- program's accounts under their addresses, with those of the authorizer, which it reads.
use psyche.Base.{
  ℕ, ◌+◌, Option, none, some, List, not, ◌==◌, Outcome, ok, err, panic, Method, pure, ok_or, gets,
  fail_if, checked, ◌>>=◌, ◌>>◌, u64_mod, take,
}
use psyche.Base.Keys.{find_key, put_key}
use psyche.Solana.Authorizer.{Authorizations}
use psyche.Solana.Instance.{ProgramError, CoordinatorInstanceState, Instance}

pub record CoordinatorAccount : Type 0 where
  pub version : ℕ
  pub state : CoordinatorInstanceState
  pub nonce : ℕ

-- `CoordinatorAccount::VERSION`
abbrev pub version_now : ℕ
version_now = 1

-- What stands under an address that the program owns: zeros, so many, or an account, behind the
-- discriminator.
pub data RawAccount : Type 0 where
  blank : ℕ → RawAccount
  live : CoordinatorAccount → RawAccount

pub record CoordinatorInstance : Type 0 where
  pub bump : ℕ
  pub main_authority : ℕ
  pub join_authority : ℕ
  pub coordinator_account : ℕ
  pub run_id : List ℕ

-- What the compiler and the Solana crates compute: the size of an account, the state that zeros
-- stand for, and the address of an instance with its bump.
pub record Platform : Type 0 where
  pub space_with_discriminator : ℕ
  pub zeroed : CoordinatorInstanceState
  pub find_coordinator_instance : List ℕ → ℕ
  pub instance_bump : List ℕ → ℕ

pub record Chain : Type 0 where
  pub instances : List (ℕ × CoordinatorInstance)
  pub accounts : List (ℕ × RawAccount)
  pub authorizations : Authorizations

-- The program's errors and those of Anchor.
pub data ChainError : Type 0 where
  program : ProgramError → ChainError
  constraint_violated account_missing account_in_use account_discriminator_already_set : ChainError

abbrev pub Handler : Type 0
Handler = Method ChainError Chain (Unit {0})

abbrev pub is_live : RawAccount → Option CoordinatorAccount
is_live (blank size) = none
is_live (live a) = some a

abbrev pub solana_max_string_len : ℕ
solana_max_string_len = 64

abbrev pub bytes_from_string : List ℕ → List ℕ
bytes_from_string s = take solana_max_string_len s

-- The instance of an instruction, whose address is the one of its run's id.
unfoldable pub load_instance :
    ⦃platform : Platform⦄ → ℕ → Method ChainError Chain CoordinatorInstance
load_instance ⦃platform⦄ key = do
  instance? ← gets λ c. find_key key c.instances
  i ← ok_or instance? account_missing
  fail_if (not (platform.find_coordinator_instance (bytes_from_string i.run_id) == key))
      constraint_violated
  pure i

-- `AccountLoader::load`: the discriminator is there.
unfoldable pub load_account : ℕ → Method ChainError Chain CoordinatorAccount
load_account key = do
  raw? ← gets λ c. find_key key c.accounts
  raw ← ok_or raw? account_missing
  ok_or (is_live raw) account_missing

-- The constraints on the coordinator account that all instructions but the first two share.
unfoldable pub load_linked : CoordinatorInstance → ℕ → Method ChainError Chain CoordinatorAccount
load_linked instance_of key = do
  fail_if (not (instance_of.coordinator_account == key)) constraint_violated
  account ← load_account key
  fail_if (not (account.version == version_now)) constraint_violated
  pure account

abbrev pub store : ℕ → CoordinatorAccount → Chain → Chain
store key account c = record c { accounts = put_key key (live account) c.accounts }

-- A method of the instance's state, run on the account.
unfoldable pub run_method : ℕ → CoordinatorAccount → Instance (Unit {0}) → Handler
run_method key account m c = elim (m account.state) [
  | ok _ state ↦ ok tt (store key (record account { state = state }) c)
  | err e state ↦ err (program e) c
  | panic ↦ Outcome.panic
]

-- `increment_nonce`, and the method
unfoldable pub with_nonce : ℕ → CoordinatorAccount → Instance (Unit {0}) → Handler
with_nonce key account m = do
  nonce ← checked u64_mod (account.nonce + 1)
  run_method key (record account { nonce = nonce }) m

-- An instruction on `OwnerCoordinatorAccounts`.
unfoldable pub by_owner :
    ⦃platform : Platform⦄ → ℕ → ℕ → ℕ → (CoordinatorAccount → Handler) → Handler
by_owner signer instance_key account_key body = do
  i ← load_instance instance_key
  fail_if (not (i.main_authority == signer)) constraint_violated
  account ← load_linked i account_key
  body account

-- An instruction on `PermissionlessCoordinatorAccounts`.
unfoldable pub by_anyone : ⦃platform : Platform⦄ → ℕ → ℕ → (CoordinatorAccount → Handler) → Handler
by_anyone instance_key account_key body = do
  i ← load_instance instance_key
  account ← load_linked i account_key
  body account
