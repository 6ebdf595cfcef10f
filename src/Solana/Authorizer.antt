-- ===== src/Solana/Authorizer.antt =====
-- architectures/decentralized/solana-authorizer/programs/solana-authorizer/src: grants that one key
-- gives to another for a scope. The state is the accounts of the program under their addresses; the
-- derivation of an address, which the Solana crates compute, is a parameter.
pub mod Grants
pub mod Closing
use psyche.Base.{
  ℕ, Bool, true, false, Option, none, some, List, [], ◌∷◌, ◌++◌, ◌&&◌, ◌||◌, not, ◌==◌,
  if◌then◌else◌, Outcome, ok, err, panic, Method, ok_or, gets, modify, fail_if, ◌>>=◌, ◌>>◌,
}
use psyche.Base.Int.{ℤ, ltb_ℤ, saturating_add}
use psyche.Base.Keys.{find_key, put_key, drop_key, same_bytes, contains}

-- `Pubkey::find_program_address` on the seeds of an authorization: its address and its bump
pub record Derivation : Type 0 where
  pub find_authorization : ℕ → ℕ → List ℕ → ℕ
  pub bump : ℕ → ℕ → List ℕ → ℕ

-- The program's two errors, and those of Anchor for the constraints on the accounts.
pub data AuthorizerError : Type 0 where
  authorization_active_is_true authorization_closing_conditions_not_reached_yet constraint_violated
        account_missing account_in_use :
      AuthorizerError

pub record Authorization : Type 0 where
  pub bump : ℕ
  pub grantor : ℕ
  pub grantee : ℕ
  pub scope : List ℕ
  pub active : Bool
  pub delegates : List ℕ
  pub grantor_update_unix_timestamp : ℤ

-- `Pubkey::default()`
abbrev pub default_key : ℕ
default_key = 0

unfoldable pub is_valid_for : Authorization → ℕ → ℕ → List ℕ → Bool
is_valid_for a grantor grantee scope =
    if not a.active
    then false
    else if not (a.grantor == grantor)
    then false
    else if not (same_bytes a.scope scope)
    then false
    else (a.grantee == default_key || a.grantee == grantee || contains a.delegates grantee)

abbrev pub Authorizations : Type 0
Authorizations = List (ℕ × Authorization)

abbrev pub Processor : Type 0
Processor = Method AuthorizerError Authorizations (Unit {0})

pub data Instruction : Type 0 where
  authorization_create : ℕ → List ℕ → Instruction
  authorization_grantor_update : Bool → Instruction
  authorization_grantee_update : Bool → List ℕ → Instruction
  authorization_close : Instruction

-- An instruction with the key that signs it as grantor or grantee, the address of the authorization
-- and the clock's timestamp.
pub record Transaction : Type 0 where
  pub signer : ℕ
  pub authorization : ℕ
  pub unix_timestamp : ℤ
  pub instruction : Instruction

-- The account is made at the derived address, which must be free. A new account is zeroed, so its
-- timestamp is 0.
unfoldable pub create : ⦃derivation : Derivation⦄ → ℕ → ℕ → ℕ → List ℕ → Processor
create ⦃derivation⦄ signer address grantee scope = do
  fail_if (not (derivation.find_authorization signer grantee scope == address)) constraint_violated
  in_use ← gets λ s. elim (find_key address s) [ none ↦ false | some _ ↦ true ]
  fail_if in_use account_in_use
  modify λ s.
      put_key address
        (record {
          bump = derivation.bump signer grantee scope;
          grantor = signer;
          grantee = grantee;
          scope = scope;
          active = false;
          delegates = [];
          grantor_update_unix_timestamp = ℤ.pos 0;
        })
        s

-- The account of an instruction that names it.
unfoldable pub load : ℕ → Method AuthorizerError Authorizations Authorization
load address = do a? ← gets λ s. find_key address s; ok_or a? account_missing

unfoldable pub grantor_update : ℕ → ℕ → ℤ → Bool → Processor
grantor_update signer address now active = do
  a ← load address
  fail_if (not (a.grantor == signer)) constraint_violated
  modify λ s. put_key address (record a { active = active; grantor_update_unix_timestamp = now }) s

unfoldable pub grantee_update : ℕ → ℕ → Bool → List ℕ → Processor
grantee_update signer address delegates_clear delegates_added = do
  a ← load address
  fail_if (not (a.grantee == signer)) constraint_violated
  modify λ s.
      put_key address
        (record a { delegates = (if delegates_clear then [] else a.delegates) ++ delegates_added })
        s

-- 30 days
abbrev pub closing_delay : ℕ
closing_delay = 2592000

abbrev pub is_empty : List ℕ → Bool
is_empty [] = true
is_empty (x ∷ xs) = false

-- The grantor's last update is too recent for the delegates.
unfoldable pub must_wait : Authorization → ℤ → Bool
must_wait a now =
    not (is_empty a.delegates)
    && ltb_ℤ now (saturating_add a.grantor_update_unix_timestamp closing_delay)

-- The account is gone once its processor returns.
unfoldable pub close : ℕ → ℕ → ℤ → Processor
close signer address now = do
  a ← load address
  fail_if (not (a.grantor == signer)) constraint_violated
  fail_if a.active authorization_active_is_true
  fail_if (must_wait a now) authorization_closing_conditions_not_reached_yet
  modify λ s. drop_key address s

unfoldable pub process : ⦃derivation : Derivation⦄ → ℕ → ℕ → ℤ → Instruction → Processor
process signer address now (authorization_create grantee scope) =
    create signer address grantee scope
process signer address now (authorization_grantor_update active) =
    grantor_update signer address now active
process signer address now (authorization_grantee_update clear added) =
    grantee_update signer address clear added
process signer address now authorization_close = close signer address now

-- What a transaction leaves: the chain keeps nothing of one that fails.
abbrev pub committed : {E S : Type 0} → S → Outcome E S (Unit {0}) → S
committed s (ok _ s') = s'
committed s (err e s') = s
committed s panic = s

unfoldable pub execute : ⦃derivation : Derivation⦄ → Transaction → Authorizations → Authorizations
execute t s = committed s (process t.signer t.authorization t.unix_timestamp t.instruction s)

unfoldable pub replay :
    ⦃derivation : Derivation⦄ → List Transaction → Authorizations → Authorizations
replay [] s = s
replay (t ∷ ts) s = replay ts (execute t s)
