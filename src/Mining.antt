-- ===== src/Mining.antt =====
-- architectures/decentralized/solana-mining-pool/programs/solana-mining-pool/src: lenders deposit
-- collateral into a pool, its authority extracts it, and later they claim shares of what was repaid.
-- The state is that of one pool: its account, its token accounts, those of the users, its authority
-- among them, and the accounts of its lenders. The pool has one token account for each mint, the
-- associated one, so that its collateral and its redeemable account are one if the two mints are the
-- same; a user is taken to use one token account for each mint too. A token account that was never
-- used is empty. The derivation of addresses is left out.
pub mod Books
pub mod Claims
pub mod Fairness
pub mod Examples
use psyche.Base.{
  ◌≡◌, ◌≢◌, arith, ℕ, ◌+◌, ◌*◌, ◌/◌, Bool, true, false, Option, none, some, List, [], ◌∷◌, not,
  ◌==◌, ltb, if◌then◌else◌, Outcome, ok, err, panic, Method, pure, ok_or, gets, modify, fail_if,
  checked, ◌>>=◌, ◌>>◌, u64_mod,
}
use psyche.Base.Keys.{find_key, put_key}
use psyche.Solana.Treasurer.{Token}

-- The program's errors, and those of Anchor and of the token program.
pub data MiningError : Type 0 where
  collateral_amount_is_too_large redeemable_amount_is_too_large metadata_length_is_too_large
        claiming_enabled_is_true claiming_enabled_is_false freeze_is_true
        total_deposited_collateral_amount_is_zero constraint_violated account_missing account_in_use
        transfer_refused :
      MiningError

pub record PoolMetadata : Type 0 where
  pub length : ℕ
  pub bytes : List ℕ

-- `PoolMetadata::BYTES`
abbrev pub metadata_bytes : ℕ
metadata_bytes = 400

pub record Pool : Type 0 where
  pub index : ℕ
  pub authority : ℕ
  pub collateral_mint : ℕ
  pub max_deposit_collateral_amount : ℕ
  pub total_deposited_collateral_amount : ℕ
  pub total_extracted_collateral_amount : ℕ
  pub claiming_enabled : Bool
  pub redeemable_mint : ℕ
  pub total_claimed_redeemable_amount : ℕ
  pub freeze : Bool
  pub metadata : PoolMetadata

pub record Lender : Type 0 where
  pub deposited_collateral_amount : ℕ
  pub claimed_redeemable_amount : ℕ

pub record Mine : Type 0 where
  pub pool : Pool
  -- of the pool, by mint
  pub pool_tokens : ℕ → ℕ
  -- of a user, by mint
  pub user_tokens : ℕ → ℕ → ℕ
  pub lenders : List (ℕ × Lender)

-- One entry of a function is changed.
unfoldable pub updated : {A : Type 0} → ℕ → A → (ℕ → A) → ℕ → A
updated k a f j = if k == j then a else f j

pub updated_self : {A : Type 0} (k : ℕ) (a : A) (f : ℕ → A) → updated k a f k ≡ a
unfolding updated
updated_self k a f = ground arith

pub updated_other : {A : Type 0} (k j : ℕ) (a : A) (f : ℕ → A) → k ≢ j → updated k a f j ≡ f j
unfolding updated
updated_other k j a f ne = ground (arith, ne)

-- The pool's and the user's account for a mint have these balances.
abbrev pub transferred : ℕ → ℕ → ℕ → ℕ → Mine → Mine
transferred user mint in_pool in_wallet m = record m {
  pool_tokens = updated mint in_pool m.pool_tokens;
  user_tokens = updated user (updated mint in_wallet (m.user_tokens user)) m.user_tokens;
}

abbrev pub Handler : Type 0
Handler = Method MiningError Mine (Unit {0})

-- `pool_create_processor`, beside the token accounts that there are; `none` is
-- `ParamsMetadataLengthIsTooLarge`.
unfoldable pub pool_create : ℕ → ℕ → ℕ → PoolMetadata → (ℕ → ℕ) → (ℕ → ℕ → ℕ) → Option Mine
pool_create index authority collateral_mint metadata pool_tokens user_tokens =
    if ltb metadata_bytes metadata.length
    then none
    else some (record {
      pool = record {
        index = index;
        authority = authority;
        collateral_mint = collateral_mint;
        max_deposit_collateral_amount = 0;
        total_deposited_collateral_amount = 0;
        total_extracted_collateral_amount = 0;
        claiming_enabled = false;
        redeemable_mint = 0;
        total_claimed_redeemable_amount = 0;
        freeze = false;
        metadata = metadata;
      };
      pool_tokens = pool_tokens;
      user_tokens = user_tokens;
      lenders = [];
    })

abbrev or_else : {A : Type 0} → Option A → A → A
or_else none b = b
or_else (some a) b = a

abbrev too_long : Option PoolMetadata → Bool
too_long none = false
too_long (some metadata) = ltb metadata_bytes metadata.length

-- `constraint = pool.authority == authority.key()`
abbrev by_authority : ℕ → Handler
by_authority signer = do
  authority ← gets λ m. m.pool.authority
  fail_if (not (authority == signer)) constraint_violated

abbrev unless_frozen : Handler
unless_frozen = do frozen ← gets λ m. m.pool.freeze; fail_if frozen freeze_is_true

unfoldable pub pool_update : ℕ → Option ℕ → Option Bool → Option PoolMetadata → Handler
pool_update signer max_deposit freeze metadata = do
  by_authority signer
  modify λ m. record m {
    pool = record m.pool {
      max_deposit_collateral_amount = or_else max_deposit m.pool.max_deposit_collateral_amount;
      freeze = or_else freeze m.pool.freeze;
    };
  }
  fail_if (too_long metadata) metadata_length_is_too_large
  modify λ m. record m { pool = record m.pool { metadata = or_else metadata m.pool.metadata } }

unfoldable pub pool_claimable : ℕ → ℕ → Handler
pool_claimable signer mint = do
  by_authority signer
  unless_frozen
  enabled ← gets λ m. m.pool.claiming_enabled
  fail_if enabled claiming_enabled_is_true
  modify λ m. record m {
    pool = record m.pool {
      claiming_enabled = true;
      redeemable_mint = mint;
      total_claimed_redeemable_amount = 0;
    };
  }

abbrev pub newcomer : Lender
newcomer = record { deposited_collateral_amount = 0; claimed_redeemable_amount = 0 }

unfoldable pub lender_create : ℕ → Handler
lender_create user m = elim (find_key user m.lenders) [
  | some l ↦ err account_in_use m
  | none ↦ ok tt (record m { lenders = put_key user newcomer m.lenders })
]

-- What a lender may claim in all: its share of what was repaid.
abbrev pub claimable : ℕ → ℕ → ℕ → ℕ
claimable repayed deposited total_deposited = repayed * deposited / total_deposited

pub data Instruction : Type 0 where
  update : ℕ → Option ℕ → Option Bool → Option PoolMetadata → Instruction
  open_claims : ℕ → ℕ → Instruction
  new_lender : ℕ → Instruction
  extract : ℕ → ℕ → Instruction
  deposit : ℕ → ℕ → Instruction
  claim : ℕ → ℕ → ℕ → Instruction

module _ ⦃token : Token⦄ where
  unfoldable pub pool_extract : ℕ → ℕ → Handler
  pool_extract signer amount = do
    by_authority signer
    unless_frozen
    extracted? ← gets λ m. m.pool.total_extracted_collateral_amount + amount
    extracted ← checked u64_mod extracted?
    mint ← gets λ m. m.pool.collateral_mint
    moved? ← gets λ m. token.transfer (m.pool_tokens mint) (m.user_tokens signer mint) amount
    moved ← ok_or moved? transfer_refused
    modify λ m.
        transferred signer mint moved.0 moved.1
          (record m { pool = record m.pool { total_extracted_collateral_amount = extracted } })

  unfoldable pub lender_deposit : ℕ → ℕ → Handler
  lender_deposit user amount = do
    lender? ← gets λ m. find_key user m.lenders
    l ← ok_or lender? account_missing
    unless_frozen
    total? ← gets λ m. m.pool.total_deposited_collateral_amount + amount
    total ← checked u64_mod total?
    limit ← gets λ m. m.pool.max_deposit_collateral_amount
    fail_if (ltb limit total) collateral_amount_is_too_large
    mint ← gets λ m. m.pool.collateral_mint
    moved? ← gets λ m. token.transfer (m.user_tokens user mint) (m.pool_tokens mint) amount
    moved ← ok_or moved? transfer_refused
    deposited ← checked u64_mod (l.deposited_collateral_amount + amount)
    modify λ m. transferred user mint moved.1 moved.0 (record m {
      pool = record m.pool { total_deposited_collateral_amount = total };
      lenders = put_key user (record l { deposited_collateral_amount = deposited }) m.lenders;
    })

  -- The product of two `u64` fits the `u128` in which it is taken.
  unfoldable pub lender_claim : ℕ → ℕ → ℕ → Handler
  lender_claim user mint amount = do
    redeemable_mint ← gets λ m. m.pool.redeemable_mint
    fail_if (not (redeemable_mint == mint)) constraint_violated
    lender? ← gets λ m. find_key user m.lenders
    l ← ok_or lender? account_missing
    unless_frozen
    enabled ← gets λ m. m.pool.claiming_enabled
    fail_if (not enabled) claiming_enabled_is_false
    deposited ← gets λ m. m.pool.total_deposited_collateral_amount
    fail_if (deposited == 0) total_deposited_collateral_amount_is_zero
    repayed? ← gets λ m. m.pool.total_claimed_redeemable_amount + m.pool_tokens mint
    repayed ← checked u64_mod repayed?
    share ← checked u64_mod (claimable repayed l.deposited_collateral_amount deposited)
    claimed ← checked u64_mod (l.claimed_redeemable_amount + amount)
    fail_if (ltb share claimed) redeemable_amount_is_too_large
    total? ← gets λ m. m.pool.total_claimed_redeemable_amount + amount
    total ← checked u64_mod total?
    moved? ← gets λ m. token.transfer (m.pool_tokens mint) (m.user_tokens user mint) amount
    moved ← ok_or moved? transfer_refused
    modify λ m. transferred user mint moved.0 moved.1 (record m {
      pool = record m.pool { total_claimed_redeemable_amount = total };
      lenders = put_key user (record l { claimed_redeemable_amount = claimed }) m.lenders;
    })

  unfoldable pub process : Instruction → Handler
  process (update signer max_deposit freeze metadata) =
      pool_update signer max_deposit freeze metadata
  process (open_claims signer mint) = pool_claimable signer mint
  process (new_lender user) = lender_create user
  process (extract signer amount) = pool_extract signer amount
  process (deposit user amount) = lender_deposit user amount
  process (claim user mint amount) = lender_claim user mint amount
