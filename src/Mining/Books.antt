-- ===== src/Mining/Books.antt =====
-- The books of a pool balance: the processors of solana-mining-pool.
use psyche.Base.{
  ◌&&◌, ◌==◌, if◌then◌else◌, Bool-cases, ◌≢◌, sym, ap, true, ℕ, ◌+◌, ◌≤◌, ◌≡◌, false, inl, inr,
  arith, ok, Option-cases,
}
use psyche.Base.Keys.{find_key, total_of, total_of-put_key, total_of-put_new}
use psyche.Solana.Treasurer.{Token}
use psyche.Solana.Treasurer.Books.{Moves}
use psyche.Mining.{
  Lender, Mine, updated_self, updated_other, Instruction, update, open_claims, new_lender, extract,
  deposit, claim, newcomer, pool_update, pool_claimable, lender_create, pool_extract,
  lender_deposit, lender_claim, process,
}

abbrev pub deposited_of : Lender → ℕ
deposited_of l = l.deposited_collateral_amount

abbrev pub claimed_of : Lender → ℕ
claimed_of l = l.claimed_redeemable_amount

-- The totals of the pool are the sums over its lenders, and nothing is claimed before claims are open.
pub record Tallies (m : Mine) : Type 0 where
  pub deposits : m.pool.total_deposited_collateral_amount ≡ total_of deposited_of m.lenders
  pub claims : m.pool.total_claimed_redeemable_amount ≡ total_of claimed_of m.lenders
  pub closed : m.pool.claiming_enabled ≡ false → total_of claimed_of m.lenders ≡ 0

-- The balance of the pool's account for the collateral.
abbrev pub pool_collateral : Mine → ℕ
pool_collateral m = m.pool_tokens m.pool.collateral_mint

-- What was claimed out of the collateral: the claims, if they are for its mint.
abbrev pub claimed_collateral : Mine → ℕ
claimed_collateral m =
    if m.pool.claiming_enabled && m.pool.redeemable_mint == m.pool.collateral_mint
    then m.pool.total_claimed_redeemable_amount
    else 0

-- What was deposited is still in the pool, was extracted, or was claimed.
abbrev pub Backed : Mine → Type 0
Backed m =
    m.pool.total_deposited_collateral_amount
    ≤ pool_collateral m + m.pool.total_extracted_collateral_amount + claimed_collateral m

pub record Books (m : Mine) : Type 0 where
  pub tallies : Tallies m
  pub backed : Backed m

-- A lender after a deposit and after a claim.
abbrev pub deposited : ℕ → Lender → Lender
deposited amount l = record l {
  deposited_collateral_amount = l.deposited_collateral_amount + amount;
}

abbrev pub claimed : ℕ → Lender → Lender
claimed amount l = record l { claimed_redeemable_amount = l.claimed_redeemable_amount + amount }

module _ ⦃token : Token⦄ (moving : Moves token) (m m' : Mine) where
  deposit-Books : (user amount : ℕ) → lender_deposit user amount m ≡ ok tt m' → Books m → Books m'
  unfolding lender_deposit
  deposit-Books user amount h b = elim (Option-cases (find_key user m.lenders)) [
    | inl missing ↦ absurd (ground arith)
    | inr (x, found) ↦
        let mint = m.pool.collateral_mint in
        elim (Option-cases (token.transfer (m.user_tokens user mint) (pool_collateral m) amount)) [
          | inl refused ↦ absurd (ground arith)
          | inr (r, moved) ↦ ground (
            arith,
            b.tallies,
            b.backed,
            moving.moves (m.user_tokens user mint) (pool_collateral m) amount r moved,
            updated_self mint r.1 m.pool_tokens,
            total_of-put_key deposited_of user (deposited amount x) x m.lenders,
            total_of-put_key claimed_of user (deposited amount x) x m.lenders,
          )
        ]
  ]

  claim-Backed :
      (user mint amount : ℕ) → lender_claim user mint amount m ≡ ok tt m' → Books m → Backed m'
  unfolding lender_claim
  claim-Backed user mint amount h b = elim (Option-cases (find_key user m.lenders)) [
    | inl missing ↦ absurd (ground arith)
    | inr (x, found) ↦
        elim (Option-cases (token.transfer (m.pool_tokens mint) (m.user_tokens user mint) amount)) [
          | inl refused ↦ absurd (ground arith)
          | inr (r, moved) ↦
              let open_now : m.pool.claiming_enabled ≡ true = ground arith in
              let for_it : m.pool.redeemable_mint ≡ mint = ground arith in
              elim (Bool-cases (mint == m.pool.collateral_mint)) [
                | inl same ↦
                    let is : mint ≡ m.pool.collateral_mint = ground (arith, same) in
                    let before : pool_collateral m ≡ m.pool_tokens mint =
                      ap m.pool_tokens (sym is) in
                    ground (
                      arith,
                      b.backed,
                      updated_self mint r.0 m.pool_tokens,
                      moving.moves (m.pool_tokens mint) (m.user_tokens user mint) amount r moved,
                    )
                | inr other ↦
                    let apart : mint ≢ m.pool.collateral_mint = λ e. ground (arith, other, e) in
                    ground (
                      arith,
                      b.backed,
                      updated_other mint m.pool.collateral_mint r.0 m.pool_tokens apart,
                    )
              ]
        ]
  ]

  claim-Books :
      (user mint amount : ℕ) → lender_claim user mint amount m ≡ ok tt m' → Books m → Books m'
  unfolding lender_claim
  claim-Books user mint amount h b = elim (Option-cases (find_key user m.lenders)) [
    | inl missing ↦ absurd (ground arith)
    | inr (x, found) ↦
        elim (Option-cases (token.transfer (m.pool_tokens mint) (m.user_tokens user mint) amount)) [
          | inl refused ↦ absurd (ground arith)
          | inr (r, moved) ↦ ground (
            arith,
            b.tallies,
            claim-Backed user mint amount h b,
            total_of-put_key deposited_of user (claimed amount x) x m.lenders,
            total_of-put_key claimed_of user (claimed amount x) x m.lenders,
          )
        ]
  ]

  extract-Books : (signer amount : ℕ) → pool_extract signer amount m ≡ ok tt m' → Books m → Books m'
  unfolding pool_extract
  extract-Books signer amount h b =
      let mint = m.pool.collateral_mint in
      elim (Option-cases (token.transfer (pool_collateral m) (m.user_tokens signer mint) amount)) [
        | inl refused ↦ absurd (ground arith)
        | inr (r, moved) ↦ ground (
          arith,
          b.tallies,
          b.backed,
          moving.moves (pool_collateral m) (m.user_tokens signer mint) amount r moved,
          updated_self mint r.0 m.pool_tokens,
        )
      ]

lender_create-Books :
    (m m' : Mine) (user : ℕ) → lender_create user m ≡ ok tt m' → Books m → Books m'
unfolding lender_create
lender_create-Books m m' user h b = elim (Option-cases (find_key user m.lenders)) [
  | inr (x, used) ↦ absurd (ground arith)
  | inl free ↦ ground (
    arith,
    b.tallies,
    b.backed,
    total_of-put_new deposited_of user newcomer m.lenders,
    total_of-put_new claimed_of user newcomer m.lenders,
  )
]

-- When the token program moves what it is asked to, every instruction that succeeds keeps the books
-- of a pool balanced: the totals are the sums over the lenders, nothing is claimed before claims are
-- open, and what was deposited is in the pool, was extracted, or was paid out to claims, which takes
-- from it only when claims are for the mint of the collateral itself.
pub process-Books :
    ⦃token : Token⦄ (i : Instruction) (m m' : Mine)
    → Moves token
    → process i m ≡ ok tt m'
    → Books m
    → Books m'
unfolding process pool_update pool_claimable
process-Books (update signer max_deposit freeze metadata) m m' moving h b =
    ground (arith, b.tallies, b.backed)
process-Books (open_claims signer mint) m m' moving h b =
    let shut : m.pool.claiming_enabled ≡ false = ground arith in
    let none_yet = b.tallies.closed shut in ground (arith, b.tallies, b.backed, shut, none_yet)
process-Books (new_lender user) m m' moving h b = lender_create-Books m m' user h b
process-Books (extract signer amount) m m' moving h b = extract-Books moving m m' signer amount h b
process-Books (deposit user amount) m m' moving h b = deposit-Books moving m m' user amount h b
process-Books (claim user mint amount) m m' moving h b =
    claim-Books moving m m' user mint amount h b
