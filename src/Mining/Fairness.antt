-- ===== src/Mining/Fairness.antt =====
-- Who stays within its share of a pool: the processors of solana-mining-pool.
use native.Mathlib.Nat.{le-div_iff_mul-le}
use psyche.Base.{
  sym, ap, ◌∙◌, ℕ, ◌+◌, ◌*◌, ◌≤◌, ◌<◌, ◌≡◌, ◌≢◌, true, false, some, List, [], ◌∷◌, inl, inr, arith,
  ok, Option-cases,
}
use psyche.Base.Keys.{
  find_key, put_key, find_key-put_key, total_of, AllValues, AllValues-put_key, AllValues-find_key,
  AllValues-map,
}
use psyche.Solana.Treasurer.{Token}
use psyche.Solana.Treasurer.Books.{Moves}
use psyche.Mining.{
  updated, updated_self, updated_other, Lender, Mine, Instruction, update, open_claims, new_lender,
  extract, deposit, claim, newcomer, pool_update, pool_claimable, lender_create, pool_extract,
  lender_deposit, lender_claim, process, claimable,
}
use psyche.Mining.Books.{pool_collateral, Books, deposited_of, claimed_of, deposited, claimed}
use psyche.Mining.Claims.{pool_redeemable, repayed, total_deposited, WithinShare, Fair}

-- Once claims are open, they are not for the collateral.
abbrev pub ApartMints : Mine → Type 0
ApartMints m = m.pool.claiming_enabled ≡ true → m.pool.redeemable_mint ≢ m.pool.collateral_mint

Fair-same :
    (m m' : Mine)
    → m'.lenders ≡ m.lenders
    → (repayed m' ≡ repayed m) × (total_deposited m' ≡ total_deposited m)
    → m'.pool.claiming_enabled ≡ m.pool.claiming_enabled
    → Fair m
    → Fair m'
Fair-same m m' lenders (r, d) enabled fair open_now =
    rw (lenders, r, d) (fair (rw enabled at open_now))

Fair-none :
    (r d : ℕ) (hs : List (ℕ × Lender)) → total_of claimed_of hs ≡ 0 → AllValues (WithinShare r d) hs
Fair-none r d [] h = tt
Fair-none r d ((k, x) ∷ hs) h =
    let nothing : claimed_of x ≡ 0 = omega arith in
    (rw nothing (omega arith), Fair-none r d hs (omega arith))

claim-Fair :
    ⦃token : Token⦄ (m m' : Mine) (user mint amount : ℕ)
    → Moves token
    → lender_claim user mint amount m ≡ ok tt m'
    → Fair m
    → Fair m'
unfolding lender_claim
claim-Fair ⦃token⦄ m m' user mint amount moving h fair open_now =
    elim (Option-cases (find_key user m.lenders)) [
      | inl missing ↦ absurd (ground arith)
      | inr (x, found) ↦
          elim (Option-cases
            (token.transfer (m.pool_tokens mint) (m.user_tokens user mint) amount)) [
              | inl refused ↦ absurd (ground arith)
              | inr (r, moved) ↦
                  let law =
                    moving.moves (m.pool_tokens mint) (m.user_tokens user mint) amount r moved in
                  let y = claimed amount x in
                  let lenders : m'.lenders ≡ put_key user y m.lenders = ground arith in
                  let is : m.pool.redeemable_mint ≡ mint = ground arith in
                  let left : pool_redeemable m' ≡ r.0 =
                    ground (arith, updated_self mint r.0 m.pool_tokens) in
                  let before : pool_redeemable m ≡ m.pool_tokens mint = ap m.pool_tokens is in
                  let repaid : repayed m' ≡ repayed m = ground arith in
                  let whole : total_deposited m' ≡ total_deposited m = ground arith in
                  let pos : 0 < total_deposited m = ground arith in
                  let within : claimed_of x + amount
                      ≤ claimable (repayed m) (deposited_of x) (total_deposited m) =
                    ground arith in
                  rw (lenders, repaid, whole)
                    (AllValues-put_key (WithinShare (repayed m) (total_deposited m)) user y
                      m.lenders ((le-div_iff_mul-le pos).0 within) (fair (ground arith)))
            ]
    ]

extract-repayed :
    ⦃token : Token⦄ (m m' : Mine) (signer amount : ℕ)
    → pool_extract signer amount m ≡ ok tt m'
    → m.pool.redeemable_mint ≢ m.pool.collateral_mint
    → (repayed m' ≡ repayed m) × (m'.lenders ≡ m.lenders) × (total_deposited m' ≡ total_deposited m)
unfolding pool_extract
extract-repayed ⦃token⦄ m m' signer amount h apart =
    let mint = m.pool.collateral_mint in
    elim (Option-cases (token.transfer (pool_collateral m) (m.user_tokens signer mint) amount)) [
      | inl refused ↦ absurd (ground arith)
      | inr (r, moved) ↦
          let other : mint ≢ m.pool.redeemable_mint = λ e. apart (sym e) in
          let same = updated_other mint m.pool.redeemable_mint r.0 m.pool_tokens other in
          (ground (arith, same), ground arith, ground arith)
    ]

-- The deposit of an instruction, if it is one, comes before claims are open.
abbrev pub InTime : Instruction → Mine → Type 0
InTime (deposit user amount) m = m.pool.claiming_enabled ≡ false
InTime _ m = Unit

more_repaid : (c p d r r' : ℕ) → c * d ≤ r * p → r ≤ r' → c * d ≤ r' * p
more_repaid c p d r r' h k = grind arith

process-InTime :
    ⦃token : Token⦄ (i : Instruction) (m m' : Mine)
    → Moves token
    → Books m
    → ApartMints m
    → Fair m
    → InTime i m
    → process i m ≡ ok tt m'
    → Fair m'
unfolding process pool_update pool_claimable lender_create pool_extract lender_deposit
process-InTime (update signer max_deposit freeze metadata) m m' moving b apart fair t h open_now =
    Fair-same m m' (ground arith) (ground arith, ground arith) (ground arith) fair open_now
process-InTime (open_claims signer mint) m m' moving b apart fair t h open_now =
    let lenders : m'.lenders ≡ m.lenders = ground arith in
    let none_yet : total_of claimed_of m.lenders ≡ 0 = ground (arith, b.tallies) in
    rw lenders (Fair-none (repayed m') (total_deposited m') m.lenders none_yet)
process-InTime (new_lender user) m m' moving b apart fair t h open_now =
    let lenders : m'.lenders ≡ put_key user newcomer m.lenders = ground arith in
    let rest : (repayed m' ≡ repayed m) × (total_deposited m' ≡ total_deposited m) =
      (ground arith, ground arith) in
    rw (lenders, rest.0, rest.1)
      (AllValues-put_key (WithinShare (repayed m) (total_deposited m)) user newcomer m.lenders
        (omega arith) (fair (ground arith)))
process-InTime (extract signer amount) m m' moving b apart fair t h open_now =
    let flag : m'.pool.claiming_enabled ≡ m.pool.claiming_enabled = ground arith in
    let (repaid, lenders, whole) =
      extract-repayed m m' signer amount h (apart (sym flag ∙ open_now)) in
    Fair-same m m' lenders (repaid, whole) flag fair open_now
process-InTime (deposit user amount) m m' moving b apart fair t h open_now = absurd (ground arith)
process-InTime (claim user mint amount) m m' moving b apart fair t h open_now =
    claim-Fair m m' user mint amount moving h fair open_now

-- When the token program moves what it is asked to, the books balance, and claims, once open, are not
-- for the mint of the collateral (the program does not refuse that mint): every instruction that succeeds leaves everyone within
-- its share, unless it is a deposit after claims were opened. So does a repayment, whatever its size.
pub process-Fair :
    ⦃token : Token⦄ (i : Instruction) (m m' : Mine)
    → Moves token
    → Books m
    → ApartMints m
    → Fair m
    → ((repayment : ℕ)
        → Fair (record m {
          pool_tokens =
              updated m.pool.redeemable_mint (pool_redeemable m + repayment) m.pool_tokens;
        }))
      × (InTime i m → process i m ≡ ok tt m' → Fair m')
unfolding process
process-Fair i m m' moving b apart fair = (
  (λ repayment open_now.
      let more =
        updated_self m.pool.redeemable_mint (pool_redeemable m + repayment) m.pool_tokens in
      AllValues-map (WithinShare (repayed m) (total_deposited m)) _
        (λ x h.
          more_repaid (claimed_of x) (deposited_of x) (total_deposited m) _ _ h
            (omega (arith, more)))
        m.lenders (fair open_now)),
  process-InTime i m m' moving b apart fair,
)

more_deposited :
    (c r p d amount : ℕ) → c * d ≡ r * p → 0 < c → 0 < amount → ¬ (c * (d + amount) ≤ r * p)
more_deposited c r p d amount h pos some_more k = grind arith

-- A deposit after claims were opened, which the program accepts, takes from the shares of the others:
-- when claims are not for the mint of the collateral, a lender other than the depositor that has
-- claimed exactly its share, and something, has then claimed more than its share.
pub late_deposit-not_Fair :
    ⦃token : Token⦄ (user other amount : ℕ) (m m' : Mine) (x : Lender)
    → lender_deposit user amount m ≡ ok tt m'
    → ApartMints m
    → m.pool.claiming_enabled ≡ true
    → 0 < amount
    → other ≢ user
    → find_key other m.lenders ≡ some x
    → claimed_of x * total_deposited m ≡ repayed m * deposited_of x
    → 0 < claimed_of x
    → ¬ Fair m'
unfolding lender_deposit
late_deposit-not_Fair ⦃token⦄ user other amount m m' x h apart open_now pos ne found exactly
      some_claimed fair =
    let mint = m.pool.collateral_mint in
    elim (Option-cases (find_key user m.lenders)) [
      | inl missing ↦ absurd (ground arith)
      | inr (z, depositor) ↦
          elim (Option-cases
            (token.transfer (m.user_tokens user mint) (pool_collateral m) amount)) [
              | inl refused ↦ absurd (ground arith)
              | inr (r, moved) ↦
                  let lenders : m'.lenders ≡ put_key user (deposited amount z) m.lenders =
                    ground arith in
                  let differs : mint ≢ m.pool.redeemable_mint = λ e. apart open_now (sym e) in
                  let same = updated_other mint m.pool.redeemable_mint r.1 m.pool_tokens differs in
                  let repaid : repayed m' ≡ repayed m = ground (arith, same) in
                  let whole : total_deposited m' ≡ total_deposited m + amount = ground arith in
                  let all = fair (ground arith) in
                  let kept : find_key other m'.lenders ≡ some x =
                    ground (arith, find_key-put_key user other (deposited amount z) m.lenders) in
                  let over =
                    AllValues-find_key (WithinShare (repayed m') (total_deposited m')) other x
                      m'.lenders kept all in
                  more_deposited (claimed_of x) (repayed m) (deposited_of x) (total_deposited m)
                    amount exactly some_claimed pos (rw (repaid, whole) at over)
            ]
    ]
