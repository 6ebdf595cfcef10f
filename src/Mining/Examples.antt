-- ===== src/Mining/Examples.antt =====
-- Examples for the mining pool.
use psyche.Base.{
  ◌==◌, Outcome, err, panic, ℕ, ◌≡◌, ◌+◌, ◌-◌, refl, true, false, some, none, List, [], ◌∷◌, leb,
  ltb, ◌&&◌, if◌then◌else◌, ok, arith, u64_mod,
}
use psyche.Base.Keys.{find_key, put_key}
use psyche.Solana.Treasurer.{Token}
use psyche.Solana.Treasurer.Books.{Moves}
use psyche.Mining.{
  Lender, Mine, MiningError, updated, transferred, claim, lender_deposit, lender_claim, process,
}
use psyche.Mining.Books.{Books, Tallies, claimed, process-Books}
use psyche.Mining.Claims.{Pays, Fair, claim_all_left}
use psyche.Mining.Fairness.{process-Fair, late_deposit-not_Fair}

instance exact_token : Token
exact_token = record {
  transfer = λ from to amount.
      if leb amount from && ltb (to + amount) u64_mod
      then some (from - amount, to + amount)
      else none;
}

exact_token-Moves : Moves exact_token
unfolding exact_token
exact_token-Moves = record { moves = λ from to amount r h. ground arith }

exact_token-Pays : Pays exact_token
unfolding exact_token
exact_token-Pays = record { pays = λ from to amount h k. ground arith }

abbrev lends : ℕ → ℕ → Lender
lends deposited claimed = record {
  deposited_collateral_amount = deposited;
  claimed_redeemable_amount = claimed;
}

-- The wallets of two lenders.
abbrev wallets : ℕ → ℕ → ℕ
wallets user mint = if user == 1 && mint == 2 then 10 else if user == 2 && mint == 1 then 500 else 0

-- The pool's accounts for the mints 1 and 2.
abbrev both : ℕ → ℕ → ℕ → ℕ
both collateral redeemable mint =
    if mint == 1 then collateral else if mint == 2 then redeemable else 0

-- A pool of 300 with the amount claimed and the mint of the claims given, of which 60 were extracted.
abbrev mine : ℕ → ℕ → ℕ → List (ℕ × Lender) → Mine
mine mint claimed redeemable lenders = record {
  pool = record {
    index = 0;
    authority = 9;
    collateral_mint = 1;
    max_deposit_collateral_amount = 1000;
    total_deposited_collateral_amount = 300;
    total_extracted_collateral_amount = 60;
    claiming_enabled = true;
    redeemable_mint = mint;
    total_claimed_redeemable_amount = claimed;
    freeze = false;
    metadata = record { length = 0; bytes = [] };
  };
  pool_tokens = both 240 redeemable;
  user_tokens = wallets;
  lenders = lenders;
}

-- 150 were repaid to two lenders, one of which has claimed 10 of its 50.
abbrev repaid : Mine
repaid = mine 2 10 140 ((1, lends 100 10) ∷ (2, lends 200 0) ∷ [])

abbrev left_by : Outcome MiningError Mine (Unit {0}) → Mine → Mine
left_by (ok a m) d = m
left_by (err e m) d = d
left_by panic d = d

abbrev after_claim : Mine
after_claim = left_by (process (claim 1 2 40) repaid) repaid

repaid-Tallies : Tallies repaid
repaid-Tallies = record { deposits = refl; claims = refl; closed = λ h. cc }

repaid-Books : Books repaid
repaid-Books = record { tallies = repaid-Tallies; backed = omega arith }

repaid-Fair : Fair repaid
repaid-Fair h = omega arith

claims : process (claim 1 2 40) repaid ≡ ok tt after_claim
unfolding process lender_claim find_key put_key updated exact_token
claims = refl

process-Books_example : Books after_claim
process-Books_example =
    process-Books (claim 1 2 40) repaid after_claim exact_token-Moves claims repaid-Books

claim_all_left_example :
    lender_claim 1 2 40 repaid
    ≡ ok tt (
        transferred 1 2 100 50 (record repaid {
          pool = record repaid.pool { total_claimed_redeemable_amount = 50 };
          lenders = put_key 1 (claimed 40 (lends 100 10)) repaid.lenders;
        }))
unfolding find_key
claim_all_left_example =
    claim_all_left 1 repaid (lends 100 10) exact_token-Pays repaid-Tallies repaid-Fair (refl, refl)
      refl (omega arith) (omega arith)

process-Fair_example :
    ((repayment : ℕ)
      → Fair (record repaid { pool_tokens = updated 2 (140 + repayment) repaid.pool_tokens }))
    × (Unit {0} → process (claim 1 2 40) repaid ≡ ok tt after_claim → Fair after_claim)
process-Fair_example =
    process-Fair (claim 1 2 40) repaid after_claim exact_token-Moves repaid-Books
      (λ h e. omega arith) repaid-Fair

-- The first lender has claimed its 50 of 150.
abbrev claimed_out : Mine
claimed_out = mine 2 50 100 ((1, lends 100 50) ∷ (2, lends 200 0) ∷ [])

abbrev after_deposit : Mine
after_deposit = left_by (lender_deposit 2 100 claimed_out) claimed_out

deposits : lender_deposit 2 100 claimed_out ≡ ok tt after_deposit
unfolding lender_deposit find_key put_key updated exact_token
deposits = refl

late_deposit-not_Fair_example : ¬ Fair after_deposit
unfolding find_key
late_deposit-not_Fair_example =
    late_deposit-not_Fair 2 1 100 claimed_out after_deposit (lends 100 50) deposits
      (λ h e. omega arith) refl (omega arith) (λ e. omega arith) refl refl (omega arith)
