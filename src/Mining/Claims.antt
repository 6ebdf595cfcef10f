-- ===== src/Mining/Claims.antt =====
-- Whether a lender can have its share: lender_claim.rs and lender_deposit.rs of solana-mining-pool.
use native.Mathlib.Nat.{le-div_iff_mul-le, div-le_of_le-mul}
use psyche.Base.{
  ℕ, ◌+◌, ◌-◌, ◌*◌, ◌≤◌, ◌<◌, ◌≡◌, true, false, some, List, [], ◌∷◌, arith, ok, u64_mod,
}
use psyche.Base.Keys.{
  find_key, put_key, total_of, total_of-put_key, AllValues, AllValues-put_key, AllValues-find_key,
}
use psyche.Solana.Treasurer.{Token}
use psyche.Mining.{transferred, Lender, Mine, lender_claim, claimable}
use psyche.Mining.Books.{Tallies, deposited_of, claimed_of, claimed}

-- A transfer of what is there is not refused, when the receiver has room.
pub record Pays (token : Token) : Type 0 where
  pub pays :
      (from to amount : ℕ)
      → amount ≤ from
      → to + amount < u64_mod
      → token.transfer from to amount ≡ some (from - amount, to + amount)

-- The balance of the pool's account for what is repaid.
abbrev pub pool_redeemable : Mine → ℕ
pool_redeemable m = m.pool_tokens m.pool.redeemable_mint

-- What was repaid: what is there and what was claimed.
abbrev pub repayed : Mine → ℕ
repayed m = m.pool.total_claimed_redeemable_amount + pool_redeemable m

abbrev pub total_deposited : Mine → ℕ
total_deposited m = m.pool.total_deposited_collateral_amount

-- A lender has claimed no more than its share, as an inequality of products.
abbrev pub WithinShare : ℕ → ℕ → Lender → Type 0
WithinShare r d x = claimed_of x * d ≤ r * deposited_of x

-- Once claims are open nobody has more than its share.
abbrev pub Fair : Mine → Type 0
Fair m =
    m.pool.claiming_enabled ≡ true
    → AllValues (WithinShare (repayed m) (total_deposited m)) m.lenders

add_products : (a b c d e r : ℕ) → a * d ≤ r * b → c * d ≤ r * e → (a + c) * d ≤ r * (b + e)
add_products a b c d e r h k = grind arith

-- Together they have claimed no more than was repaid.
total-WithinShare :
    (r d : ℕ) (hs : List (ℕ × Lender))
    → AllValues (WithinShare r d) hs
    → total_of claimed_of hs * d ≤ r * total_of deposited_of hs
total-WithinShare r d [] h = omega arith
total-WithinShare r d ((k, x) ∷ hs) h =
    add_products (claimed_of x) (deposited_of x) (total_of claimed_of hs) d
      (total_of deposited_of hs) r h.0 (total-WithinShare r d hs h.1)

le_of_mul : (a b d : ℕ) → 0 < d → a * d ≤ b * d → a ≤ b
le_of_mul a b d pos h = grind arith

-- What a lender has left of its share is there.
covered :
    (m : Mine) (user amount : ℕ) (x : Lender)
    → Tallies m
    → AllValues (WithinShare (repayed m) (total_deposited m)) m.lenders
    → find_key user m.lenders ≡ some x
    → 0 < total_deposited m
    → claimed_of x + amount ≤ claimable (repayed m) (deposited_of x) (total_deposited m)
    → amount ≤ pool_redeemable m
covered m user amount x b fair found pos within =
    let r = repayed m in
    let d = total_deposited m in
    let y = claimed amount x in
    let products : claimed_of y * d ≤ r * deposited_of y = (le-div_iff_mul-le pos).0 within in
    let all = AllValues-put_key (WithinShare r d) user y m.lenders products fair in
    let sums = total-WithinShare r d (put_key user y m.lenders) all in
    let dep = total_of-put_key deposited_of user y x m.lenders found in
    let cl = total_of-put_key claimed_of user y x m.lenders found in
    let same : total_of deposited_of (put_key user y m.lenders) ≡ d = omega (arith, b.deposits) in
    let le = le_of_mul (total_of claimed_of (put_key user y m.lenders)) r d pos (rw same at sums) in
    omega (arith, b.claims)

part_of_total :
    (user : ℕ) (x : Lender) (hs : List (ℕ × Lender))
    → find_key user hs ≡ some x
    → deposited_of x ≤ total_of deposited_of hs
unfolding find_key
part_of_total user x [] h = cc
part_of_total user x ((k, y) ∷ hs) h = ground (arith, part_of_total user x hs)

le_products : (r p d : ℕ) → p ≤ d → r * p ≤ d * r
le_products r p d h = grind arith

share-le : (r p d : ℕ) → 0 < d → p ≤ d → claimable r p d ≤ r
share-le r p d pos h = div-le_of_le-mul d (le_products r p d h)

-- When the token program pays what is there, and in a pool that is open to claims, not frozen, whose
-- totals are the sums over its lenders and where nobody has more than its share: a lender that claims what is left of its
-- share, at a size that the words can hold, gets it. The lender has then claimed its share, and what
-- was repaid and everyone's deposits are as before.
pub claim_all_left :
    ⦃token : Token⦄ (user : ℕ) (m : Mine) (x : Lender)
    → Pays token
    → Tallies m
    → Fair m
    → (m.pool.claiming_enabled ≡ true) × (m.pool.freeze ≡ false)
    → find_key user m.lenders ≡ some x
    → 0 < total_deposited m
    → m.user_tokens user m.pool.redeemable_mint + repayed m < u64_mod
    → let share = claimable (repayed m) (deposited_of x) (total_deposited m) in
      let amount = share - claimed_of x in
      let wallet = m.user_tokens user m.pool.redeemable_mint in
      lender_claim user m.pool.redeemable_mint amount m
      ≡ ok tt (
          transferred user m.pool.redeemable_mint
            (pool_redeemable m - amount)
            (wallet + amount)
            (record m {
              pool = record m.pool {
                total_claimed_redeemable_amount = m.pool.total_claimed_redeemable_amount + amount;
              };
              lenders = put_key user (claimed amount x) m.lenders;
            }))
unfolding lender_claim
claim_all_left user m x pay b fair flags found pos room =
    let all = fair flags.0 in
    let part = part_of_total user x m.lenders found in
    let small =
      share-le (repayed m) (deposited_of x) (total_deposited m) pos (omega (arith, b.deposits)) in
    let owed : claimed_of x ≤ claimable (repayed m) (deposited_of x) (total_deposited m) =
      (le-div_iff_mul-le pos).1 (
        AllValues-find_key (WithinShare (repayed m) (total_deposited m)) user x m.lenders found
          all) in
    let amount = claimable (repayed m) (deposited_of x) (total_deposited m) - claimed_of x in
    let there = covered m user amount x b all found pos (omega arith) in
    let moved =
      pay.pays (pool_redeemable m) (m.user_tokens user m.pool.redeemable_mint) amount there
        (omega arith) in
    ground arith
