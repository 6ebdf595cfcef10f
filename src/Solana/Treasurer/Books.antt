-- ===== src/Solana/Treasurer/Books.antt =====
-- The books of the treasurer balance: participant_claim.rs of solana-treasurer.
use psyche.Base.{
  ℕ, ◌+◌, ◌≤◌, ◌≡◌, refl, ap, none, some, List, [], ◌∷◌, ◌==◌, ok, err, arith, Option-cases,
  Bool-cases, inl, inr, sym, Returns, ◌++◌,
}
use psyche.Coordinator.Types
use psyche.Solana.ClientsState.{ClientId, Client, ClientsEpochRates, find}
use psyche.Solana.Instance.{reward}
use psyche.Solana.Methods.Rewards.{Grown, reward-Grown}
use psyche.Solana.Treasurer.{
  Token, Treasury, Holder, holder_of, put, earned_points, participant_claim, participant_create,
  account_in_use,
}

-- What a transfer that is not refused does.
pub record Moves (token : Token) : Type 0 where
  pub moves :
      (from to amount : ℕ) (r : ℕ × ℕ)
      → token.transfer from to amount ≡ some r
      → (r.0 + amount ≡ from) × (r.1 ≡ to + amount)

abbrev pub total : (Holder → ℕ) → List Holder → ℕ
total g [] = 0
total g (h ∷ hs) = g h + total g hs

abbrev pub points_of : Holder → ℕ
points_of h = h.participant.claimed_earned_points

abbrev pub collateral_of : Holder → ℕ
collateral_of h = h.participant.claimed_collateral_amount

-- Every participant has claimed as much collateral as points, and no more than it earned.
abbrev pub Covered : List Client → List Holder → Type 0
Covered clients [] = Unit
Covered clients (h ∷ hs) =
    ((collateral_of h ≡ points_of h) × (points_of h ≤ earned_points h.user clients))
    × Covered clients hs

-- The totals of the run are the sums over its participants, each of which is covered.
pub record Books (clients : List Client) (t : Treasury) : Type 0 where
  pub points : t.run.total_claimed_earned_points ≡ total points_of t.holders
  pub collateral : t.run.total_claimed_collateral_amount ≡ total collateral_of t.holders
  pub covered : Covered clients t.holders

total-put :
    (g : Holder → ℕ) (h h' : Holder) (hs : List Holder)
    → holder_of h'.user hs ≡ some h
    → total g (put h' hs) + g h ≡ total g hs + g h'
unfolding holder_of put
total-put g h h' [] e = cc
total-put g h h' (x ∷ hs) e = ground (arith, total-put g h h' hs)

Covered-put :
    (clients : List Client) (h' : Holder) (hs : List Holder)
    → (collateral_of h' ≡ points_of h') × (points_of h' ≤ earned_points h'.user clients)
    → Covered clients hs
    → Covered clients (put h' hs)
unfolding put
Covered-put clients h' [] k c = tt
Covered-put clients h' (x ∷ hs) k c = elim (Bool-cases (x.user == h'.user)) [
  | inl same ↦ rw same (k, c.1)
  | inr differs ↦ rw differs (c.0, Covered-put clients h' hs k c.1)
]

Covered-holder :
    (clients : List Client) (user : ℕ) (h : Holder) (hs : List Holder)
    → holder_of user hs ≡ some h
    → Covered clients hs
    → (h.user ≡ user) × (collateral_of h ≡ points_of h)
unfolding holder_of
Covered-holder clients user h [] e c = cc
Covered-holder clients user h (x ∷ hs) e c = ground (arith, Covered-holder clients user h hs)

holder_of-put :
    (h h' : Holder) (hs : List Holder)
    → holder_of h'.user hs ≡ some h
    → holder_of h'.user (put h' hs) ≡ some h'
unfolding holder_of put
holder_of-put h h' [] e = cc
holder_of-put h h' (x ∷ hs) e = ground (arith, holder_of-put h h' hs)

-- A user's accounts after a claim.
abbrev pub claimed : ℕ → Holder → Holder
claimed points h = record {
  user = h.user;
  participant = record {
    claimed_collateral_amount = h.participant.claimed_collateral_amount + points;
    claimed_earned_points = h.participant.claimed_earned_points + points;
  };
  user_collateral = h.user_collateral + points;
}

module _ ⦃token : Token⦄ where
  -- The new state of a claim that succeeds.
  participant_claim-ok :
      (clients : List Client) (user points : ℕ) (t t' : Treasury)
      → Moves token
      → participant_claim clients user points t ≡ ok tt t'
      → (h : Holder) × (holder_of user t.holders ≡ some h)
        × (points_of h + points ≤ earned_points user clients)
        × (t'.run_collateral + points ≡ t.run_collateral)
        × (t'.run.total_claimed_earned_points ≡ t.run.total_claimed_earned_points + points)
        × (t'.run.total_claimed_collateral_amount ≡ t.run.total_claimed_collateral_amount + points)
        × (t'.holders ≡ put (claimed points h) t.holders)
  unfolding participant_claim
  participant_claim-ok clients user points t t' m e =
      elim (Option-cases (holder_of user t.holders)) [
        | inl nobody ↦ ground arith
        | inr (h, found) ↦
            elim (Option-cases (token.transfer t.run_collateral h.user_collateral points)) [
              | inl refused ↦ ground arith
              | inr (r, moved) ↦
                  let law = m.moves t.run_collateral h.user_collateral points r moved in
                  (h, found, ground arith, ground arith, ground arith, ground arith, ground arith)
            ]
      ]

  -- When the token program moves what it is asked to and the books balance, a claim that succeeds
  -- keeps them balanced: the totals of the run are the sums over its participants, and nobody has
  -- claimed more than was earned. What the user gains is what the run's collateral loses.
  pub participant_claim-Books :
      (clients : List Client) (user points : ℕ) (t t' : Treasury)
      → Moves token
      → Books clients t
      → participant_claim clients user points t ≡ ok tt t'
      → Books clients t'
        × (t'.run_collateral + points ≡ t.run_collateral)
        × ((h : Holder) × (holder_of user t.holders ≡ some h)
            × (holder_of user t'.holders ≡ some (claimed points h)))
  participant_claim-Books clients user points t t' m b e =
      let (h, found, enough, paid, all_points, all_collateral, list) =
        participant_claim-ok clients user points t t' m e in
      let (is_user, even) = Covered-holder clients user h t.holders found b.covered in
      let at_user : holder_of (claimed points h).user t.holders ≡ some h = rw is_user found in
      (
        record {
          points = rw list (
              omega (
                arith,
                all_points,
                b.points,
                total-put points_of h (claimed points h) t.holders at_user,
              ));
          collateral = rw list (
              omega (
                arith,
                all_collateral,
                b.collateral,
                total-put collateral_of h (claimed points h) t.holders at_user,
              ));
          covered = rw list (
              Covered-put clients (claimed points h) t.holders
                (omega (arith, even), rw is_user enough) b.covered);
        },
        paid,
        (h, found, rw (list, sym is_user) (holder_of-put h (claimed points h) t.holders at_user)),
      )

total-snoc :
    (g : Holder → ℕ) (hs : List Holder) (h : Holder) → total g (hs ++ (h ∷ [])) ≡ total g hs + g h
total-snoc g [] h = omega arith
total-snoc g (x ∷ hs) h = omega (arith, total-snoc g hs h)

Covered-snoc :
    (clients : List Client) (hs : List Holder) (h : Holder)
    → Covered clients hs
    → (collateral_of h ≡ points_of h) × (points_of h ≤ earned_points h.user clients)
    → Covered clients (hs ++ (h ∷ []))
Covered-snoc clients [] h c k = (k, tt)
Covered-snoc clients (x ∷ hs) h c k = (c.0, Covered-snoc clients hs h c.1 k)

-- A participant that is created keeps the books balanced, and the run's account and collateral as
-- they were; a user that has one already is refused.
pub participant_create-Books :
    (clients : List Client) (user collateral : ℕ) (t : Treasury)
    → Books clients t
    → (holder_of user t.holders ≡ none
        → Returns
            (participant_create user collateral t)
            (λ _ t'. Books clients t' × (t'.run ≡ t.run) × (t'.run_collateral ≡ t.run_collateral)))
      × ((h : Holder)
          → holder_of user t.holders ≡ some h
          → participant_create user collateral t ≡ err account_in_use t)
unfolding participant_create
participant_create-Books clients user collateral t b = (λ new. created new, λ h e. ground arith)
  where
    fresh : Holder
    fresh = record {
      user = user;
      participant = record { claimed_collateral_amount = 0; claimed_earned_points = 0 };
      user_collateral = collateral;
    }

    created :
        holder_of user t.holders ≡ none
        → Returns
            (participant_create user collateral t)
            (λ _ t'. Books clients t' × (t'.run ≡ t.run) × (t'.run_collateral ≡ t.run_collateral))
    created new =
        let added : participant_create user collateral t
            ≡ ok tt (record t { holders = t.holders ++ (fresh ∷ []) }) =
          ground arith in
        rw added (
          record {
            points = omega (arith, b.points, total-snoc points_of t.holders fresh);
            collateral = omega (arith, b.collateral, total-snoc collateral_of t.holders fresh);
            covered = Covered-snoc clients t.holders fresh b.covered (refl, omega arith);
          },
          refl,
          refl,
        )

earned_points-Grown :
    (user : ℕ) (xs ys : List Client) → Grown xs ys → earned_points user xs ≤ earned_points user ys
unfolding earned_points find
earned_points-Grown user [] [] g = omega arith
earned_points-Grown user [] (y ∷ ys) g = absurd g
earned_points-Grown user (x ∷ xs) [] g = absurd g
earned_points-Grown user (x ∷ xs) (y ∷ ys) g =
    let same : y.id.signer ≡ x.id.signer = ap ClientId.signer g.0.0 in
    elim (Bool-cases (x.id.signer == user)) [
      | inl it ↦ ground (arith, g.0.1)
      | inr other ↦ ground (arith, earned_points-Grown user xs ys g.1)
    ]

Covered-Grown :
    (xs ys : List Client) (hs : List Holder) → Grown xs ys → Covered xs hs → Covered ys hs
Covered-Grown xs ys [] g c = tt
Covered-Grown xs ys (h ∷ hs) g c = (
  (c.0.0, omega (arith, c.0.1, earned_points-Grown h.user xs ys g)),
  Covered-Grown xs ys hs g c.1,
)

-- Where the books balance against what the clients have earned, they balance against what the
-- clients have earned once the end of an epoch is accounted for.
pub reward-Books :
    (finished exited : List (Types.Client ClientId)) (rates : ClientsEpochRates)
    (xs ys : List Client) (t : Treasury)
    → reward finished exited rates 0 0 xs ≡ some ys
    → Books xs t
    → Books ys t
reward-Books finished exited rates xs ys t h b = record {
  points = b.points;
  collateral = b.collateral;
  covered = Covered-Grown xs ys t.holders (reward-Grown finished exited rates xs ys h).1 b.covered;
}
