-- ===== src/Solana/Examples/Claims.antt =====
-- Examples for the treasurer.
use psyche.Base.{ℕ, ◌≡◌, ◌+◌, ◌-◌, refl, some, none, List, [], ◌∷◌, leb, if◌then◌else◌, ok, arith}
use psyche.Solana.ClientsState.{Client, find}
use psyche.Solana.Treasurer.{
  Token, Treasury, Holder, holder_of, put, earned_points, participant_claim,
}
use psyche.Solana.Treasurer.Books.{Moves, Books, claimed, participant_claim-Books, reward-Books}
use psyche.Solana.Examples.{joined, rates, two_trained, three_members, three_members-reward}

instance plain_token : Token
plain_token = record {
  transfer = λ from to amount. if leb amount from then some (from - amount, to + amount) else none;
}

plain_token-Moves : Moves plain_token
unfolding plain_token
plain_token-Moves = record { moves = λ from to amount r h. ground arith }

abbrev holder : ℕ → ℕ → ℕ → Holder
holder user points collateral = record {
  user = user;
  participant = record { claimed_collateral_amount = points; claimed_earned_points = points };
  user_collateral = collateral;
}

abbrev after_epoch : List Client
after_epoch = joined 1 5 ∷ joined 2 7 ∷ joined 3 5 ∷ []

abbrev treasury : ℕ → ℕ → List Holder → Treasury
treasury total collateral holders = record {
  run = record {
    index = 0;
    main_authority = 1;
    join_authority = 2;
    coordinator_account = 3;
    coordinator_instance = 4;
    collateral_mint = 5;
    total_claimed_collateral_amount = total;
    total_claimed_earned_points = total;
  };
  run_collateral = collateral;
  holders = holders;
}

abbrev before : Treasury
before = treasury 4 100 (holder 1 0 0 ∷ holder 2 4 4 ∷ [])

abbrev later : Treasury
later = treasury 7 97 (holder 1 3 3 ∷ holder 2 4 4 ∷ [])

before-Books : Books three_members before
unfolding earned_points find
before-Books = record {
  points = refl;
  collateral = refl;
  covered = ((refl, omega arith), ((refl, omega arith), tt));
}

reward-Books_example : Books after_epoch before
reward-Books_example =
    reward-Books two_trained [] rates three_members after_epoch before three_members-reward
      before-Books

claims : participant_claim after_epoch 1 3 before ≡ ok tt later
unfolding participant_claim holder_of earned_points find plain_token put
claims = refl

participant_claim-Books_example :
    Books after_epoch later
    × (later.run_collateral + 3 ≡ 100)
    × ((h : Holder) × (holder_of 1 before.holders ≡ some h)
        × (holder_of 1 later.holders ≡ some (claimed 3 h)))
participant_claim-Books_example =
    participant_claim-Books after_epoch 1 3 before later plain_token-Moves reward-Books_example
      claims
