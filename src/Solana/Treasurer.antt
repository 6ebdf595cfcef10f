-- ===== src/Solana/Treasurer.antt =====
-- architectures/decentralized/solana-treasurer/programs/solana-treasurer/src: what the participants
-- of a run claim of what they earned. The state is that of one run: its account and its collateral,
-- and for each user the participant's account with the user's collateral. The token program is a
-- parameter, and the derivation of addresses is left out.
pub mod Books
use psyche.Base.{
  ℕ, ◌+◌, Bool, Option, none, some, List, [], ◌∷◌, ◌++◌, ◌==◌, ltb, if◌then◌else◌, Outcome, ok, err,
  Method, pure, ok_or, gets, modify, fail_if, checked, checked_sub, ◌>>=◌, ◌>>◌, u64_mod,
}
use psyche.Solana.ClientsState.{Client, find}

-- `transfer` of the token program: the two balances after an amount was moved, or its refusal
pub record Token : Type 0 where
  pub transfer : ℕ → ℕ → ℕ → Option (ℕ × ℕ)

-- The program's errors, Anchor's for an account that is missing or there already, and the token
-- program's.
pub data TreasurerError : Type 0 where
  invalid_parameter run_id_invalid_length account_missing account_in_use transfer_refused :
      TreasurerError

pub record Participant : Type 0 where
  pub claimed_collateral_amount : ℕ
  pub claimed_earned_points : ℕ

pub record Run : Type 0 where
  pub index : ℕ
  pub main_authority : ℕ
  pub join_authority : ℕ
  pub coordinator_account : ℕ
  pub coordinator_instance : ℕ
  pub collateral_mint : ℕ
  pub total_claimed_collateral_amount : ℕ
  pub total_claimed_earned_points : ℕ

-- A user's accounts.
pub record Holder : Type 0 where
  pub user : ℕ
  pub participant : Participant
  pub user_collateral : ℕ

pub record Treasury : Type 0 where
  pub run : Run
  pub run_collateral : ℕ
  pub holders : List Holder

unfoldable pub holder_of : ℕ → List Holder → Option Holder
holder_of user [] = none
holder_of user (h ∷ hs) = if h.user == user then some h else holder_of user hs

-- The write to the accounts of the holder's user.
unfoldable pub put : Holder → List Holder → List Holder
put h' [] = []
put h' (h ∷ hs) = if h.user == h'.user then h' ∷ hs else h ∷ put h' hs

-- The loop of `participant_claim` over the clients of the coordinator.
unfoldable pub earned_points : ℕ → List Client → ℕ
earned_points user clients = elim (find user clients) [ none ↦ 0 | some client ↦ client.earned ]

abbrev pub solana_run_id_max_len : ℕ
solana_run_id_max_len = 32

-- `run_create_processor`, given the length of the run's id; `none` is `RunIdInvalidLength`. It
-- then has the coordinator program create its account.
unfoldable pub run_create : ℕ → Run → Option Run
run_create run_id_len params =
    if ltb solana_run_id_max_len run_id_len
    then none
    else some
        (record params { total_claimed_collateral_amount = 0; total_claimed_earned_points = 0 })

unfoldable pub participant_create : ℕ → ℕ → Method TreasurerError Treasury (Unit {0})
participant_create user collateral t = elim (holder_of user t.holders) [
  | some h ↦ err account_in_use t
  | none ↦ ok tt (record t {
    holders =
        t.holders
        ++ record {
          user = user;
          participant = record { claimed_collateral_amount = 0; claimed_earned_points = 0 };
          user_collateral = collateral;
        }
          ∷ [];
  })
]

-- `participant_claim_processor`, where the coordinator's clients are given
unfoldable pub participant_claim :
    ⦃token : Token⦄ → List Client → ℕ → ℕ → Method TreasurerError Treasury (Unit {0})
participant_claim ⦃token⦄ clients user claim_earned_points = do
  holder? ← gets λ t. holder_of user t.holders
  holder ← ok_or holder? account_missing
  unclaimed ← checked_sub (earned_points user clients) holder.participant.claimed_earned_points
  fail_if (ltb unclaimed claim_earned_points) invalid_parameter
  collateral ← checked u64_mod (holder.participant.claimed_collateral_amount + claim_earned_points)
  points ← checked u64_mod (holder.participant.claimed_earned_points + claim_earned_points)
  total_collateral? ← gets λ t. t.run.total_claimed_collateral_amount + claim_earned_points
  total_collateral ← checked u64_mod total_collateral?
  total_points? ← gets λ t. t.run.total_claimed_earned_points + claim_earned_points
  total_points ← checked u64_mod total_points?
  moved? ← gets λ t. token.transfer t.run_collateral holder.user_collateral claim_earned_points
  moved ← ok_or moved? transfer_refused
  modify λ t. record t {
    run = record t.run {
      total_claimed_collateral_amount = total_collateral;
      total_claimed_earned_points = total_points;
    };
    run_collateral = moved.0;
    holders =
        put
          (record {
            user = holder.user;
            participant = record {
              claimed_collateral_amount = collateral;
              claimed_earned_points = points;
            };
            user_collateral = moved.1;
          })
          t.holders;
  }
