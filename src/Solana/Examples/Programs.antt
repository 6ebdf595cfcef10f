-- ===== src/Solana/Examples/Programs.antt =====
-- Examples for the authorizer and for the instructions of the on-chain coordinator.
use psyche.Base.{
  ◌≤◌, ℕ, ◌≡◌, ◌+◌, refl, true, false, some, none, List, [], ◌∷◌, ◌⊎◌, ok, err, arith,
}
use psyche.Base.Int.{pos_part, i64_max, pos}
use psyche.Base.Keys.{find_key, put_key, drop_key}
use psyche.Coordinator.Examples.{toy_floats, toy_hashing}
use psyche.Solana.Authorizer
use psyche.Solana.Authorizer.{
  closing_delay, Derivation, Authorization, Authorizations, AuthorizerError, default_key,
  is_valid_for, authorization_create, authorization_grantor_update, authorization_grantee_update,
  Transaction, replay, close, authorization_active_is_true,
  authorization_closing_conditions_not_reached_yet,
}
use psyche.Solana.Authorizer.Grants.{Some, Activates, Adds, WasActive, WasDelegate, replay-Granted}
use psyche.Solana.Authorizer.Closing.{Closable, Elapsed, close_exactly}
use psyche.Solana.Chain.{
  CoordinatorAccount, CoordinatorInstance, Platform, Chain, blank, live, store,
}
use psyche.Solana.Examples.{cooled, clock}
use psyche.Solana.Program
use psyche.Solana.Program.{
  init_coordinator, future_epoch_rates, process, join_run_authorization_scope,
}
use psyche.Solana.Program.Effects.{Effect}
use psyche.Solana.Program.Access.{process-Effect}
use psyche.Solana.Program.Owners.{
  Owned, Reachable, empty_chain, empty, step, transaction, allocation, Reachable-Owned,
}

instance derivation : Derivation
derivation = record {
  find_authorization = λ grantor grantee scope. grantor + grantee;
  bump = λ grantor grantee scope. 255;
}

abbrev signs : ℕ → Authorizer.Instruction → Transaction
signs signer i = record {
  signer = signer;
  authorization = 5;
  unix_timestamp = pos 100;
  instruction = i;
}

-- 2 lets 3 join runs, and 3 passes it on to 7.
abbrev history : List Transaction
history =
    signs 2 (authorization_create 3 join_run_authorization_scope)
    ∷ signs 2 (authorization_grantor_update true)
    ∷ signs 3 (authorization_grantee_update false (7 ∷ []))
    ∷ []

abbrev granted : Authorization
granted = record {
  bump = 255;
  grantor = 2;
  grantee = 3;
  scope = join_run_authorization_scope;
  active = true;
  delegates = 7 ∷ [];
  grantor_update_unix_timestamp = pos 100;
}

grants : find_key 5 (replay history []) ≡ some granted
unfolding replay Authorizer.execute Authorizer.process Authorizer.create Authorizer.load
    Authorizer.grantor_update Authorizer.grantee_update find_key put_key derivation
grants = refl

admits : is_valid_for granted 2 7 join_run_authorization_scope ≡ true
unfolding is_valid_for
admits = refl

replay-Granted_example :
    ((granted.grantor ≡ 2) × (granted.scope ≡ join_run_authorization_scope))
    × (WasActive 2 (find_key 5 []) ⊎ Some (Activates 2 5) history)
    × ((granted.grantee ≡ default_key)
        ⊎ ((granted.grantee ≡ 7) ⊎ (WasDelegate 3 7 (find_key 5 []) ⊎ Some (Adds 3 5 7) history)))
replay-Granted_example =
    replay-Granted history [] 5 granted 2 7 join_run_authorization_scope grants admits

-- The grantor closes it 40 days after it was switched off.
abbrev ended : Authorization
ended = record granted { active = false }

abbrev accounts : Authorizations
accounts = (5, ended) ∷ []

holds_ended : find_key 5 accounts ≡ some ended
unfolding find_key
holds_ended = refl

fits_ended :
    (x : Authorization)
    → find_key 5 accounts ≡ some x
    → pos_part x.grantor_update_unix_timestamp + closing_delay ≤ i64_max
fits_ended x h = let is : x ≡ ended = ground (arith, h, holds_ended) in rw is (omega arith)

close_exactly_example :
    ((x : Authorization) × (find_key 5 accounts ≡ some x)
      × Closable 2 (pos 3456100) x
      × (close 2 5 (pos 3456100) accounts ≡ ok tt (drop_key 5 accounts)))
    ⊎ ((e : AuthorizerError) × (close 2 5 (pos 3456100) accounts ≡ err e accounts)
        × (((e ≡ Authorizer.account_missing) × (find_key 5 accounts ≡ none))
            ⊎ ((x : Authorization) × (find_key 5 accounts ≡ some x)
                × (((e ≡ Authorizer.constraint_violated) × ¬ (x.grantor ≡ 2))
                    ⊎ (((e ≡ authorization_active_is_true) × (x.active ≡ true))
                        ⊎ ((e ≡ authorization_closing_conditions_not_reached_yet)
                            × ¬ (x.delegates ≡ [])
                            × ¬ Elapsed closing_delay x.grantor_update_unix_timestamp
                                (pos 3456100)))))))
close_exactly_example = close_exactly 2 5 (pos 3456100) accounts fits_ended

instance platform : Platform
platform = record {
  space_with_discriminator = 4;
  zeroed = cooled;
  find_coordinator_instance = λ run_id. 11;
  instance_bump = λ run_id. 254;
}

-- A run is made over an account of the right size.
abbrev allocated : Chain
allocated = record empty_chain { accounts = put_key 12 (blank 4) [] }

abbrev creation : Program.Transaction
creation = record {
  signer = 1;
  instance_key = 11;
  account_key = 12;
  clock = clock;
  instruction = init_coordinator 1 2 (97 ∷ []) (49 ∷ []);
}

abbrev instance_of : CoordinatorInstance
instance_of = record {
  bump = 254;
  main_authority = 1;
  join_authority = 2;
  coordinator_account = 12;
  run_id = 97 ∷ [];
}

abbrev account : ℕ → CoordinatorAccount
account nonce = record {
  version = 1;
  state = Program.first_state platform (97 ∷ []) (49 ∷ []);
  nonce = nonce;
}

abbrev initialized : Chain
initialized = record {
  instances = (11, instance_of) ∷ [];
  accounts = (12, live (account 0)) ∷ [];
  authorizations = [];
}

creates : process 1 11 12 clock creation.instruction allocated ≡ ok tt initialized
unfolding process Program.init_coordinator_processor Program.blank_account find_key put_key platform
creates = refl

reaches : Reachable initialized
unfolding find_key
reaches =
    step (step empty (allocation empty_chain 12 4 refl))
      (transaction creation {c = allocated} creates)

Reachable-Owned_example : Owned initialized
Reachable-Owned_example = Reachable-Owned reaches

-- The main authority raises what an epoch pays.
abbrev raised : Chain
raised =
    store 12
      (record (account 1) {
        state = record (account 1).state {
          clients_state = record (account 1).state.clients_state {
            future_epoch_rates = record {
              earning_rate_total_shared = 20;
              slashing_rate_per_client = 1;
            };
          };
        };
      })
      initialized

raises : process 1 11 12 clock (future_epoch_rates (some 20) none) initialized ≡ ok tt raised
unfolding process psyche.Solana.Chain.by_owner psyche.Solana.Chain.load_instance
    psyche.Solana.Chain.load_linked psyche.Solana.Chain.load_account psyche.Solana.Chain.with_nonce
    psyche.Solana.Chain.run_method psyche.Solana.Methods.set_future_epoch_rates find_key put_key
    platform
raises = refl

process-Effect_example : Effect 1 11 12 (future_epoch_rates (some 20) none) initialized raised
process-Effect_example =
    process-Effect 1 11 12 initialized raised clock (future_epoch_rates (some 20) none) raises
