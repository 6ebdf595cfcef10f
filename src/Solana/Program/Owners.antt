-- ===== src/Solana/Program/Owners.antt =====
-- Every coordinator account belongs to one instance: init_coordinator.rs and free_coordinator.rs of
-- solana-coordinator.
use psyche.Base.{ℕ, ◌≡◌, Option, none, some, [], arith, ok}
use psyche.Base.Keys.{find_key, put_key, find_key-put_key, find_key-drop_key}
use psyche.Core.Hashing.{Hashing}
use psyche.Coordinator.Config.{Float64}
use psyche.Solana.Chain.{RawAccount, blank, live, CoordinatorInstance, Platform, Chain}
use psyche.Solana.Program.{Transaction, Instruction, process}
use psyche.Solana.Program.Effects.{Effect, inits, frees, acts}
use psyche.Solana.Program.Access.{process-Effect}
use psyche.Solana.Authorizer.{Authorizations}

-- There is an account, and it was made.
abbrev pub Lives : Option RawAccount → Type 0
Lives none = ⊥
Lives (some (blank size)) = ⊥
Lives (some (live a)) = Unit

-- The instances' accounts are live, and no two instances share one.
pub record Owned (c : Chain) : Type 0 where
  pub lives :
      (ik : ℕ) (i : CoordinatorInstance)
      → find_key ik c.instances ≡ some i
      → Lives (find_key i.coordinator_account c.accounts)
  pub sole :
      (ik jk : ℕ) (i j : CoordinatorInstance)
      → find_key ik c.instances ≡ some i
      → find_key jk c.instances ≡ some j
      → i.coordinator_account ≡ j.coordinator_account
      → ik ≡ jk

Effect-Owned :
    {signer ik k : ℕ} {instr : Instruction} {c c' : Chain}
    → Effect signer ik k instr c c'
    → Owned c
    → Owned c'
Effect-Owned {ik = ik} {k = k} {c = c} (inits i a size version e free zeros named fresh) o =
    record {
      lives = λ jk j h. ground (
        arith,
        find_key-put_key ik jk i c.instances,
        find_key-put_key k j.coordinator_account (live a) c.accounts,
        o.lives jk j,
      );
      sole = λ jk lk j l hj hl same. ground (
        arith,
        find_key-put_key ik jk i c.instances,
        find_key-put_key ik lk i c.instances,
        o.lives jk j,
        o.lives lk l,
        o.sole jk lk j l,
      );
    }
Effect-Owned {ik = ik} {k = k} {c = c} (frees i a e linked owner halted) o = record {
  lives = λ jk j h. ground (
    arith,
    find_key-drop_key ik jk c.instances,
    find_key-drop_key k j.coordinator_account c.accounts,
    o.lives jk j,
    o.sole ik jk i j,
    linked.instance_found,
    linked.account_named,
  );
  sole = λ jk lk j l hj hl same. ground (
    arith,
    find_key-drop_key ik jk c.instances,
    find_key-drop_key ik lk c.instances,
    o.sole jk lk j l,
  );
}
Effect-Owned {ik = ik} {k = k} {c = c} (acts i a b linked entitled versions nonce) o = record {
  lives = λ jk j h.
      ground (arith, find_key-put_key k j.coordinator_account (live b) c.accounts, o.lives jk j);
  sole = λ jk lk j l hj hl same. o.sole jk lk j l hj hl same;
}

-- What happens to the chain: a transaction, which leaves nothing when it fails; somebody makes an
-- account of zeros for the program at an address that is free; the authorizer does its part.
pub data Step ⦃platform : Platform⦄ ⦃hashing : Hashing⦄ ⦃f : Float64⦄ : Chain → Chain → Type 0 where
  transaction :
      (t : Transaction) {c c' : Chain}
      → process t.signer t.instance_key t.account_key t.clock t.instruction c ≡ ok tt c'
      → Step c c'
  allocation :
      (c : Chain) (key size : ℕ)
      → find_key key c.accounts ≡ none
      → Step c (record c { accounts = put_key key (blank size) c.accounts })
  authorization : (c : Chain) (s : Authorizations) → Step c (record c { authorizations = s })

abbrev pub empty_chain : Chain
empty_chain = record { instances = []; accounts = []; authorizations = [] }

pub data Reachable ⦃platform : Platform⦄ ⦃hashing : Hashing⦄ ⦃f : Float64⦄ : Chain → Type 0 where
  empty : Reachable empty_chain
  step : {c c' : Chain} → Reachable c → Step c c' → Reachable c'

-- On every chain that can be reached from one without accounts, each instance's account is there and
-- was made, and no two instances share an account: to initialise a second instance over an account in
-- use never succeeds.
pub Reachable-Owned :
    ⦃platform : Platform⦄ ⦃hashing : Hashing⦄ ⦃f : Float64⦄ {c : Chain} → Reachable c → Owned c
unfolding find_key
Reachable-Owned empty = record { lives = λ ik i h. cc; sole = λ ik jk i j h k e. cc }
Reachable-Owned (step r (transaction t ran)) =
    Effect-Owned
      (process-Effect t.signer t.instance_key t.account_key _ _ t.clock t.instruction ran)
      (Reachable-Owned r)
Reachable-Owned (step r (allocation c key size free)) =
    let o = Reachable-Owned r in
    record {
      lives = λ ik i h.
          ground (
            arith,
            find_key-put_key key i.coordinator_account (blank size) c.accounts,
            o.lives ik i,
          );
      sole = o.sole;
    }
Reachable-Owned (step r (authorization c s)) =
    let o = Reachable-Owned r in record { lives = o.lives; sole = o.sole }
