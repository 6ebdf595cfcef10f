-- ===== src/Solana/Authorizer/Grants.antt =====
-- Who must have signed for an authorization to be valid: the processors of solana-authorizer and
-- `is_valid_for` over any sequence of transactions.
use psyche.Base.{
  ℕ, Bool, true, false, Option, none, some, List, [], ◌∷◌, ◌++◌, ◌==◌, ◌≡◌, refl, ◌⊎◌, inl, inr,
  arith, Option-cases, Bool-cases, ==_iff, if◌then◌else◌, Method, bind, fail_if,
}
use psyche.Base.Int.{ℤ}
use psyche.Base.Keys.{
  find_key, find_key-put_key, find_key-drop_key, same_bytes_iff, contains, put_key, drop_key,
}
use psyche.Solana.Authorizer.{
  Derivation, Authorization, Authorizations, default_key, is_valid_for, Instruction,
  authorization_create, authorization_grantor_update, authorization_grantee_update,
  authorization_close, Transaction, create, load, grantor_update, grantee_update, close, process,
  committed, execute, replay, must_wait, AuthorizerError,
}

-- One of the transactions meets `P`.
abbrev pub Some : (Transaction → Type 0) → List Transaction → Type 0
Some P [] = ⊥
Some P (t ∷ ts) = P t ⊎ Some P ts

-- There was an account, and it met `P`.
abbrev pub Was : (Authorization → Type 0) → Option Authorization → Type 0
Was P none = ⊥
Was P (some a) = P a

-- The grantor switches the account on.
abbrev pub Activates : ℕ → ℕ → Transaction → Type 0
Activates grantor address t =
    (t.signer ≡ grantor)
    × (t.authorization ≡ address)
    × (t.instruction ≡ authorization_grantor_update true)

abbrev adds : Instruction → ℕ → Bool
adds (authorization_grantee_update clear added) user = contains added user
adds _ user = false

-- The grantee makes the user a delegate.
abbrev pub Adds : ℕ → ℕ → ℕ → Transaction → Type 0
Adds grantee address user t =
    (t.signer ≡ grantee) × (t.authorization ≡ address) × (adds t.instruction user ≡ true)

contains-append :
    (xs ys : List ℕ) (u : ℕ)
    → contains (xs ++ ys) u ≡ true
    → (contains xs u ≡ true) ⊎ (contains ys u ≡ true)
contains-append [] ys u h = inr h
contains-append (x ∷ xs) ys u h = ground (arith, contains-append xs ys u)

-- What a transaction may do to the accounts.
data Change (signer address : ℕ) (now : ℤ) (i : Instruction) (s : Authorizations)
    : Authorizations → Type 0 where
  nothing : Change signer address now i s s
  created :
      (x : Authorization)
      → x.active ≡ false
      → x.delegates ≡ []
      → Change signer address now i s (put_key address x s)
  switched :
      (x : Authorization) (active : Bool)
      → find_key address s ≡ some x
      → x.grantor ≡ signer
      → i ≡ authorization_grantor_update active
      → Change signer address now i s
          (put_key address (record x { active = active; grantor_update_unix_timestamp = now }) s)
  delegated :
      (x : Authorization) (clear : Bool) (added : List ℕ)
      → find_key address s ≡ some x
      → x.grantee ≡ signer
      → i ≡ authorization_grantee_update clear added
      → Change signer address now i s (
          put_key address (record x { delegates = (if clear then [] else x.delegates) ++ added }) s)
  closed : Change signer address now i s (drop_key address s)

-- Two checks of which the second fails.
keeps :
    {signer address : ℕ} {now : ℤ} {i : Instruction} {s : Authorizations} (e : AuthorizerError)
    (b : Bool) (rest : Unit {0} → Method AuthorizerError Authorizations (Unit {0}))
    → ((u : Unit {0}) → committed s (rest u s) ≡ s)
    → Change signer address now i s (committed s (bind (fail_if b e s) rest))
keeps e true rest h = nothing
keeps {signer} {address} {now} {i} {s} e false rest h = rw (h tt) nothing

module _ ⦃derivation : Derivation⦄ where
  process-Change :
      (signer address : ℕ) (now : ℤ) (i : Instruction) (s : Authorizations)
      → Change signer address now i s (committed s (process signer address now i s))
  unfolding process create load grantor_update grantee_update close
  process-Change signer address now (authorization_create grantee scope) s =
      elim (Bool-cases (derivation.find_authorization signer grantee scope == address)) [
        | inr other ↦ rw other nothing
        | inl same ↦ elim (Option-cases (find_key address s)) [
          | inl free ↦ rw (same, free) (created _ refl refl)
          | inr (x, used) ↦ rw (same, used) nothing
        ]
      ]
  process-Change signer address now (authorization_grantor_update active) s =
      elim (Option-cases (find_key address s)) [
        | inl missing ↦ rw missing nothing
        | inr (x, e) ↦ elim (Bool-cases (x.grantor == signer)) [
          | inl same ↦ rw (e, same) (switched x active e ((==_iff _ _).0 same) refl)
          | inr other ↦ rw (e, other) nothing
        ]
      ]
  process-Change signer address now (authorization_grantee_update clear added) s =
      elim (Option-cases (find_key address s)) [
        | inl missing ↦ rw missing nothing
        | inr (x, e) ↦ elim (Bool-cases (x.grantee == signer)) [
          | inl same ↦ rw (e, same) (delegated x clear added e ((==_iff _ _).0 same) refl)
          | inr other ↦ rw (e, other) nothing
        ]
      ]
  process-Change signer address now authorization_close s =
      elim (Option-cases (find_key address s)) [
        | inl missing ↦ rw missing nothing
        | inr (x, e) ↦ elim (Bool-cases (x.grantor == signer)) [
          | inr other ↦ rw (e, other) nothing
          | inl same ↦ elim (Bool-cases (must_wait x now)) [
            | inl waits ↦ rw (e, same, waits) (keeps _ x.active _ (λ u. refl))
            | inr over ↦ elim (Bool-cases x.active) [
              | inl on ↦ rw (e, same, over, on) nothing
              | inr off ↦ rw (e, same, over, off) closed
            ]
          ]
        ]
      ]

-- The account was there before, active and under the same grantor.
abbrev pub WasActive : ℕ → Option Authorization → Type 0
WasActive grantor = Was (λ y. (y.active ≡ true) × (y.grantor ≡ grantor))

abbrev pub WasDelegate : ℕ → ℕ → Option Authorization → Type 0
WasDelegate grantee user = Was (λ y. (contains y.delegates user ≡ true) × (y.grantee ≡ grantee))

-- An active account was active before under the same grantor, or that grantor switched it on.
Change-active :
    {signer address : ℕ} {now : ℤ} {i : Instruction} {s s' : Authorizations} (a : ℕ)
    (x : Authorization)
    → Change signer address now i s s'
    → find_key a s' ≡ some x
    → x.active ≡ true
    → WasActive x.grantor (find_key a s)
      ⊎ ((signer ≡ x.grantor) × (address ≡ a) × (i ≡ authorization_grantor_update true))
Change-active a x nothing h k = ground arith
Change-active {address = address} {s = s} a x (created y off none_added) h k =
    ground (arith, find_key-put_key address a y s)
Change-active {address = address} {now = now} {s = s} a x (switched y active e owner instr) h k =
    ground (
      arith,
      find_key-put_key address a (record y { active = active; grantor_update_unix_timestamp = now })
          s,
    )
Change-active {address = address} {s = s} a x (delegated y clear added e owner instr) h k = ground (
  arith,
  find_key-put_key address a (record y { delegates = (if clear then [] else y.delegates) ++ added })
      s,
)
Change-active {address = address} {s = s} a x closed h k =
    ground (arith, find_key-drop_key address a s)

-- A user that the account admits was admitted before, or the grantee made it a delegate.
Change-delegates :
    {signer address : ℕ} {now : ℤ} {i : Instruction} {s s' : Authorizations} (a user : ℕ)
    (x : Authorization)
    → Change signer address now i s s'
    → find_key a s' ≡ some x
    → contains x.delegates user ≡ true
    → WasDelegate x.grantee user (find_key a s)
      ⊎ ((signer ≡ x.grantee) × (address ≡ a) × (adds i user ≡ true))
Change-delegates a user x nothing h k = ground arith
Change-delegates {address = address} {s = s} a user x (created y off none_added) h k =
    ground (arith, find_key-put_key address a y s)
Change-delegates {address = address} {now = now} {s = s} a user x (switched y active e owner instr)
      h k =
    ground (
      arith,
      find_key-put_key address a (record y { active = active; grantor_update_unix_timestamp = now })
          s,
    )
Change-delegates {address = address} {s = s} a user x (delegated y true added e owner instr) h k =
    ground (arith, find_key-put_key address a (record y { delegates = [] ++ added }) s)
Change-delegates {address = address} {s = s} a user x (delegated y false added e owner instr) h k =
    ground (
      arith,
      find_key-put_key address a (record y { delegates = y.delegates ++ added }) s,
      contains-append y.delegates added user,
    )
Change-delegates {address = address} {s = s} a user x closed h k =
    ground (arith, find_key-drop_key address a s)

-- What made the account valid: the accounts at the start, or one of the transactions.
module _ ⦃derivation : Derivation⦄ (a : ℕ) (x : Authorization) where
  replay-active :
      (ts : List Transaction) (s : Authorizations)
      → find_key a (replay ts s) ≡ some x
      → x.active ≡ true
      → WasActive x.grantor (find_key a s) ⊎ Some (Activates x.grantor a) ts
  unfolding replay execute
  replay-active [] s h k = inl (rw h (k, refl))
  replay-active (t ∷ ts) s h k = elim (replay-active ts (execute t s) h k) [
    | inr found ↦ inr (inr found)
    | inl was ↦ elim (Option-cases (find_key a (execute t s))) [
      | inl missing ↦ absurd (rw missing at was)
      | inr (y, e) ↦
          let found = rw e at was in
          ground (
            arith,
            Change-active a y
                (process-Change t.signer t.authorization t.unix_timestamp t.instruction s) e
                found.0,
          )
    ]
  ]

  replay-delegates :
      (user : ℕ) (ts : List Transaction) (s : Authorizations)
      → find_key a (replay ts s) ≡ some x
      → contains x.delegates user ≡ true
      → WasDelegate x.grantee user (find_key a s) ⊎ Some (Adds x.grantee a user) ts
  unfolding replay execute
  replay-delegates user [] s h k = inl (rw h (k, refl))
  replay-delegates user (t ∷ ts) s h k = elim (replay-delegates user ts (execute t s) h k) [
    | inr found ↦ inr (inr found)
    | inl was ↦ elim (Option-cases (find_key a (execute t s))) [
      | inl missing ↦ absurd (rw missing at was)
      | inr (y, e) ↦
          let found = rw e at was in
          ground (
            arith,
            Change-delegates a user y
                (process-Change t.signer t.authorization t.unix_timestamp t.instruction s) e
                found.0,
          )
    ]
  ]

is_valid_for-true :
    (x : Authorization) (grantor user : ℕ) (scope : List ℕ)
    → is_valid_for x grantor user scope ≡ true
    → (x.active ≡ true)
      × (x.grantor ≡ grantor)
      × (x.scope ≡ scope)
      × ((x.grantee ≡ default_key) ⊎ ((x.grantee ≡ user) ⊎ (contains x.delegates user ≡ true)))
unfolding is_valid_for
is_valid_for-true x grantor user scope h = ground (arith, same_bytes_iff x.scope scope)

-- After any transactions, an account that is valid for a grantor, a user and a scope has that
-- grantor and that scope; and either it was active under this grantor at the start, or the grantor
-- signed a transaction that switched it on. The account is open to everyone, or the user is its
-- grantee, or the user was its delegate under this grantee at the start, or the grantee signed a
-- transaction that made the user a delegate.
pub replay-Granted :
    ⦃derivation : Derivation⦄ (ts : List Transaction) (s : Authorizations) (a : ℕ)
    (x : Authorization) (grantor user : ℕ) (scope : List ℕ)
    → find_key a (replay ts s) ≡ some x
    → is_valid_for x grantor user scope ≡ true
    → ((x.grantor ≡ grantor) × (x.scope ≡ scope))
      × (WasActive grantor (find_key a s) ⊎ Some (Activates grantor a) ts)
      × ((x.grantee ≡ default_key)
          ⊎ ((x.grantee ≡ user)
              ⊎ (WasDelegate x.grantee user (find_key a s) ⊎ Some (Adds x.grantee a user) ts)))
replay-Granted ts s a x grantor user scope h valid =
    let (on, same_grantor, same_scope, user?) = is_valid_for-true x grantor user scope valid in
    (
      (same_grantor, same_scope),
      rw same_grantor at (replay-active a x ts s h on),
      elim user? [
        | inl anyone ↦ inl anyone
        | inr (inl grantee) ↦ inr (inl grantee)
        | inr (inr delegate) ↦ inr (inr (replay-delegates a x user ts s h delegate))
      ],
    )
