-- ===== src/Solana/Authorizer/Closing.antt =====
-- When an authorization can be closed: authorization_close.rs of solana-authorizer.
use psyche.Base.{
  none, Option-cases, ℕ, true, false, some, [], ◌==◌, ◌≡◌, ◌+◌, ◌≤◌, refl, ◌⊎◌, ◌↔◌, inl, inr,
  arith, ok, err, Bool-cases, ==_iff,
}
use psyche.Base.Int.{ℤ, pos_part, neg_part, i64_max}
use psyche.Base.Keys.{find_key, drop_key}
use psyche.Solana.Authorizer.{
  Authorization, Authorizations, AuthorizerError, must_wait, closing_delay, load, close,
  authorization_active_is_true, authorization_closing_conditions_not_reached_yet,
  constraint_violated, account_missing,
}

-- So many seconds have gone by since then.
abbrev pub Elapsed : ℕ → ℤ → ℤ → Type 0
Elapsed seconds since now = pos_part since + neg_part now + seconds ≤ pos_part now + neg_part since

-- What must hold of an account for its grantor to close it.
abbrev pub Closable : ℕ → ℤ → Authorization → Type 0
Closable signer now x =
    (x.grantor ≡ signer)
    × (x.active ≡ false)
    × ((x.delegates ≡ []) ⊎ Elapsed closing_delay x.grantor_update_unix_timestamp now)

must_wait-false :
    (x : Authorization) (now : ℤ)
    → pos_part x.grantor_update_unix_timestamp + closing_delay ≤ i64_max
    → (must_wait x now ≡ false)
      ↔ ((x.delegates ≡ []) ⊎ Elapsed closing_delay x.grantor_update_unix_timestamp now)
unfolding must_wait
must_wait-false x now h = ground arith

-- The branches for an account that is there.
close-found :
    (signer address : ℕ) (now : ℤ) (s : Authorizations) (x : Authorization)
    → find_key address s ≡ some x
    → pos_part x.grantor_update_unix_timestamp + closing_delay ≤ i64_max
    → (Closable signer now x × (close signer address now s ≡ ok tt (drop_key address s)))
      ⊎ ((e : AuthorizerError) × (close signer address now s ≡ err e s)
          × (((e ≡ constraint_violated) × ¬ (x.grantor ≡ signer))
              ⊎ (((e ≡ authorization_active_is_true) × (x.active ≡ true))
                  ⊎ ((e ≡ authorization_closing_conditions_not_reached_yet)
                      × ¬ (x.delegates ≡ [])
                      × ¬ Elapsed closing_delay x.grantor_update_unix_timestamp now))))
unfolding close load
close-found signer address now s x h fits = elim (Bool-cases (x.grantor == signer)) [
  | inr other ↦ inr (constraint_violated, rw (h, other), inl (refl, ground arith))
  | inl same ↦ elim (Bool-cases (must_wait x now)) [
    | inl waits ↦ elim (Bool-cases x.active) [
      | inl on ↦ inr (authorization_active_is_true, rw (h, same, on), inr (inl (refl, on)))
      | inr off ↦ inr (
        authorization_closing_conditions_not_reached_yet,
        rw (h, same, waits, off),
        inr (
            inr (
              refl,
              (λ d. cc ((must_wait-false x now fits).1 (inl d))),
              (λ d. cc ((must_wait-false x now fits).1 (inr d))),
            )),
      )
    ]
    | inr over ↦ elim (Bool-cases x.active) [
      | inl on ↦ inr (authorization_active_is_true, rw (h, same, on), inr (inl (refl, on)))
      | inr off ↦
          inl (
            ((==_iff _ _).0 same, off, (must_wait-false x now fits).0 over),
            rw (h, same, over, off),
          )
    ]
  ]
]

-- As long as the last update is not within 30 days of the end of time, the account is closed if it
-- is there, its grantor signs, it is not active, and it has no delegates or was last updated at least
-- 30 days ago; nothing but the account goes. In every other case `close` fails, with the error that
-- says what was missing, and changes nothing.
pub close_exactly :
    (signer address : ℕ) (now : ℤ) (s : Authorizations)
    → ((x : Authorization)
        → find_key address s ≡ some x
        → pos_part x.grantor_update_unix_timestamp + closing_delay ≤ i64_max)
    → ((x : Authorization) × (find_key address s ≡ some x)
        × Closable signer now x
        × (close signer address now s ≡ ok tt (drop_key address s)))
      ⊎ ((e : AuthorizerError) × (close signer address now s ≡ err e s)
          × (((e ≡ account_missing) × (find_key address s ≡ none))
              ⊎ ((x : Authorization) × (find_key address s ≡ some x)
                  × (((e ≡ constraint_violated) × ¬ (x.grantor ≡ signer))
                      ⊎ (((e ≡ authorization_active_is_true) × (x.active ≡ true))
                          ⊎ ((e ≡ authorization_closing_conditions_not_reached_yet)
                              × ¬ (x.delegates ≡ [])
                              × ¬ Elapsed closing_delay x.grantor_update_unix_timestamp now))))))
unfolding close load
close_exactly signer address now s fits = elim (Option-cases (find_key address s)) [
  | inl missing ↦ inr (account_missing, rw missing refl, inl (refl, missing))
  | inr (x, h) ↦ elim (close-found signer address now s x h (fits x h)) [
    | inl (closable, closed) ↦ inl (x, h, closable, closed)
    | inr (e, fails, why) ↦ inr (e, fails, inr (x, h, why))
  ]
]
