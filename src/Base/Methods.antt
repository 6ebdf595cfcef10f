-- ===== src/Base/Methods.antt =====
-- What a method that mutates `self` and returns `Result` can do: return, fail, or panic. A Rust
-- method that returns `Err` keeps what it has written, so the state comes back beside the error.
-- A panic (an assertion, an index out of range, an `unwrap`, an overflow in a build with
-- `overflow-checks`) leaves no state.
use Prim.Native.Nat.{ℕ, ◌-◌}
use mathlib.Core.Path.{◌≡◌, refl}
use mathlib.Core.Option.{Option, none, some}
use mathlib.Core.Bool.{Bool, true, false}
use mathlib.Core.Logic.{◌⊎◌, inl, inr}
use psyche.Base.Tests.{ltb, leb}

pub data Outcome (E S A : Type 0) : Type 0 where
  ok : A → S → Outcome E S A
  err : E → S → Outcome E S A
  panic : Outcome E S A

abbrev pub Method : Type 0 → Type 0 → Type 0 → Type 0
Method E S A = S → Outcome E S A

module _ {E S A : Type 0} where
  abbrev pub pure : A → Method E S A
  pure a s = ok a s

  abbrev pub fail : E → Method E S A
  fail e s = err e s

  abbrev pub panics : Method E S A
  panics s = panic

  abbrev pub gets : (S → A) → Method E S A
  gets f s = ok (f s) s

  -- `.ok_or(e)?`
  abbrev pub ok_or : Option A → E → Method E S A
  ok_or none e s = err e s
  ok_or (some a) e s = ok a s

  -- `.unwrap()`, and an index that is out of range when it yields nothing
  abbrev pub unwrap : Option A → Method E S A
  unwrap none s = panic
  unwrap (some a) s = ok a s

module _ {E S : Type 0} where
  abbrev pub modify : (S → S) → Method E S (Unit {0})
  modify f s = ok tt (f s)

  -- `if b { return Err(e) }`
  abbrev pub fail_if : Bool → E → Method E S (Unit {0})
  fail_if true e s = err e s
  fail_if false e s = ok tt s

  -- `assert!(b)`
  abbrev pub assert : Bool → Method E S (Unit {0})
  assert true s = ok tt s
  assert false s = panic

  -- A sum or product of machine words that must stay below `bound`.
  abbrev pub checked : ℕ → ℕ → Method E S ℕ
  checked bound n s = elim (ltb n bound) [ true ↦ ok n s | false ↦ panic ]

  -- `a - b` on unsigned words.
  abbrev pub checked_sub : ℕ → ℕ → Method E S ℕ
  checked_sub a b s = elim (leb b a) [ true ↦ ok (a - b) s | false ↦ panic ]

module _ {E S : Type 0} where
  -- `if b { m }`, the rest following either way
  abbrev pub when : Bool → Method E S (Unit {0}) → Method E S (Unit {0})
  when true m s = m s
  when false m s = ok tt s

module _ {E S A B : Type 0} where
  abbrev pub bind : Outcome E S A → (A → Method E S B) → Outcome E S B
  bind (ok a s) f = f a s
  bind (err e s) f = err e s
  bind panic f = panic

  infixl 5 ◌>>=◌
  abbrev pub ◌>>=◌ : Method E S A → (A → Method E S B) → Method E S B
  ◌>>=◌ m f s = bind (m s) f

module _ {E S B : Type 0} where
  infixl 5 ◌>>◌
  abbrev pub ◌>>◌ : Method E S (Unit {0}) → Method E S B → Method E S B
  ◌>>◌ m k s = bind (m s) (λ _. k)

-- The moduli of the machine words.
abbrev pub u8_mod : ℕ
u8_mod = 256

abbrev pub u16_mod : ℕ
u16_mod = 65536

abbrev pub u32_mod : ℕ
u32_mod = 4294967296

abbrev pub u64_mod : ℕ
u64_mod = 18446744073709551616

module _ {E S A : Type 0} where
  -- The state that an outcome leaves, if it leaves one.
  abbrev pub final : Outcome E S A → Option S
  final (ok a s) = some s
  final (err e s) = some s
  final panic = none

  -- The call returns, and with its result and the new state `P` holds.
  abbrev pub Returns : Outcome E S A → (A → S → Type 0) → Type 0
  Returns (ok a s) P = P a s
  Returns (err e s) P = ⊥
  Returns panic P = ⊥

module _ {E S A : Type 0} where
  -- A weaker postcondition.
  pub Returns-map :
      (o : Outcome E S A) (P Q : A → S → Type 0)
      → ((a : A) (s : S) → P a s → Q a s)
      → Returns o P
      → Returns o Q
  Returns-map (ok a s) P Q k h = k a s h
  Returns-map (err e s) P Q k h = h
  Returns-map panic P Q k h = h

module _ {E S A B : Type 0} where
  -- The rule of a sequence.
  pub Returns-bind :
      (o : Outcome E S A) (f : A → Method E S B) (P : A → S → Type 0) (Q : B → S → Type 0)
      → Returns o P
      → ((a : A) (s : S) → P a s → Returns (f a s) Q)
      → Returns (bind o f) Q
  Returns-bind (ok a s) f P Q h k = k a s h
  Returns-bind (err e s) f P Q h k = elim h [ ]
  Returns-bind panic f P Q h k = elim h [ ]

  -- Inversion of a sequence that returns.
  pub bind-eq-ok :
      (o : Outcome E S A) (f : A → Method E S B) {b : B} {t : S}
      → bind o f ≡ ok b t
      → (a : A) × (s : S) × (o ≡ ok a s) × (f a s ≡ ok b t)
  bind-eq-ok (ok a s) f h = (a, s, refl, h)
  bind-eq-ok (err e s) f h = cc
  bind-eq-ok panic f h = cc

module _ {E S A : Type 0} where
  -- What an outcome is: a result, or something that fails.
  pub Outcome-cases :
      (o : Outcome E S A)
      → ((a : A) × (s : S) × (o ≡ ok a s)) ⊎ (((e : E) × (s : S) × (o ≡ err e s)) ⊎ (o ≡ panic))
  Outcome-cases (ok a s) = inl (a, s, refl)
  Outcome-cases (err e s) = inr (inl (e, s, refl))
  Outcome-cases panic = inr (inr refl)

module _ {E S B : Type 0} where
  -- Inversion of a check in front of a method that returns.
  pub fail_if-eq-ok :
      (b : Bool) (e : E) (s : S) (f : Unit {0} → Method E S B) {v : B} {t : S}
      → bind (fail_if b e s) f ≡ ok v t
      → (b ≡ false) × (f tt s ≡ ok v t)
  fail_if-eq-ok true e s f h = cc
  fail_if-eq-ok false e s f h = (refl, h)

module _ {E S A B : Type 0} where
  -- Inversion of a value that must be there.
  pub ok_or-eq-ok :
      (o : Option A) (e : E) (s : S) (f : A → Method E S B) {v : B} {t : S}
      → bind (ok_or o e s) f ≡ ok v t
      → (a : A) × (o ≡ some a) × (f a s ≡ ok v t)
  ok_or-eq-ok none e s f h = cc
  ok_or-eq-ok (some a) e s f h = (a, refl, h)
