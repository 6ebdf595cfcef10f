-- ===== src/Base/Keeps.antt =====
-- What a method keeps, whether it returns or fails: a predicate of the state it leaves. A panic
-- leaves none.
use Prim.Native.Nat.{ℕ, ◌-◌}
use mathlib.Core.Option.{Option, none, some}
use mathlib.Core.Bool.{Bool, true, false}
use psyche.Base.Tests.{if◌then◌else◌, ltb, leb}
use psyche.Base.Methods.{
  Outcome, ok, err, panic, Method, pure, fail, gets, ok_or, unwrap, modify, fail_if, checked,
  checked_sub, when, bind, ◌>>=◌, ◌>>◌,
}

-- The predicate holds of the state that is left, if one is.
abbrev pub Leaves : {E S A : Type 0} → (S → Type 0) → Outcome E S A → Type 0
Leaves P (ok a s) = P s
Leaves P (err e s) = P s
Leaves P panic = Unit

pub record Keeps {E S A : Type 0} (P : S → Type 0) (m : Method E S A) : Type 0 where
  pub keeps : (s : S) → P s → Leaves P (m s)

module _ {E S : Type 0} {P : S → Type 0} where
  module _ {A : Type 0} where
    pub gets-Keeps : (f : S → A) → Keeps {E = E} P (gets f)
    gets-Keeps f = record { keeps = λ s h. h }

    pub pure-Keeps : (a : A) → Keeps {E = E} P (pure a)
    pure-Keeps a = record { keeps = λ s h. h }

    pub fail-Keeps : (e : E) → Keeps {A = A} P (fail e)
    fail-Keeps e = record { keeps = λ s h. h }

    pub ok_or-Keeps : (o : Option A) (e : E) → Keeps P (ok_or o e)
    ok_or-Keeps none e = record { keeps = λ s h. h }
    ok_or-Keeps (some a) e = record { keeps = λ s h. h }

    pub unwrap-Keeps : (o : Option A) → Keeps {E = E} P (unwrap o)
    unwrap-Keeps none = record { keeps = λ s h. tt }
    unwrap-Keeps (some a) = record { keeps = λ s h. h }

    pub if-Keeps :
        (b : Bool) {m n : Method E S A} → Keeps P m → Keeps P n → Keeps P (if b then m else n)
    if-Keeps true h k = h
    if-Keeps false h k = k

  pub modify-Keeps : {f : S → S} → ((s : S) → P s → P (f s)) → Keeps {E = E} P (modify f)
  modify-Keeps h = record { keeps = h }

  pub fail_if-Keeps : (b : Bool) (e : E) → Keeps P (fail_if b e)
  fail_if-Keeps true e = record { keeps = λ s h. h }
  fail_if-Keeps false e = record { keeps = λ s h. h }

  pub checked-Keeps : (bound n : ℕ) → Keeps {E = E} P (checked bound n)
  checked-Keeps bound n = record {
    keeps = λ s h.
        elim (ltb n bound)
          as (λ b. Leaves P (elim b as (λ _. Outcome E S ℕ) [ true ↦ ok n s | false ↦ panic ])) [
            | true ↦ h
            | false ↦ tt
          ];
  }

  pub checked_sub-Keeps : (a b : ℕ) → Keeps {E = E} P (checked_sub a b)
  checked_sub-Keeps a b = record {
    keeps = λ s h.
        elim (leb b a)
          as (λ t.
            Leaves P (elim t as (λ _. Outcome E S ℕ) [ true ↦ ok (a - b) s | false ↦ panic ])) [
              | true ↦ h
              | false ↦ tt
            ];
  }

  pub when-Keeps : (b : Bool) {m : Method E S (Unit {0})} → Keeps P m → Keeps P (when b m)
  when-Keeps true h = record { keeps = h.keeps }
  when-Keeps false h = record { keeps = λ s k. k }

  module _ {A B : Type 0} where
    pub bind-Leaves :
        (o : Outcome E S A) (f : A → Method E S B)
        → Leaves P o
        → ((a : A) → Keeps P (f a))
        → Leaves P (bind o f)
    bind-Leaves (ok a s) f h k = (k a).keeps s h
    bind-Leaves (err e s) f h k = h
    bind-Leaves panic f h k = tt

    pub bind-Keeps :
        {m : Method E S A} {f : A → Method E S B}
        → Keeps P m
        → ((a : A) → Keeps P (f a))
        → Keeps P (m >>= f)
    bind-Keeps {m} {f} h k = record { keeps = λ s p. bind-Leaves (m s) f (h.keeps s p) k }

  module _ {B : Type 0} where
    pub seq-Keeps :
        {m : Method E S (Unit {0})} {n : Method E S B} → Keeps P m → Keeps P n → Keeps P (m >> n)
    seq-Keeps {m} {n} h k = record {
      keeps = λ s p. bind-Leaves (m s) (λ _. n) (h.keeps s p) (λ _. k);
    }

-- The rules for the parts of a method.
pub ruleset keeping = (
  gets-Keeps, pure-Keeps, fail-Keeps, ok_or-Keeps, unwrap-Keeps, if-Keeps, fail_if-Keeps,
  checked-Keeps, when-Keeps, bind-Keeps, seq-Keeps,
)
