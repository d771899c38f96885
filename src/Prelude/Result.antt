-- ===== src/Prelude/Result.antt =====
-- A Python function that may raise: its value, or the exception.
use mathlib.Core.Path.{◌≡◌, refl}
use mathlib.Core.Logic.{◌⊎◌, inl, inr}
use mathlib.Core.Bool.{Bool, true, false}
use mathlib.Core.Option.{Option, none, some}

pub data Result (E A : Type 0) : Type 0 where
  ok : A → Result E A
  err : E → Result E A

infixl 5 ◌>>=◌ ◌>>◌
abbrev pub ◌>>=◌ : {E A B : Type 0} → Result E A → (A → Result E B) → Result E B
ok a >>= f = f a
err e >>= f = err e

abbrev pub ◌>>◌ : {E B : Type 0} → Result E (Unit {0}) → Result E B → Result E B
m >> k = m >>= λ _. k

-- `if c: raise e`
abbrev pub raise_if : {E : Type 0} → Bool → E → Result E (Unit {0})
raise_if true e = err e
raise_if false e = ok tt

pub Result-cases :
    {E A : Type 0} (m : Result E A) → ((e : E) × (m ≡ err e)) ⊎ ((a : A) × (m ≡ ok a))
Result-cases (err e) = inl (e, refl)
Result-cases (ok a) = inr (a, refl)

-- What a function returns has a property, if it returns.
abbrev pub AllOk : {E A : Type 0} → (A → Type 0) → Result E A → Type 0
AllOk P (ok a) = P a
AllOk P (err e) = Unit

-- The same of an optional value.
abbrev pub AllSome : {A : Type 0} → (A → Type 0) → Option A → Type 0
AllSome P (some a) = P a
AllSome P none = Unit

pub AllOk-bind :
    {E A B : Type 0} (P : B → Type 0) (m : Result E A) (f : A → Result E B)
    → ((a : A) → AllOk P (f a))
    → AllOk P (m >>= f)
AllOk-bind P (ok a) f each = each a
AllOk-bind P (err e) f each = tt

-- The same with a property of the first step at hand.
pub AllOk-then :
    {E A B : Type 0} (P : A → Type 0) (Q : B → Type 0) (m : Result E A) (f : A → Result E B)
    → AllOk P m
    → ((a : A) → P a → AllOk Q (f a))
    → AllOk Q (m >>= f)
AllOk-then P Q (ok a) f h each = each a h
AllOk-then P Q (err e) f h each = tt

-- Behind a check its condition is false.
pub raise_if-passed : {E : Type 0} (c : Bool) (e : E) → AllOk (λ u. c ≡ false) (raise_if c e)
raise_if-passed true e = tt
raise_if-passed false e = refl
