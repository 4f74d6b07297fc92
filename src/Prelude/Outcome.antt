-- ===== src/Prelude/Outcome.antt =====
-- What a call of the source comes to: values with a nil error, an error, or a panic.
use mathlib.Core.Path.{◌≡◌, refl}
use mathlib.Core.Option.{Option, none, some}

pub data Outcome (A : Type 0) : Type 0 where
  done : A → Outcome A
  failed panicked : Outcome A

infixl 5 ◌>>=◌
abbrev pub ◌>>=◌ : {A B : Type 0} → Outcome A → (A → Outcome B) → Outcome B
done a >>= f = f a
failed >>= f = failed
panicked >>= f = panicked

-- A read out of bounds, or of a nil pointer, is a panic; a missing file or key is an error.
abbrev pub or_panic : {A : Type 0} → Option A → Outcome A
or_panic none = panicked
or_panic (some a) = done a

abbrev pub or_fail : {A : Type 0} → Option A → Outcome A
or_fail none = failed
or_fail (some a) = done a

pub done_eq : {A : Type 0} {a b : A} → done a ≡ done b → a ≡ b
done_eq h = cc

-- A chain that ends in a value has a value at its first step.
pub >>=-eq-done :
    {A B : Type 0} (m : Outcome A) (f : A → Outcome B) {b : B}
    → (m >>= f) ≡ done b
    → (a : A) × (m ≡ done a) × (f a ≡ done b)
>>=-eq-done (done a) f h = (a, refl, h)
>>=-eq-done failed f h = cc
>>=-eq-done panicked f h = cc

pub or_panic-eq-done : {A : Type 0} (o : Option A) {a : A} → or_panic o ≡ done a → o ≡ some a
or_panic-eq-done none h = cc
or_panic-eq-done (some x) h = cc

pub or_fail-eq-done : {A : Type 0} (o : Option A) {a : A} → or_fail o ≡ done a → o ≡ some a
or_fail-eq-done none h = cc
or_fail-eq-done (some x) h = cc
