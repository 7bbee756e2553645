-- ===== src/Base/Outcome.antt =====
-- Results of code that may fail: `fail` is the error return of a C function, `fault` an access that
-- is undefined in C (a null dereference, a read out of range), and `out_of_fuel` a loop or recursion
-- that was given too few rounds.
use mathlib.Core.Path.{◌≡◌, refl, subst}
use mathlib.Core.Logic.{◌≢◌}
use mathlib.Core.Bool.{Bool, true, false}
use mathlib.Core.Option.{Option, none, some}

pub data Run {ℓ} (A : Type ℓ) : Type ℓ where
  done : A → Run A
  fail fault out_of_fuel : Run A

infixl 5 ◌>>=◌
abbrev pub ◌>>=◌ {ℓ κ} : {A : Type ℓ} {B : Type κ} → Run A → (A → Run B) → Run B
done a >>= f = f a
fail >>= f = fail
fault >>= f = fault
out_of_fuel >>= f = out_of_fuel

-- What a pointer or an index leads to, if it leads anywhere.
abbrev pub deref {ℓ} : {A : Type ℓ} → Option A → Run A
deref none = fault
deref (some a) = done a

-- A null pointer that the code checks for, with an error return.
abbrev pub or_fail {ℓ} : {A : Type ℓ} → Option A → Run A
or_fail none = fail
or_fail (some a) = done a

-- The early error return of a handler whose condition does not hold.
abbrev pub guard : Bool → Run (Unit {0})
guard true = done tt
guard false = fail

-- A run that returns, with a postcondition.
pub data Ensures {A : Type 0} (P : A → Type 0) : Run A → Type 0 where
  ensured : {a : A} → P a → Ensures P (done a)

module _ {A : Type 0} {P : A → Type 0} where
  pub ensure : {r : Run A} (a : A) → r ≡ done a → P a → Ensures P r
  ensure a e p = rw e (ensured p)

  pub and_then :
      {B : Type 0} {Q : B → Type 0} {r : Run A} {k : A → Run B}
      → Ensures P r
      → ((a : A) → P a → Ensures Q (k a))
      → Ensures Q (r >>= k)
  and_then (ensured p) next = next _ p

  pub ensured_value : {r : Run A} → Ensures P r → (a : A) × (r ≡ done a) × P a
  ensured_value (ensured {a} p) = (a, refl, p)

  pub weaken : {Q : A → Type 0} {r : Run A} → Ensures P r → ((a : A) → P a → Q a) → Ensures Q r
  weaken (ensured p) next = ensured (next _ p)

-- A predicate of what is returned, if something is.
pub data Returns {A : Type 0} (P : A → Type 0) : Run A → Type 0 where
  returned : {a : A} → P a → Returns P (done a)
  failing : Returns P fail
  faulting : Returns P fault
  starved : Returns P out_of_fuel

pub Returns-then :
    {A B : Type 0} {P : A → Type 0} {Q : B → Type 0} {r : Run A} {k : A → Run B}
    → Returns P r
    → ((a : A) → P a → Returns Q (k a))
    → Returns Q (r >>= k)
Returns-then (returned h) next = next _ h
Returns-then failing next = failing
Returns-then faulting next = faulting
Returns-then starved next = starved

-- Whatever is returned.
pub after :
    {A B : Type 0} {Q : B → Type 0} (r : Run A) {k : A → Run B}
    → ((a : A) → Returns Q (k a))
    → Returns Q (r >>= k)
after (done a) next = next a
after fail next = failing
after fault next = faulting
after out_of_fuel next = starved

pub Returns-nothing : {A : Type 0} {r : Run A} {a : A} → Returns (λ _. ⊥) r → r ≢ done a
Returns-nothing (returned never) e = never
Returns-nothing failing e = absurd cc
Returns-nothing faulting e = absurd cc
Returns-nothing starved e = absurd cc

pub returned_value :
    {A : Type 0} {P : A → Type 0} {r : Run A} (a : A) → Returns P r → r ≡ done a → P a
returned_value {A} {P} {r} a h e = value (subst (Returns P) e h)
  where
    value : Returns P (done a) → P a
    value (returned p) = p

-- A run that returns is a run whose value, if there is one, has the property.
pub Ensures-Returns : {A : Type 0} {P : A → Type 0} {r : Run A} → Ensures P r → Returns P r
Ensures-Returns (ensured p) = returned p

pub Returns-weaken :
    {A : Type 0} {P Q : A → Type 0} {r : Run A} → Returns P r → ((a : A) → P a → Q a) → Returns Q r
Returns-weaken (returned p) next = returned (next _ p)
Returns-weaken failing next = failing
Returns-weaken faulting next = faulting
Returns-weaken starved next = starved
