-- ===== src/Outcome.antt =====
-- How a call ends: it returns, it waits forever for a `std::mutex` that its own thread holds, it does
-- what C++ leaves undefined, an assertion of a debug build stops the program, or an exception leaves
-- the call.

pub data Outcome {ℓ} (A : Type ℓ) : Type ℓ where
  done : A → Outcome A
  deadlock fault abort exception : Outcome A

infixl 5 ◌>>=◌
abbrev pub ◌>>=◌ {ℓ κ} : {A : Type ℓ} {B : Type κ} → Outcome A → (A → Outcome B) → Outcome B
done a >>= f = f a
deadlock >>= f = deadlock
fault >>= f = fault
abort >>= f = abort
exception >>= f = exception

-- The call returns, and its result has the property.
abbrev pub Returns {ℓ} : {A : Type ℓ} → (A → Type 0) → Outcome A → Type 0
Returns P (done a) = P a
Returns P deadlock = ⊥
Returns P fault = ⊥
Returns P abort = ⊥
Returns P exception = ⊥
