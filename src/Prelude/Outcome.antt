-- ===== src/Prelude/Outcome.antt =====
-- What a call does: it returns, it throws one of the standard exceptions, or it faults, where the
-- code's behaviour is undefined (a read through null or through a dangling pointer).

pub data Exception : Type 0 where
  underflow_error overflow_error invalid_argument out_of_range : Exception

pub data Outcome {ℓ} (A : Type ℓ) : Type ℓ where
  returns : A → Outcome A
  throws : Exception → Outcome A
  faults : Outcome A

-- no outcome
pub data Never {ℓ} : Type ℓ where

infixl 5 ◌>>=◌
abbrev pub ◌>>=◌ {ℓ κ} : {A : Type ℓ} {B : Type κ} → Outcome A → (A → Outcome B) → Outcome B
returns a >>= f = f a
throws e >>= f = throws e
faults >>= f = faults
