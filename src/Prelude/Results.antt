-- ===== src/Prelude/Results.antt =====
-- Python's exceptions as values: a call returns, or raises one of the exceptions that the code
-- raises itself.
use mathlib.Core.Path.{◌≡◌, refl, ap}
use mathlib.Core.Logic.{◌⊎◌, inl, inr}
use native.Mathlib.Omega.{arith}

pub data Error : Type 0 where
  value_error overflow_error index_error : Error
  -- RotationTransitionError, RotationEnginePortError
  transition_error port_error : Error
  -- TenantAuthenticationError
  authentication_error : Error
  -- an exception that a journal or a callback raises
  foreign_error : Error

pub data Result {ℓ} (A : Type ℓ) : Type ℓ where
  ok : A → Result A
  raise : Error → Result A

-- The rest of a block behind a call: it runs if the call returned.
infixl 5 ◌>>=◌
abbrev pub ◌>>=◌ {ℓ κ} : {R : Type ℓ} {S : Type κ} → Result R → (R → Result S) → Result S
ok value >>= rest = rest value
raise error >>= rest = raise error

-- A block that returns was entered, and its rest returned.
pub >>=-eq-ok {ℓ κ} :
    {R : Type ℓ} {S : Type κ} {returned : S} (call : Result R) (rest : R → Result S)
    → (call >>= rest) ≡ ok returned
    → (value : R) × (call ≡ ok value) × (rest value ≡ ok returned)
>>=-eq-ok (raise error) rest done = ground (arith, done)
>>=-eq-ok (ok value) rest done = (value, refl, done)

pub Result-cases {ℓ} :
    {A : Type ℓ} (r : Result A) → ((a : A) × (r ≡ ok a)) ⊎ ((e : Error) × (r ≡ raise e))
Result-cases (ok a) = inl (a, refl)
Result-cases (raise e) = inr (e, refl)

abbrev result_or {ℓ} : {A : Type ℓ} → A → Result A → A
result_or d (ok a) = a
result_or d (raise e) = d

pub ok-injective {ℓ} : {A : Type ℓ} {a b : A} → ok a ≡ ok b → a ≡ b
ok-injective {a = a} h = ap (result_or a) h
